-- ===== src/Alerts/Rules/Cooldown.antt =====
-- The cooldown of the price crossings: within a call, and from one call to the next.
use research_platform.Prelude.{
  ℕ, ◌≤◌, ◌<◌, ◌≡◌, refl, ap, Bool, true, false, not, ◌&&◌, Bool-cases, inl, inr, Option, none,
  some, String, List, [], ◌∷◌, arith,
}
use research_platform.Prelude.Sort.{sort_by, IsAscending, IsAtMost, sort_by-IsAscending}
use research_platform.Result.{ok, Ensures}
use research_platform.Decimal.{Decimal}
use research_platform.Domain.Signal.{Bar}
use research_platform.Fills.Engine.{bar_key}
use research_platform.Alerts.Rules.{
  cooled, crosses, scan_crossings, price_crossings, is_above, is_below,
}

-- The instant of the last alert, once `out` has been alerted.
abbrev pub last_after : Option ℕ → (out : List Bar) → Option ℕ
last_after last [] = last
last_after last (b ∷ bs) = last_after (some b.ts) bs

-- Each alert is at least the cooldown after the one before it.
abbrev pub AreSpaced : (cooldown : ℕ) → Option ℕ → (out : List Bar) → Type 0
AreSpaced cooldown last [] = Unit
AreSpaced cooldown last (b ∷ bs) =
    (cooled b.ts last cooldown ≡ true) × AreSpaced cooldown (some b.ts) bs

and-eq-true : (a b : Bool) → a && b ≡ true → (a ≡ true) × (b ≡ true)
and-eq-true true true h = (refl, refl)
and-eq-true true false h = (refl, h)
and-eq-true false b h = absurd cc

scan_crossings-AreSpaced :
    (above : Bool) (level : Decimal) (cooldown : ℕ) (previous : Option Decimal) (last : Option ℕ)
    (bs : List Bar)
    → AreSpaced cooldown last (scan_crossings above level cooldown previous last bs)
unfolding scan_crossings
scan_crossings-AreSpaced above level cooldown previous last [] = tt
scan_crossings-AreSpaced above level cooldown previous last (b ∷ bs) =
    elim (Bool-cases (crosses above level previous b && cooled b.ts last cooldown)) [
      | inl e ↦ rw e (
        (and-eq-true _ _ e).1,
        scan_crossings-AreSpaced above level cooldown (some b.close) (some b.ts) bs,
      )
      | inr e ↦ rw e (scan_crossings-AreSpaced above level cooldown (some b.close) last bs)
    ]

-- A bar within the cooldown of the last alert stays so after the alerts of later bars.
hot_later :
    (above : Bool) (level : Decimal) (cooldown t : ℕ) (previous : Option Decimal) (last : Option ℕ)
    (bs : List Bar)
    → 0 < cooldown
    → IsAtMost bar_key t bs
    → IsAscending bar_key bs
    → cooled t last cooldown ≡ false
    → cooled t (last_after last (scan_crossings above level cooldown previous last bs)) cooldown
      ≡ false
unfolding scan_crossings
hot_later above level cooldown t previous last [] pos_c at_most ascending h = h
hot_later above level cooldown t previous last (b ∷ bs) pos_c at_most ascending h =
    let onward = at_most_trans t b bs at_most ascending.0 in
    elim (Bool-cases (crosses above level previous b && cooled b.ts last cooldown)) [
      | inl e ↦ rw e (
          hot_later above level cooldown t (some b.close) (some b.ts) bs pos_c onward ascending.1
            (ground (arith, pos_c, at_most)))
      | inr e ↦
          rw e (hot_later above level cooldown t (some b.close) last bs pos_c onward ascending.1 h)
    ]
  where
    at_most_trans :
        (t : ℕ) (b : Bar) (bs : List Bar)
        → t ≤ b.ts
        → IsAtMost bar_key b.ts bs
        → IsAtMost bar_key t bs
    at_most_trans t b [] h k = tt
    at_most_trans t b (c ∷ cs) h k = omega (arith, h, k)

-- The same bars give no alert again.
scan_crossings_twice :
    (above : Bool) (level : Decimal) (cooldown : ℕ) (previous : Option Decimal) (last : Option ℕ)
    (bs : List Bar)
    → 0 < cooldown
    → IsAscending bar_key bs
    → scan_crossings above level cooldown previous
        (last_after last (scan_crossings above level cooldown previous last bs))
        bs
      ≡ []
unfolding scan_crossings
scan_crossings_twice above level cooldown previous last [] pos_c ascending = refl
scan_crossings_twice above level cooldown previous last (b ∷ bs) pos_c ascending =
    elim (Bool-cases (crosses above level previous b)) [
      | inr e ↦
          rw e (scan_crossings_twice above level cooldown (some b.close) last bs pos_c ascending.1)
      | inl e ↦ rw e (elim (Bool-cases (cooled b.ts last cooldown)) [
        | inl k ↦
            rw
              (
                k,
                hot_later above level cooldown b.ts (some b.close) (some b.ts) bs pos_c ascending.0
                    ascending.1 (ground (arith, pos_c)),
              )
              (scan_crossings_twice above level cooldown (some b.close) (some b.ts) bs pos_c
                ascending.1)
        | inr k ↦
            rw
              (
                k,
                hot_later above level cooldown b.ts (some b.close) last bs pos_c ascending.0
                    ascending.1 k,
              )
              (scan_crossings_twice above level cooldown (some b.close) last bs pos_c ascending.1)
      ])
    ]

-- With a positive cooldown, if `price_crossings` returns, each bar it alerts is at least the
-- cooldown after the alert before it, and the same bars give no alert again once the last of these
-- alerts is recorded.
pub price_crossings_twice :
    (bars : List Bar) (level : Decimal) (direction : String) (cooldown : ℕ) (last : Option ℕ)
    → 0 < cooldown
    → Ensures
        (λ out.
          AreSpaced cooldown last out
          × (price_crossings bars level direction cooldown (last_after last out) ≡ ok []))
        (price_crossings bars level direction cooldown last)
unfolding price_crossings
price_crossings_twice bars level direction cooldown last pos_c =
    let ordered = sort_by bar_key bars in
    let above = is_above direction in
    elim (Bool-cases (not above && not (is_below direction))) [
      | inl e ↦ rw e tt
      | inr e ↦ rw e (
        scan_crossings-AreSpaced above level cooldown none last ordered,
        ap ok (
            scan_crossings_twice above level cooldown none last ordered pos_c
              (sort_by-IsAscending bar_key bars)),
      )
    ]
