-- ===== src/Alerts/Rules/Window.antt =====
-- What a pressure alert says of the bars it was given.
use mathlib.Core.Path.{subst}
use mathlib.Core.Logic.{◌↔◌}
use research_platform.Prelude.{
  ℕ, zero, suc, ◌+◌, ◌-◌, ◌≤◌, ◌≡◌, refl, ◌∙◌, Bool, true, false, ◌&&◌, Bool-cases, Option-cases,
  inl, inr, ltb, ltb→ge, ltb→lt, Option, none, some, List, [], ◌∷◌, All, length, length-drop, drop,
  arith,
}
use research_platform.Prelude.Sort.{
  sort_by, sort_by-IsAscending, sort_by-All_given, IsAscending, IsAtMost,
}
use research_platform.Result.{Result, ok, err, ◌>>=◌, Ensures, Ensures-eq_ok}
use research_platform.Decimal
use research_platform.Decimal.{Decimal, zero_decimal}
use research_platform.Domain.Signal.{Bar}
use research_platform.Fills.Engine.{bar_key}
use research_platform.Analytics.Pressure.{
  PressureEstimate, PressureSide, estimate_pressure, strong_pressure, is_buying, is_selling,
}
use research_platform.Analytics.Pressure.Covers.{Covers, estimate_pressure-Covers}
use research_platform.Alerts.Rules.{cooled, last_bars, alert_of, pressure_alert}

-- Strong buying: money flows in at the threshold or above, the balance volume rises, and the close is
-- not below the average price. Strong selling is the mirror image.
abbrev pub IsStrong : PressureEstimate → Decimal → PressureSide → Type 0
IsStrong e threshold PressureSide.buy =
    (Decimal.le threshold e.chaikin_money_flow ≡ true)
    × (Decimal.lt zero_decimal e.obv_slope ≡ true)
    × (Decimal.le zero_decimal e.vwap_distance_pct ≡ true)
IsStrong e threshold PressureSide.sell =
    (Decimal.le e.chaikin_money_flow (Decimal.neg threshold) ≡ true)
    × (Decimal.lt e.obv_slope zero_decimal ≡ true)
    × (Decimal.le e.vwap_distance_pct zero_decimal ≡ true)

-- The cooldown after the last alert is over.
abbrev pub IsCooled : (ts : ℕ) → (last : Option ℕ) → (cooldown : ℕ) → Type 0
IsCooled ts none cooldown = Unit
IsCooled ts (some last) cooldown = last + cooldown ≤ ts

-- `e` is the estimate over the last `window_bars` bars, it ends at the latest bar, and it asks for an
-- alert on the side.
abbrev pub IsAlert :
    (bars : List Bar) (cmf_threshold : Decimal) (window_bars cooldown : ℕ)
    (last_alert_ts : Option ℕ) (e : PressureEstimate) (side : PressureSide)
    → Type 0
IsAlert bars threshold window_bars cooldown last e side =
    (estimate_pressure (last_bars window_bars (sort_by bar_key bars)) ≡ ok (some e))
    × (e.bars ≡ window_bars)
    × All (λ b. b.ts ≤ e.last_bar_ts) bars
    × IsCooled e.last_bar_ts last cooldown
    × IsStrong e threshold side

-- The alert that is returned is one, and none is returned only where there is none.
abbrev pub IsDue :
    (bars : List Bar) (cmf_threshold : Decimal) (window_bars cooldown : ℕ)
    (last_alert_ts : Option ℕ)
    → Option (PressureEstimate × PressureSide)
    → Type 0
IsDue bars threshold window_bars cooldown last none = ¬ (
    (e : PressureEstimate) × (side : PressureSide) × IsAlert bars threshold window_bars cooldown
      last e side)
IsDue bars threshold window_bars cooldown last (some (e, side)) =
    IsAlert bars threshold window_bars cooldown last e side

drop-IsAscending :
    (n : ℕ) (bars : List Bar) → IsAscending bar_key bars → IsAscending bar_key (drop n bars)
drop-IsAscending zero bars h = h
drop-IsAscending (suc n) [] h = h
drop-IsAscending (suc n) (b ∷ bs) h = drop-IsAscending n bs h.1

last_bars-IsAscending :
    (n : ℕ) (bars : List Bar) → IsAscending bar_key bars → IsAscending bar_key (last_bars n bars)
last_bars-IsAscending zero bars h = h
last_bars-IsAscending (suc n) bars h = drop-IsAscending (length bars - suc n) bars h

length-last_bars : (n : ℕ) (bars : List Bar) → 1 ≤ n → length (last_bars n bars) ≤ n
length-last_bars zero bars h = absurd (omega (arith, h))
length-last_bars (suc n) bars h = omega (arith, length-drop (length bars - suc n) bars)

-- The bars before the window are no later than those in it.
drop-AllAtMost :
    (n t : ℕ) (bars : List Bar)
    → IsAscending bar_key bars
    → 1 ≤ length (drop n bars)
    → All (λ b. b.ts ≤ t) (drop n bars)
    → All (λ b. b.ts ≤ t) bars
drop-AllAtMost zero t bars h k all = all
drop-AllAtMost (suc n) t [] h k all = absurd (omega (arith, k))
drop-AllAtMost (suc n) t (b ∷ bs) h k all = onto bs h.0 (drop-AllAtMost n t bs h.1 k all) k
  where
    onto :
        (cs : List Bar)
        → IsAtMost bar_key b.ts cs
        → All (λ c. c.ts ≤ t) cs
        → 1 ≤ length (drop n cs)
        → All (λ c. c.ts ≤ t) (b ∷ cs)
    onto [] first rest some_left = absurd (omega (arith, some_left, length-drop {A = Bar} n []))
    onto (c ∷ cs) first rest some_left = (omega (arith, first, rest.0), rest)

last_bars-AllAtMost :
    (n t : ℕ) (bars : List Bar)
    → IsAscending bar_key bars
    → 1 ≤ length (last_bars n bars)
    → All (λ b. b.ts ≤ t) (last_bars n bars)
    → All (λ b. b.ts ≤ t) bars
last_bars-AllAtMost zero t bars h k all = all
last_bars-AllAtMost (suc n) t bars h k all = drop-AllAtMost (length bars - suc n) t bars h k all

cooled-IsCooled :
    (ts : ℕ) (last : Option ℕ) (cooldown : ℕ)
    → (cooled ts last cooldown ≡ true) ↔ IsCooled ts last cooldown
cooled-IsCooled ts none cooldown = (λ _. tt, λ _. refl)
cooled-IsCooled ts (some last) cooldown = (λ h. ground (arith, h), λ h. ground (arith, h))

and_three : (a b c : Bool) → (a && (b && c) ≡ true) ↔ ((a ≡ true) × (b ≡ true) × (c ≡ true))
and_three true true c = (λ h. (refl, refl, h), λ h. h.2)
and_three true false c = (λ h. absurd cc, λ h. absurd cc)
and_three false b c = (λ h. absurd cc, λ h. absurd cc)

strong_pressure-IsStrong :
    (e : PressureEstimate) (threshold : Decimal) (side : PressureSide)
    → strong_pressure e threshold ≡ some side
    → IsStrong e threshold side
unfolding strong_pressure
strong_pressure-IsStrong e threshold PressureSide.buy h = (and_three _ _ _).0 (buying h)
  where
    buying : strong_pressure e threshold ≡ some PressureSide.buy → is_buying e threshold ≡ true
    buying k = ground (arith, k)
strong_pressure-IsStrong e threshold PressureSide.sell h = (and_three _ _ _).0 (selling h)
  where
    selling : strong_pressure e threshold ≡ some PressureSide.sell → is_selling e threshold ≡ true
    selling k = ground (arith, k)

strong_pressure-none :
    (e : PressureEstimate) (threshold : Decimal) (side : PressureSide)
    → strong_pressure e threshold ≡ none
    → IsStrong e threshold side
    → ⊥
unfolding strong_pressure
strong_pressure-none e threshold PressureSide.buy h strong =
    let buying : is_buying e threshold ≡ true = (and_three _ _ _).1 strong in
    ground (arith, h, buying)
strong_pressure-none e threshold PressureSide.sell h strong =
    let selling : is_selling e threshold ≡ true = (and_three _ _ _).1 strong in
    ground (arith, h, selling)

module _ (bars : List Bar) (threshold : Decimal) (window_bars cooldown : ℕ) (last : Option ℕ)
    (least : 1 ≤ window_bars) where
  abbrev window_of : List Bar
  window_of = last_bars window_bars (sort_by bar_key bars)

  window-Covers : Ensures (Covers window_of) (estimate_pressure window_of)
  window-Covers =
      estimate_pressure-Covers window_of (
        last_bars-IsAscending window_bars (sort_by bar_key bars) (sort_by-IsAscending bar_key bars))

  -- Too few bars have no estimate over a whole window.
  too_few :
      ltb (length window_of) window_bars ≡ true
      → IsDue bars threshold window_bars cooldown last none
  too_few short (e, _, (found, full, _, _, _)) =
      let (covered, _) =
        Ensures-eq_ok (Covers window_of) (estimate_pressure window_of) window-Covers found in
      omega (arith, ltb→lt _ _ short, covered, full)

  alert_of-IsDue :
      (e : PressureEstimate)
      → length window_of ≡ window_bars
      → estimate_pressure window_of ≡ ok (some e)
      → IsDue bars threshold window_bars cooldown last (alert_of threshold cooldown last (some e))
  alert_of-IsDue e full found = elim (Option-cases (strong_pressure e threshold)) [
    | inl weak ↦ rw weak λ (e', side, (found', _, _, _, strong)).
        strong_pressure-none e threshold side weak
          (subst (λ x. IsStrong x threshold side) (same e' found') strong)
    | inr (side, k) ↦ rw k (elim (Bool-cases (cooled e.last_bar_ts last cooldown)) [
      | inl c ↦ rw c (
        found,
        covered.0 ∙ full,
        sort_by-All_given bar_key (λ b. b.ts ≤ e.last_bar_ts) bars
            (last_bars-AllAtMost window_bars e.last_bar_ts (sort_by bar_key bars)
              (sort_by-IsAscending bar_key bars) (omega (arith, least, full)) covered.1),
        (cooled-IsCooled e.last_bar_ts last cooldown).0 c,
        strong_pressure-IsStrong e threshold side k,
      )
      | inr hot ↦ rw hot λ (e', _, (found', _, _, cool, _)).
          let after : cooled e.last_bar_ts last cooldown ≡ true =
            (cooled-IsCooled e.last_bar_ts last cooldown).1
              (subst (λ x. IsCooled x.last_bar_ts last cooldown) (same e' found') cool) in
          absurd cc
    ])
  ]
    where
      covered : (e.bars ≡ length window_of) × All (λ b. b.ts ≤ e.last_bar_ts) window_of
      covered = Ensures-eq_ok (Covers window_of) (estimate_pressure window_of) window-Covers found

      same : (e' : PressureEstimate) → estimate_pressure window_of ≡ ok (some e') → e' ≡ e
      same e' k = cc

  answered :
      Ensures
        (IsDue bars threshold window_bars cooldown last)
        (pressure_alert bars threshold window_bars cooldown last)
  unfolding pressure_alert
  answered = elim (Bool-cases (ltb (length window_of) window_bars)) [
    | inl short ↦ rw short (too_few short)
    | inr e ↦
        let full : length window_of ≡ window_bars =
          omega (arith, ltb→ge _ _ e, length-last_bars window_bars (sort_by bar_key bars) least) in
        rw e (estimated full (estimate_pressure window_of) refl)
  ]
    where
      estimated :
          length window_of ≡ window_bars
          → (r : Result (Option PressureEstimate)) → estimate_pressure window_of ≡ r
          → Ensures
              (IsDue bars threshold window_bars cooldown last)
              (r >>= λ found. ok (alert_of threshold cooldown last found))
      estimated full (err _) k = tt
      estimated full (ok none) k = λ (e, _, (found, _, _, _, _)). absurd cc
      estimated full (ok (some e)) k = alert_of-IsDue e full k

-- For a window of at least one bar, if `pressure_alert` returns an alert, it is the estimate over
-- exactly the window's number of last bars, no given bar is later than its last, that last bar is
-- outside the cooldown, and the flow, the balance volume and the distance to the average price are
-- strong on its side; if it returns none, no estimate and side are so.
pub pressure_alert-IsDue :
    (bars : List Bar) (cmf_threshold : Decimal) (window_bars cooldown : ℕ) (last : Option ℕ)
    → 1 ≤ window_bars
    → Ensures
        (IsDue bars cmf_threshold window_bars cooldown last)
        (pressure_alert bars cmf_threshold window_bars cooldown last)
pressure_alert-IsDue bars cmf_threshold window_bars cooldown last h =
    answered bars cmf_threshold window_bars cooldown last h
