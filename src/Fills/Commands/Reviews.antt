-- ===== src/Fills/Commands/Reviews.antt =====
-- Reviews and freezes, and the reasons that they record.
use text.Mathlib.TextEquality.{eq_iff}
use text.Mathlib.TextPositions.{eq_refl}
use text.Mathlib.Text.{◌==◌ as str_eq}
use research_platform.Prelude.{
  ◌≡◌, Bool, true, false, Bool-cases, or-eq-false, or_true, inl, inr, String, List, [], ◌∷◌, ◌++◌,
  refl, sym, any, ◌||◌, ◌&&◌,
}
use research_platform.Result.{ok, Ensures, Ensures-eq_ok}
use research_platform.Domain.Order.{OrderState, Event, Ref, is_final}
use research_platform.Fills.Engine.{flag_review, freeze, has_reason}

-- No reason is listed twice.
abbrev pub IsOnce : List String → Type 0
IsOnce [] = Unit
IsOnce (r ∷ rs) = (has_reason r rs ≡ false) × IsOnce rs

any-append :
    (p : String → Bool) (rs : List String) (r : String)
    → any p (rs ++ r ∷ []) ≡ any p rs || (p r || false)
any-append p [] r = refl
any-append p (x ∷ rs) r = rw (any-append p rs r) (sym (or_assoc (p x) (any p rs) (p r || false)))
  where
    or_assoc : (a b c : Bool) → (a || b) || c ≡ a || (b || c)
    or_assoc true b c = refl
    or_assoc false b c = refl

has_reason_last : (r : String) (rs : List String) → has_reason r (rs ++ r ∷ []) ≡ true
has_reason_last r rs = rw (any-append (str_eq r) rs r, eq_refl r) (or_true (any (str_eq r) rs))

str_eq_swap : (r x : String) → str_eq r x ≡ false → str_eq x r ≡ false
str_eq_swap r x h = elim (Bool-cases (str_eq x r)) [
  | inr differs ↦ differs
  | inl same ↦ (cc (h, (eq_iff r x).1 (sym ((eq_iff x r).0 same))))
]

IsOnce-snoc :
    (rs : List String) (r : String) → IsOnce rs → has_reason r rs ≡ false → IsOnce (rs ++ r ∷ [])
IsOnce-snoc [] r h n = (refl, tt)
IsOnce-snoc (x ∷ rs) r h n =
    let (differs, absent) = or-eq-false (str_eq r x) (any (str_eq r) rs) n in
    (rw (any-append (str_eq x) rs r, h.0, str_eq_swap r x differs), IsOnce-snoc rs r h.1 absent)

-- From a state that lists no review reason twice, if `flag_review` returns, the new state has the
-- reason and lists no reason twice.
pub flag_review-IsOnce :
    (s : OrderState) (reason : String) (ref : Ref)
    → IsOnce s.review_reasons
    → Ensures
        (λ o. IsOnce o.0.review_reasons × (has_reason reason o.0.review_reasons ≡ true))
        (flag_review s reason ref)
unfolding flag_review
flag_review-IsOnce s reason ref h = elim (Bool-cases (has_reason reason s.review_reasons)) [
  | inl known ↦ rw known (h, known)
  | inr new ↦
      rw new (IsOnce-snoc s.review_reasons reason h new, has_reason_last reason s.review_reasons)
]

-- A freeze for the reason has nothing left to do.
abbrev stopped_for : String → OrderState → Bool
stopped_for reason s = is_final s || (s.frozen && has_reason reason s.frozen_reasons)

freeze_stopped :
    (s : OrderState) (reason : String) (ref : Ref)
    → stopped_for reason s ≡ true
    → freeze s reason ref ≡ ok (s, [])
unfolding freeze
freeze_stopped s reason ref h = rw h

freeze-stopped_for :
    (s : OrderState) (reason : String) (ref : Ref)
    → Ensures (λ o. stopped_for reason o.0 ≡ true) (freeze s reason ref)
unfolding freeze
freeze-stopped_for s reason ref = elim (Bool-cases (stopped_for reason s)) [
  | inl done ↦ rw done done
  | inr new ↦ rw new (rw (has_reason_last reason s.frozen_reasons) (or_true (is_final s)))
]

-- If `freeze` returns for a reason, a second `freeze` for that reason, with any reference, returns
-- the new state unchanged, with no event.
pub freeze_twice :
    (s : OrderState) (reason : String) (ref ref' : Ref) (s' : OrderState) (es : List Event)
    → freeze s reason ref ≡ ok (s', es)
    → freeze s' reason ref' ≡ ok (s', [])
freeze_twice s reason ref ref' s' es h =
    freeze_stopped s' reason ref'
      (Ensures-eq_ok (λ o. stopped_for reason o.0 ≡ true) _ (freeze-stopped_for s reason ref) h)
