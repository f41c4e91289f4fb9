-- ===== src/Analytics/Pressure/Covers.antt =====
-- Which bars an estimate of pressure is over.
use mathlib.Core.Path.{subst}
use research_platform.Prelude.{
  ℕ, ◌≤◌, ◌≡◌, refl, sym, Bool-cases, inl, inr, Option, none, some, List, [], ◌∷◌, All, length,
  last_or, arith,
}
use research_platform.Prelude.Sort.{sort_by, sort_by_sorted, IsAscending}
use research_platform.Result.{ok, Ensures, bind-any, bind-Ensures}
use research_platform.Domain.Signal.{Bar}
use research_platform.Fills.Engine.{bar_key}
use research_platform.Analytics.Pressure.{
  PressureEstimate, estimate_of, estimate_ordered, estimate_pressure, has_duplicate,
  quantize_pressure,
}

-- The estimate is over all of the bars, and none of them is later than its last.
abbrev pub Covers : List Bar → Option PressureEstimate → Type 0
Covers bars none = Unit
Covers bars (some e) = (e.bars ≡ length bars) × All (λ b. b.ts ≤ e.last_bar_ts) bars

at_most-last_or :
    (t : ℕ) (b : Bar) (bs : List Bar)
    → t ≤ b.ts
    → IsAscending bar_key (b ∷ bs)
    → t ≤ (last_or b bs).ts
at_most-last_or t b [] h k = h
at_most-last_or t b (c ∷ cs) h k = at_most-last_or t c cs (omega (arith, h, k.0)) k.1

All-last_or :
    (b : Bar) (bs : List Bar)
    → IsAscending bar_key (b ∷ bs)
    → All (λ c. c.ts ≤ (last_or b bs).ts) (b ∷ bs)
All-last_or b [] h = (omega arith, tt)
All-last_or b (c ∷ cs) h = (at_most-last_or b.ts b (c ∷ cs) (omega arith) h, All-last_or c cs h.1)

estimate_of-Covers :
    (first : Bar) (rest : List Bar)
    → IsAscending bar_key (first ∷ rest)
    → Ensures (λ e. Covers (first ∷ rest) (some e)) (estimate_of first rest)
unfolding estimate_of
estimate_of-Covers first rest h = bind-any _ (quantize_pressure _) _ λ a.
    bind-any _ (quantize_pressure _) _ λ b. bind-any _ (quantize_pressure _) _ λ c.
      bind-any _ (quantize_pressure _) _
        λ d. bind-any _ (quantize_pressure _) _ λ e. (refl, All-last_or first rest h)

estimate_ordered-Covers :
    (bars : List Bar) → IsAscending bar_key bars → Ensures (Covers bars) (estimate_ordered bars)
estimate_ordered-Covers [] h = tt
estimate_ordered-Covers (_ ∷ []) h = tt
estimate_ordered-Covers (a ∷ b ∷ rest) h =
    bind-Ensures (λ e. Covers (a ∷ b ∷ rest) (some e)) (Covers (a ∷ b ∷ rest))
      (estimate_of a (b ∷ rest)) (λ e. ok (some e)) (estimate_of-Covers a (b ∷ rest) h) (λ e k. k)

pub estimate_pressure-Covers :
    (bars : List Bar) → IsAscending bar_key bars → Ensures (Covers bars) (estimate_pressure bars)
unfolding estimate_pressure
estimate_pressure-Covers bars h =
    let sorted : sort_by bar_key bars ≡ bars = sort_by_sorted bar_key bars h in
    elim (Bool-cases (has_duplicate (sort_by bar_key bars))) [
      | inl e ↦ rw e tt
      | inr e ↦ rw e (
          subst (λ bs. Ensures (Covers bars) (estimate_ordered bs)) (sym sorted)
            (estimate_ordered-Covers bars h))
    ]
