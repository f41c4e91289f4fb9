-- ===== src/Research/Labels/Final.antt =====
-- Labels on a series of candles that goes on.
use mathlib.Core.Path.{subst}
use mathlib.Core.List.{append-nil}
use research_platform.Prelude.{
  ℕ, suc, ◌-◌, ◌≡◌, sym, ap, ◌∙◌, true, false, Bool-cases, inl, inr, List, [], ◌∷◌, ◌++◌, length,
  take, take-append, length-take-le, ltb, arith,
}
use research_platform.Decimal
use research_platform.Decimal.{Decimal, zero_decimal}
use research_platform.Domain.Signal.{Direction}
use research_platform.Result.{
  ok, value_error, raise_if, guard, bind-ok_map, Ensures, Ensures-eq_ok, ok-injective,
}
use research_platform.Research.Candle.{Candle}
use research_platform.Research.Labels.{HorizonOutcome, horizon_of, fixed_horizon}
use research_platform.Research.Labels.Barrier.{
  Trade, BarrierOutcome, touches, next_best, next_worst, walk, touched, untouched, finish,
  window_outcome, target_before_stop, Walk-cases, in_order,
}

-- A window of fewer candles than there may be is not complete if no candle touches a barrier.
finish-untouched :
    (trade : Trade) (risk : Decimal) (max : ℕ) (c : Candle) (cs : List Candle)
    (best worst : Decimal)
    → Ensures
        (λ o. o.complete ≡ true → length (c ∷ cs) ≡ max)
        (finish trade risk max c cs (untouched best worst))
finish-untouched trade risk max c cs best worst = ground arith

walk-append :
    (trade : Trade) (n : ℕ) (best worst : Decimal) (cs ds : List Candle) (at : ℕ) (c : Candle)
    (b w : Decimal)
    → walk trade n best worst cs ≡ touched at c b w
    → walk trade n best worst (cs ++ ds) ≡ touched at c b w
unfolding walk
walk-append trade n best worst [] ds at c b w e = cc
walk-append trade n best worst (d ∷ cs) ds at c b w e = elim (Bool-cases (touches trade d)) [
  | inl t ↦ rw t (rw t at e)
  | inr f ↦ rw f (
      walk-append trade (suc n) (next_best trade best d) (next_worst trade worst d) cs ds at c b w
        (rw f at e))
]

window_outcome-append :
    (trade : Trade) (risk : Decimal) (max : ℕ) (cs ds : List Candle) (o : BarrierOutcome)
    → (length cs ≡ max → ds ≡ [])
    → window_outcome trade risk max cs ≡ ok o
    → o.complete ≡ true
    → window_outcome trade risk max (cs ++ ds) ≡ ok o
window_outcome-append trade risk max [] ds o full e h =
    let no : false ≡ true = ap (λ p. p.complete) (ok-injective e) ∙ h in cc no
window_outcome-append trade risk max (c ∷ cs) ds o full e h =
    elim (Walk-cases (walk trade 1 trade.entry trade.entry (c ∷ cs))) [
      | inl (at, k, b, v, t) ↦
          ap (finish trade risk max c (cs ++ ds))
            (walk-append trade 1 trade.entry trade.entry (c ∷ cs) ds at k b v t)
          ∙ (sym (ap (finish trade risk max c cs) t) ∙ e)
      | inr (b, v, u) ↦
          let e' : finish trade risk max c cs (untouched b v) ≡ ok o =
            sym (ap (finish trade risk max c cs) u) ∙ e in
          let whole =
            Ensures-eq_ok (λ p. p.complete ≡ true → length (c ∷ cs) ≡ max) _
              (finish-untouched trade risk max c cs b v) e' h in
          subst (λ es. window_outcome trade risk max (c ∷ cs ++ es) ≡ ok o) (sym (full whole))
            (ap (window_outcome trade risk max) (append-nil (c ∷ cs)) ∙ e)
    ]

-- Nothing is taken of what follows a window that is full.
none_left : (n : ℕ) (cs ds : List Candle) → length (take n cs) ≡ n → take (n - length cs) ds ≡ []
none_left n cs ds h =
    let gone : 0 ≡ n - length cs = omega (arith, h, length-take-le n cs) in
    sym (ap (λ k. take k ds) gone)

-- An outcome that `target_before_stop` returns as complete is final: candles that follow the others
-- do not change it.
pub target_before_stop-append :
    (future later : List Candle) (trade : Trade) (max : ℕ) (o : BarrierOutcome)
    → target_before_stop future trade max ≡ ok o
    → o.complete ≡ true
    → target_before_stop (future ++ later) trade max ≡ ok o
unfolding target_before_stop
target_before_stop-append future later trade max o e h =
    bind-ok_map (raise_if (ltb max 1) value_error) _ _
      (λ _. bind-ok_map (raise_if (Decimal.le trade.entry zero_decimal) value_error) _ _ λ _.
        bind-ok_map (guard (in_order trade) value_error) _ _ λ _ k.
          ap (window_outcome trade (Decimal.abs (Decimal.sub trade.entry trade.stop)) max)
            (take-append max future later)
          ∙ window_outcome-append trade (Decimal.abs (Decimal.sub trade.entry trade.stop)) max
              (take max future) (take (max - length future) later) o (none_left max future later) k
              h)
      e

horizon_of-complete :
    (entry : Decimal) (direction : Direction) (horizon : ℕ) (cs : List Candle)
    → Ensures (λ o. o.complete ≡ true → length cs ≡ horizon) (horizon_of entry direction horizon cs)
horizon_of-complete entry direction horizon [] = ground arith
horizon_of-complete entry direction horizon (c ∷ cs) = ground arith

horizon_of-append :
    (entry : Decimal) (direction : Direction) (horizon : ℕ) (cs ds : List Candle)
    (o : HorizonOutcome)
    → (length cs ≡ horizon → ds ≡ [])
    → horizon_of entry direction horizon cs ≡ ok o
    → o.complete ≡ true
    → horizon_of entry direction horizon (cs ++ ds) ≡ ok o
horizon_of-append entry direction horizon cs ds o full e h =
    let whole =
      Ensures-eq_ok (λ p. p.complete ≡ true → length cs ≡ horizon) _
        (horizon_of-complete entry direction horizon cs) e h in
    subst (λ es. horizon_of entry direction horizon (cs ++ es) ≡ ok o) (sym (full whole))
      (ap (horizon_of entry direction horizon) (append-nil cs) ∙ e)

-- An outcome of `fixed_horizon` that is complete is final: candles that follow do not change it.
pub fixed_horizon-append :
    (future later : List Candle) (entry : Decimal) (direction : Direction) (horizon : ℕ)
    (o : HorizonOutcome)
    → fixed_horizon future entry direction horizon ≡ ok o
    → o.complete ≡ true
    → fixed_horizon (future ++ later) entry direction horizon ≡ ok o
unfolding fixed_horizon
fixed_horizon-append future later entry direction horizon o e h =
    bind-ok_map (raise_if (ltb horizon 1) value_error) _ _
      (λ _. bind-ok_map (raise_if (Decimal.le entry zero_decimal) value_error) _ _ λ _ k.
        ap (horizon_of entry direction horizon) (take-append horizon future later)
        ∙ horizon_of-append entry direction horizon (take horizon future)
            (take (horizon - length future) later) o (none_left horizon future later) k h)
      e
