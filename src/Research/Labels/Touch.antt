-- ===== src/Research/Labels/Touch.antt =====
-- The candle that `target_before_stop` decides on.
use mathlib.Core.Path.{subst}
use research_platform.Prelude.{
  ℕ, suc, ◌+◌, ◌≡◌, refl, sym, ap, ◌∙◌, Bool, true, false, Bool-cases, inl, inr, ◌⊎◌, some, none,
  List, [], ◌∷◌, ◌++◌, All, length, take, ltb, if◌then◌else◌, arith, and_true, and_false,
}
use research_platform.Prelude.Int.{int_laws, pos, ◌-ℤ◌, ◌*ℤ◌}
use research_platform.Decimal
use research_platform.Decimal.{Decimal, zero_decimal}
use research_platform.Domain.Signal.{Direction}
use research_platform.Result.{value_error, raise_if, guard, Ensures, Ensures-map, bind-any}
use research_platform.Research.Candle.{Candle}
use research_platform.Research.Labels.{BarrierResult}
use research_platform.Research.Labels.Barrier.{
  Trade, BarrierOutcome, touches, hits_target, hits_stop, next_best, next_worst, walk, touched,
  untouched, Walk-cases, finish, gap_at_stop, gap_at_target, excursion_r, touch_outcome,
  window_outcome, target_before_stop, in_order,
}

abbrev pub IsUntouched : Trade → Candle → Type 0
IsUntouched trade c = touches trade c ≡ false

-- The first price is at least as bad for the trade as the second.
abbrev pub IsNoBetter : Direction → (price than : Decimal) → Type 0
IsNoBetter Direction.long price than = Decimal.le price than ≡ true
IsNoBetter Direction.short price than = Decimal.le than price ≡ true

-- A candle that touches the stop decides for the stop, at a price no better than it; any other that
-- touches a barrier decides for the target, at a price no worse than it.
abbrev pub Decides : Trade → Candle → (at_stop : Bool) → BarrierOutcome → (exit : Decimal) → Type 0
Decides trade c true o exit =
    (o.result ≡ BarrierResult.stop_hit)
    × (o.ambiguous ≡ hits_target trade c)
    × IsNoBetter trade.direction exit trade.stop
Decides trade c false o exit =
    (o.result ≡ BarrierResult.target_hit)
    × (o.ambiguous ≡ false)
    × IsNoBetter trade.direction trade.target exit

-- The outcome is decided by the candle `at`, the first of the window that touches a barrier.
pub record IsTouch (trade : Trade) (window : List Candle) (o : BarrierOutcome) : Type 0 where
  pub before : List Candle
  pub at : Candle
  pub after : List Candle
  pub splits : window ≡ before ++ at ∷ after
  pub none_before : All (IsUntouched trade) before
  pub touching : touches trade at ≡ true
  pub counted : o.candles_to_outcome ≡ some (suc (length before))
  pub exit : Decimal
  pub left_at : o.exit_price ≡ some exit
  pub decides : Decides trade at (hits_stop trade at) o exit

-- No candle of the window touches a barrier, and the outcome is undecided.
pub record IsUndecided (trade : Trade) (window : List Candle) (o : BarrierOutcome) : Type 0 where
  pub none_touches : All (IsUntouched trade) window
  pub uncounted : o.candles_to_outcome ≡ none
  pub undecided :
      ((window ≡ []) × (o.result ≡ BarrierResult.no_data)) ⊎ (o.result ≡ BarrierResult.timeout)

abbrev pub IsFirstTouch : Trade → List Candle → BarrierOutcome → Type 0
IsFirstTouch trade window o = IsTouch trade window o ⊎ IsUndecided trade window o

le_self : (a : Decimal) → Decimal.le a a ≡ true
unfolding Decimal.le ◌-ℤ◌ ◌*ℤ◌
le_self a = let level : a.exp -ℤ a.exp ≡ pos 0 = grind int_laws in rw level (ground arith)

lt-le : (a b : Decimal) → Decimal.lt a b ≡ true → Decimal.le a b ≡ true
unfolding Decimal.le Decimal.lt
lt-le a b h = ground arith

-- A candle that opens beyond the stop is left at its open, any other at the stop.
stop_price :
    (entry stop target : Decimal) (d : Direction) (c : Candle)
    → let trade : Trade = record { entry = entry; stop = stop; target = target; direction = d } in
      IsNoBetter d (if gap_at_stop trade c then c.open_price else stop) stop
stop_price entry stop target Direction.long c =
    ground (arith, le_self stop, lt-le c.open_price stop)
stop_price entry stop target Direction.short c =
    ground (arith, le_self stop, lt-le stop c.open_price)

target_price :
    (entry stop target : Decimal) (d : Direction) (c : Candle)
    → let trade : Trade = record { entry = entry; stop = stop; target = target; direction = d } in
      IsNoBetter d target (if gap_at_target trade c then c.open_price else target)
target_price entry stop target Direction.long c =
    ground (arith, le_self target, lt-le target c.open_price)
target_price entry stop target Direction.short c =
    ground (arith, le_self target, lt-le c.open_price target)

touch_outcome-Decides :
    (trade : Trade) (risk : Decimal) (n : ℕ) (c : Candle) (best worst : Decimal) (at_stop : Bool)
    → Ensures
        (λ o.
          (o.candles_to_outcome ≡ some n)
          × (exit : Decimal) × (o.exit_price ≡ some exit)
          × Decides trade c at_stop o exit)
        (touch_outcome trade risk n c best worst at_stop)
touch_outcome-Decides trade risk n c best worst true = bind-any _ (excursion_r trade risk _) _ λ r.
    bind-any _ (excursion_r trade risk best) _ λ mfe.
      bind-any _ (excursion_r trade risk worst) _ λ mae. (
        refl,
        _,
        refl,
        (
          refl,
          and_true (hits_target trade c),
          stop_price trade.entry trade.stop trade.target trade.direction c,
        ),
      )
touch_outcome-Decides trade risk n c best worst false = bind-any _ (excursion_r trade risk _) _ λ r.
    bind-any _ (excursion_r trade risk best) _ λ mfe.
      bind-any _ (excursion_r trade risk worst) _ λ mae. (
        refl,
        _,
        refl,
        (
          refl,
          and_false (hits_target trade c),
          target_price trade.entry trade.stop trade.target trade.direction c,
        ),
      )

touched_candle :
    {m n : ℕ} {c d : Candle} {a b v w : Decimal} → touched m c a v ≡ touched n d b w → c ≡ d
touched_candle h = cc

touched_offset :
    {m n : ℕ} {c d : Candle} {a b v w : Decimal} → touched m c a v ≡ touched n d b w → m ≡ n
touched_offset h = cc

walk-touched :
    (trade : Trade) (n : ℕ) (best worst : Decimal) (cs : List Candle) (at : ℕ) (c : Candle)
    (b w : Decimal)
    → walk trade n best worst cs ≡ touched at c b w
    → (before : List Candle) × (after : List Candle) × (cs ≡ before ++ c ∷ after)
      × All (IsUntouched trade) before
      × (touches trade c ≡ true)
      × (at ≡ n + length before)
unfolding walk
walk-touched trade n best worst [] at c b w e = cc
walk-touched trade n best worst (d ∷ cs) at c b w e = elim (Bool-cases (touches trade d)) [
  | inl t ↦ (
    [],
    cs,
    ap (λ k. k ∷ cs) (touched_candle (rw t at e)),
    tt,
    subst (λ k. touches trade k ≡ true) (touched_candle (rw t at e)) t,
    omega (arith, touched_offset (rw t at e)),
  )
  | inr f ↦
      let (before, after, s, u, t, k) =
        walk-touched trade (suc n) (next_best trade best d) (next_worst trade worst d) cs at c b w
          (rw f at e) in
      (d ∷ before, after, ap (λ xs. d ∷ xs) s, (f, u), t, omega (arith, k))
]

walk-untouched :
    (trade : Trade) (n : ℕ) (best worst : Decimal) (cs : List Candle) (b w : Decimal)
    → walk trade n best worst cs ≡ untouched b w
    → All (IsUntouched trade) cs
unfolding walk
walk-untouched trade n best worst [] b w e = tt
walk-untouched trade n best worst (d ∷ cs) b w e = elim (Bool-cases (touches trade d)) [
  | inl t ↦ cc (rw t at e)
  | inr f ↦ (
    f,
    walk-untouched trade (suc n) (next_best trade best d) (next_worst trade worst d) cs b w
        (rw f at e),
  )
]

finish-untouched :
    (trade : Trade) (risk : Decimal) (max : ℕ) (c : Candle) (cs : List Candle) (b w : Decimal)
    → All (IsUntouched trade) (c ∷ cs)
    → Ensures (IsUndecided trade (c ∷ cs)) (finish trade risk max c cs (untouched b w))
finish-untouched trade risk max c cs b w h = bind-any _ (excursion_r trade risk _) _ λ r.
    bind-any _ (excursion_r trade risk b) _ λ mfe.
      bind-any _ (excursion_r trade risk w) _
        λ mae. record { none_touches = h; uncounted = refl; undecided = inr refl }

window_outcome-IsFirstTouch :
    (trade : Trade) (risk : Decimal) (max : ℕ) (cs : List Candle)
    → Ensures (IsFirstTouch trade cs) (window_outcome trade risk max cs)
window_outcome-IsFirstTouch trade risk max [] =
    inr (record { none_touches = tt; uncounted = refl; undecided = inl (refl, refl) })
window_outcome-IsFirstTouch trade risk max (c ∷ cs) =
    elim (Walk-cases (walk trade 1 trade.entry trade.entry (c ∷ cs))) [
      | inr (b, w, e) ↦
          subst (λ u. Ensures (IsFirstTouch trade (c ∷ cs)) (finish trade risk max c cs u)) (sym e)
            (Ensures-map _ _ (finish trade risk max c cs (untouched b w))
              (finish-untouched trade risk max c cs b w
                (walk-untouched trade 1 trade.entry trade.entry (c ∷ cs) b w e))
              λ o h. inr h)
      | inl (n, k, b, w, e) ↦
          let (before, after, s, u, t, m) =
            walk-touched trade 1 trade.entry trade.entry (c ∷ cs) n k b w e in
          let m' : n ≡ suc (length before) = omega (arith, m) in
          subst (λ v. Ensures (IsFirstTouch trade (c ∷ cs)) (finish trade risk max c cs v)) (sym e)
            (Ensures-map _ _ (touch_outcome trade risk n k b w (hits_stop trade k))
              (touch_outcome-Decides trade risk n k b w (hits_stop trade k))
              λ o h. inl (record {
                before = before;
                at = k;
                after = after;
                splits = s;
                none_before = u;
                touching = t;
                counted = h.0 ∙ ap some m';
                exit = h.1;
                left_at = h.2;
                decides = h.3;
              }))
    ]

-- If `target_before_stop` returns, the first candle of the window that touches a barrier decides,
-- at its number: for the stop, if it touches the stop, at a price no better than the stop, and else
-- for the target, at a price no worse than the target; if no candle touches a barrier, the outcome
-- is undecided.
pub target_before_stop-IsFirstTouch :
    (future : List Candle) (trade : Trade) (max : ℕ)
    → Ensures (IsFirstTouch trade (take max future)) (target_before_stop future trade max)
unfolding target_before_stop
target_before_stop-IsFirstTouch future trade max =
    bind-any _ (raise_if (ltb max 1) value_error) _ λ _.
      bind-any _ (raise_if (Decimal.le trade.entry zero_decimal) value_error) _ λ _.
        bind-any _ (guard (in_order trade) value_error) _
          λ _. window_outcome-IsFirstTouch trade _ max (take max future)
