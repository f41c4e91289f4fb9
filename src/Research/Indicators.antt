-- ===== src/Research/Indicators.antt =====
-- src/virtual_orders/research/indicators.py: technical indicators over a series of candles. The volatility is not
-- modelled: it takes a square root.
pub mod Causal
use research_platform.Prelude.{
  ℕ, zero, suc, ◌+◌, ◌-◌, Bool, true, false, not, ◌&&◌, ◌||◌, Option, none, some, List, [], ◌∷◌,
  ◌++◌, map, ltb, leb, ◌==◌, if◌then◌else◌, length, take, drop, replicate, range, get_elem?,
}
use research_platform.Result.{Result, ok, err, value_error, ◌>>=◌, ◌>>◌, raise_if}
use research_platform.Decimal
use research_platform.Decimal.{Decimal, zero_decimal, from_ℕ}
use research_platform.Research.Candle.{Candle, quantize_ratio}

-- A series that is aligned with the candles.
abbrev pub Series : Type 0
Series = List (Option Decimal)

-- `quantized(value, PRICE_QUANTUM)`
unfoldable pub quantize_price : Decimal → Result Decimal
quantize_price value = Decimal.quantize value 6

abbrev pub closes : List Candle → List Decimal
closes cs = map (λ c. c.close) cs

-- `_require_period`
abbrev pub require_period : ℕ → Result (Unit {0})
require_period period = raise_if (ltb period 1) value_error

-- `sum(values, total)`
abbrev pub sum_of : Decimal → List Decimal → Decimal
sum_of total [] = total
sum_of total (d ∷ ds) = sum_of (Decimal.add total d) ds

-- `for index in range(period, len(values))`: each value is stepped into the average and put out.
unfoldable pub smooth_from :
    (emit : Decimal → Result Decimal)
    → (step : Decimal → Decimal → Decimal) → (current : Decimal) → List Decimal
    → Result Series
smooth_from emit step current [] = ok []
smooth_from emit step current (v ∷ vs) = do
  let next = step current v
  out ← emit next
  rest ← smooth_from emit step next vs
  ok (some out ∷ rest)

-- The shape that `ema` and `_wilder` share: `None` until there are `period` values, their mean, then
-- one step for each further value.
unfoldable pub smoothed :
    (emit : Decimal → Result Decimal)
    → (step : Decimal → Decimal → Decimal) → (period : ℕ) → List Decimal
    → Result Series
unfolding smooth_from
smoothed emit step period values =
    if ltb (length values) period then ok (replicate (length values) none) else (do
      let seed = Decimal.quotient (sum_of zero_decimal (take period values)) (from_ℕ period)
      out ← emit seed
      rest ← smooth_from emit step seed (drop period values)
      ok (replicate (period - 1) none ++ some out ∷ rest))

abbrev ema_step : ℕ → Decimal → Decimal → Decimal
ema_step period current value =
    Decimal.add
      (Decimal.mul (Decimal.sub value current) (Decimal.quotient (from_ℕ 2) (from_ℕ (period + 1))))
      current

unfoldable pub ema : List Decimal → (period : ℕ) → Result Series
unfolding smoothed
ema values period = do
  require_period period
  smoothed quantize_price (ema_step period) period values

abbrev wilder_step : ℕ → Decimal → Decimal → Decimal
wilder_step period current value =
    Decimal.quotient (Decimal.add (Decimal.mul current (from_ℕ (period - 1))) value) (from_ℕ period)

-- `_wilder`
unfoldable pub wilder : List Decimal → (period : ℕ) → Result Series
unfolding smoothed
wilder values period = smoothed (λ d. ok d) (wilder_step period) period values

-- `true_ranges`, after the first candle.
unfoldable pub ranges_from : (previous : Decimal) → List Candle → List Decimal
ranges_from previous [] = []
ranges_from previous (c ∷ cs) =
    Decimal.max (Decimal.max (Decimal.sub c.high c.low) (Decimal.abs (Decimal.sub c.high previous)))
      (Decimal.abs (Decimal.sub c.low previous))
    ∷ ranges_from c.close cs

unfoldable pub true_ranges : List Candle → List Decimal
unfolding ranges_from
true_ranges [] = []
true_ranges (c ∷ cs) = Decimal.sub c.high c.low ∷ ranges_from c.close cs

abbrev quantize_each : (Decimal → Result Decimal) → Option Decimal → Result (Option Decimal)
quantize_each emit none = ok none
quantize_each emit (some d) = emit d >>= λ q. ok (some q)

-- `[f(value) for value in values]`, where `f` can raise.
unfoldable pub each : {A B : Type 0} → (A → Result B) → List A → Result (List B)
each f [] = ok []
each f (x ∷ xs) = do y ← f x; ys ← each f xs; ok (y ∷ ys)

unfoldable pub atr : List Candle → (period : ℕ) → Result Series
unfolding true_ranges wilder each
atr candles period = do
  require_period period
  values ← wilder (true_ranges candles) period
  each (quantize_each quantize_price) values

-- `rolling_average_volume` at one index: the mean of the `lookback` volumes before it.
abbrev pub volume_before : List Decimal → (lookback index : ℕ) → Result (Option Decimal)
volume_before volumes lookback index =
    if ltb index lookback
    then ok none
    else (quantize_price (
          Decimal.quotient (sum_of zero_decimal (take lookback (drop (index - lookback) volumes)))
            (from_ℕ lookback))
        >>= λ mean. ok (some mean))

unfoldable pub rolling_average_volume : List Candle → (lookback : ℕ) → Result Series
unfolding each
rolling_average_volume candles lookback = do
  require_period lookback
  each (volume_before (map (λ c. c.volume) candles) lookback) (range 0 (length candles))

-- `distance_pct`
unfoldable pub distance_pct :
    (price : Decimal) → (reference : Option Decimal) → Result (Option Decimal)
distance_pct price none = ok none
distance_pct price (some reference) =
    if Decimal.is_zero reference
    then ok none
    else (quantize_ratio
          (Decimal.mul (Decimal.quotient (Decimal.sub price reference) reference) (from_ℕ 100))
        >>= λ d. ok (some d))

abbrev flat_option : Option (Option Decimal) → Option Decimal
flat_option none = none
flat_option (some o) = o

-- `value_at`, at an index that is not negative.
abbrev pub value_at : Series → ℕ → Option Decimal
value_at series index = flat_option (get_elem? series index)

abbrev change_pct : Option Decimal → Option Decimal → Result (Option Decimal)
change_pct none earlier = ok none
change_pct (some current) earlier = distance_pct current earlier

-- `slope_at`; an index before the series has no value.
unfoldable pub slope_at : Series → (index span : ℕ) → Result (Option Decimal)
unfolding distance_pct
slope_at series index span = do
  raise_if (ltb span 1) value_error
  let earlier = if ltb index span then none else value_at series (index - span)
  change_pct (value_at series index) earlier
