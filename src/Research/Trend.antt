-- ===== src/Research/Trend.antt =====
-- src/virtual_orders/research/market_structure.py: the trend before a pattern.
use research_platform.Prelude.{
  ℕ, ◌-◌, true, false, ◌||◌, List, [], ◌∷◌, ltb, if◌then◌else◌, length, take, drop, last_or,
}
use research_platform.Prelude.Int.{pos, negsuc}
use research_platform.Result.{Result, ok, value_error, ◌>>=◌, ◌>>◌, raise_if}
use research_platform.Decimal
use research_platform.Decimal.{Decimal, zero_decimal, from_ℕ}
use research_platform.Research.Candle.{Candle, PriorTrend, TrendState, check_prior, quantize_ratio}

-- `TREND_SIDEWAYS_PCT` is 0.5, `TREND_STRONG_PCT` 2.0.
abbrev pub sideways_pct : Decimal
sideways_pct = record { int = pos 5; exp = negsuc 0 }

-- `_trend_from_move`
unfoldable pub trend_from_move : Decimal → Result (TrendState × Decimal)
trend_from_move change = do
  let magnitude = Decimal.abs change
  strength ← quantize_ratio (Decimal.min (Decimal.quotient magnitude (from_ℕ 2)) (from_ℕ 1))
  ok (
    if Decimal.lt magnitude sideways_pct
        then TrendState.sideways
        else if Decimal.lt zero_decimal change
        then TrendState.up
        else TrendState.down,
    strength,
  )

abbrev unavailable : ℕ → PriorTrend
unavailable lookback = record {
  state = TrendState.unknown;
  strength = zero_decimal;
  lookback = lookback;
  available = false;
}

abbrev moved : ℕ → (first last : Decimal) → Result PriorTrend
moved lookback first last =
    if Decimal.is_zero first then check_prior (unavailable lookback) else (do
      change ←
          quantize_ratio
            (Decimal.mul (Decimal.quotient (Decimal.sub last first) first) (from_ℕ 100))
      (state, strength) ← trend_from_move change
      check_prior
          (record { state = state; strength = strength; lookback = lookback; available = true }))

abbrev over_window : ℕ → List Candle → Result PriorTrend
over_window lookback [] = check_prior (unavailable lookback)
over_window lookback (c ∷ cs) = moved lookback c.close (last_or c cs).close

-- `prior_trend`, where the pattern's first candle is not before the series.
unfoldable pub prior_trend : List Candle → (before_index lookback : ℕ) → Result PriorTrend
unfolding check_prior
prior_trend cs before_index lookback = do
  raise_if (ltb lookback 1) value_error
  if ltb before_index lookback || ltb (length cs) before_index
      then check_prior (unavailable lookback)
      else over_window lookback (take lookback (drop (before_index - lookback) cs))
