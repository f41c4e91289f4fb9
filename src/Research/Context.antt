-- ===== src/Research/Context.antt =====
-- src/virtual_orders/research/market_structure.py: the context at a candle.
pub mod Causal
use research_platform.Prelude.{
  range, ℕ, zero, suc, ◌+◌, ◌-◌, Bool, true, false, not, ◌&&◌, ◌||◌, Option, none, some, String,
  List, [], ◌∷◌, ◌++◌, map, filter, ltb, leb, ◌==◌, if◌then◌else◌, length, take, drop, get_elem?,
  last_or,
}
use research_platform.Prelude.Int.{pos, negsuc}
use research_platform.Result.{
  Result, ok, err, value_error, index_error, ◌>>=◌, ◌>>◌, raise_if, or_raise,
}
use research_platform.Decimal
use research_platform.Decimal.{Decimal, zero_decimal, from_ℕ}
use research_platform.Research.Candle.{Candle, PriorTrend, TrendState, check_prior, quantize_ratio}
use research_platform.Research.Indicators.{Series, value_at, slope_at, distance_pct}
use research_platform.Research.Structure.{BreakoutState, GapState, MarketStructure}
use research_platform.Research.Swings.{SwingPoint, is_high, swing_points, confirmed_swings}
use research_platform.Research.Trend.{sideways_pct}

-- The fields of `IndicatorSeries` that the context reads.
pub record IndicatorSeries : Type 0 where
  pub ema : List (ℕ × Series)
  pub atr : Series

abbrev pub find_ema : ℕ → List (ℕ × Series) → Option Series
find_ema period [] = none
find_ema period (entry ∷ entries) =
    if entry.0 == period then some entry.1 else find_ema period entries

-- `IndicatorSeries.ema_at`; a `KeyError` is an `index_error` here.
unfoldable pub ema_at : IndicatorSeries → (period index : ℕ) → Result (Option Decimal)
ema_at series period index = do
  values ← or_raise (find_ema period series.ema) index_error
  ok (value_at values index)

abbrev trend_of : Option Decimal → Option Decimal → TrendState
trend_of (some fast) (some slow) =
    if Decimal.lt slow fast
    then TrendState.up
    else if Decimal.lt fast slow
    then TrendState.down
    else TrendState.sideways
trend_of _ _ = TrendState.unknown

-- `_ema_trend`
unfoldable pub ema_trend : IndicatorSeries → (index fast slow : ℕ) → Result TrendState
unfolding ema_at
ema_trend series index fast slow = do
  quick ← ema_at series fast index
  late ← ema_at series slow index
  ok (trend_of quick late)

-- `min(prices)` and `max(prices)`, none of no prices.
abbrev least_from : Decimal → List Decimal → Decimal
least_from d [] = d
least_from d (e ∷ es) = least_from (Decimal.min d e) es

abbrev greatest_from : Decimal → List Decimal → Decimal
greatest_from d [] = d
greatest_from d (e ∷ es) = greatest_from (Decimal.max d e) es

abbrev least : List Decimal → Option Decimal
least [] = none
least (d ∷ ds) = some (least_from d ds)

abbrev greatest : List Decimal → Option Decimal
greatest [] = none
greatest (d ∷ ds) = some (greatest_from d ds)

abbrev prices : (SwingPoint → Bool) → List SwingPoint → List Decimal
prices test ps = map (λ p. p.price) (filter test ps)

abbrev last_price : List Decimal → Option Decimal
last_price [] = none
last_price (d ∷ ds) = some (last_or d ds)

abbrev breakout_of : Decimal → Option Decimal → Option Decimal → BreakoutState
breakout_of close (some last_high) (some last_low) =
    if Decimal.lt last_high close
    then BreakoutState.above_resistance
    else if Decimal.lt close last_low
    then BreakoutState.below_support
    else BreakoutState.inside
breakout_of close _ _ = BreakoutState.unknown

-- `GAP_MIN_PCT` is 0.5.
abbrev gap_of : Option Decimal → GapState × Option Decimal
gap_of none = (GapState.unknown, none)
gap_of (some change) =
    if Decimal.le sideways_pct change
    then (GapState.up, some change)
    else if Decimal.le change (Decimal.neg sideways_pct)
    then (GapState.down, some change)
    else (GapState.no_gap, some change)

abbrev pub previous_candle : List Candle → ℕ → Option Candle
previous_candle cs zero = none
previous_candle cs (suc i) = get_elem? cs i

-- `_gap`, given the previous candle.
abbrev gap_after : Option Candle → Candle → Result (GapState × Option Decimal)
gap_after none current = ok (GapState.unknown, none)
gap_after (some previous) current =
    distance_pct current.open_price (some previous.close) >>= λ change. ok (gap_of change)

abbrev relative_atr : Option Decimal → Decimal → Result (Option Decimal)
relative_atr none close = ok none
relative_atr (some value) close =
    if Decimal.is_zero close
    then ok none
    else (quantize_ratio (Decimal.mul (Decimal.quotient value close) (from_ℕ 100)) >>= λ pct.
        ok (some pct))

abbrev ema20_slope : Option Series → ℕ → Result (Option Decimal)
ema20_slope none index = ok none
ema20_slope (some values) index = slope_at values index 5

-- The points that are confirmed at the index and stand before it.
abbrev pub usable_swings : List SwingPoint → ℕ → List SwingPoint
usable_swings points index = filter (λ p. ltb p.index index) (confirmed_swings points index)

-- `structure_at` from its usable points on.
abbrev pub structure_of :
    IndicatorSeries
    → (left right index : ℕ) → (previous : Option Candle) → (current : Candle) → List SwingPoint
    → Result MarketStructure
structure_of series left right index previous current usable = do
  let close = current.close
  let highs = prices (λ p. is_high p.kind) usable
  let lows = prices (λ p. not (is_high p.kind)) usable
  let resistance = least (filter (λ price. Decimal.lt close price) highs)
  let support = greatest (filter (λ price. Decimal.lt price close) lows)
  relative ← relative_atr (value_at series.atr index) close
  (gap, gap_pct) ← gap_after previous current
  short ← ema_trend series index 9 20
  medium ← ema_trend series index 50 200
  slope ← ema20_slope (find_ema 20 series.ema) index
  below ← distance_pct close support
  above ← distance_pct close resistance
  ok (record {
    context_version = "context-v1";
    short_term_trend = short;
    medium_term_trend = medium;
    ema20_slope_pct = slope;
    support = support;
    resistance = resistance;
    support_distance_pct = below;
    resistance_distance_pct = above;
    breakout = breakout_of close (last_price highs) (last_price lows);
    relative_atr_pct = relative;
    gap = gap;
    gap_pct = gap_pct;
    swings_confirmed = length usable;
    swing_left = left;
    swing_right = right;
  })

-- `swing_points(...) if swings is None else swings`
abbrev points_or :
    List Candle → (left right : ℕ) → Option (List SwingPoint) → Result (List SwingPoint)
points_or cs left right none = swing_points cs left right
points_or cs left right (some points) = ok points

unfoldable pub structure_at :
    List Candle
    → (index : ℕ) → IndicatorSeries
    → (swings : Option (List SwingPoint)) → (left right : ℕ) → Result MarketStructure
unfolding swing_points ema_trend
structure_at cs index series swings left right = do
  current ← or_raise (get_elem? cs index) index_error
  points ← points_or cs left right swings
  structure_of series left right index (previous_candle cs index) current
      (usable_swings points index)
