-- ===== src/Research/Geometry.antt =====
-- src/virtual_orders/research/candlesticks.py: the geometry of a candle, scores and thresholds.
use research_platform.Prelude.{
  ℕ, Bool, true, false, not, Option, none, some, List, [], ◌∷◌, if◌then◌else◌, length, any,
}
use research_platform.Prelude.Int.{pos, negsuc}
use research_platform.Result.{Result, ok, value_error, ◌>>=◌, ◌>>◌, raise_if}
use research_platform.Decimal
use research_platform.Decimal.{Decimal, zero_decimal, from_ℕ, is_zero}
use research_platform.Domain.Values.{Value, Fields, field, end}
use research_platform.Domain.Signal.{Bar}
use research_platform.Fills.Creation.{extend}
use research_platform.Research.Candle.{
  Candle, Geometry, PatternDirection, TrendState, PriorTrend, Pattern, PatternDetection,
  quantize_ratio, quantize_score, price_direction, prior_evidence, check_detection,
}

pub record PatternThresholds : Type 0 where
  pub doji_body_ratio : Decimal
  pub doji_wick_ratio_max : Decimal
  pub doji_wick_ratio_min : Decimal
  pub hammer_wick_ratio_min : Decimal
  pub hammer_opposite_wick_ratio_max : Decimal
  pub hammer_body_ratio_max : Decimal
  pub hammer_wick_to_body : Decimal
  pub engulf_body_ratio_min : Decimal
  pub piercing_penetration_min : Decimal
  pub star_body_ratio_max : Decimal
  pub star_long_body_ratio_min : Decimal
  pub soldiers_body_ratio_min : Decimal
  pub soldiers_opposite_wick_ratio_max : Decimal

abbrev not_positive : Decimal → Bool
not_positive d = Decimal.le d zero_decimal

-- `PatternThresholds.__post_init__`
unfoldable pub check_thresholds : PatternThresholds → Result PatternThresholds
check_thresholds t = do
  raise_if
      (any not_positive (
        t.doji_body_ratio ∷ t.doji_wick_ratio_max ∷ t.doji_wick_ratio_min ∷ t.hammer_wick_ratio_min
        ∷ t.hammer_opposite_wick_ratio_max ∷ t.hammer_body_ratio_max ∷ t.hammer_wick_to_body
        ∷ t.engulf_body_ratio_min ∷ t.piercing_penetration_min ∷ t.star_body_ratio_max
        ∷ t.star_long_body_ratio_min ∷ t.soldiers_body_ratio_min
        ∷ t.soldiers_opposite_wick_ratio_max ∷ []))
      value_error
  ok t

-- `Decimal("0.mm")`, in hundredths.
abbrev hundredths : ℕ → Decimal
hundredths n = record { int = pos n; exp = negsuc 1 }

-- `DEFAULT_THRESHOLDS`
abbrev pub default_thresholds : PatternThresholds
default_thresholds = record {
  doji_body_ratio = hundredths 5;
  doji_wick_ratio_max = hundredths 10;
  doji_wick_ratio_min = hundredths 60;
  hammer_wick_ratio_min = hundredths 50;
  hammer_opposite_wick_ratio_max = hundredths 15;
  hammer_body_ratio_max = hundredths 35;
  hammer_wick_to_body = from_ℕ 2;
  engulf_body_ratio_min = from_ℕ 1;
  piercing_penetration_min = record { int = pos 5; exp = negsuc 0 };
  star_body_ratio_max = hundredths 35;
  star_long_body_ratio_min = hundredths 50;
  soldiers_body_ratio_min = hundredths 50;
  soldiers_opposite_wick_ratio_max = hundredths 25;
}

-- `_ratio`
unfoldable pub ratio : Decimal → Decimal → Result (Option Decimal)
ratio numerator denominator =
    if is_zero denominator
    then ok none
    else Decimal.div numerator denominator >>= λ q. quantize_ratio q >>= λ r. ok (some r)

unfoldable pub measure : (open_price high low close : Decimal) → Result Geometry
measure open_price high low close = do
  let span = Decimal.sub high low
  let body = Decimal.abs (Decimal.sub close open_price)
  let upper = Decimal.sub high (Decimal.max open_price close)
  let lower = Decimal.sub (Decimal.min open_price close) low
  body_ratio ← ratio body span
  upper_ratio ← ratio upper span
  lower_ratio ← ratio lower span
  location ← ratio (Decimal.sub close low) span
  ok (record {
    range = span;
    body = body;
    upper_wick = upper;
    lower_wick = lower;
    body_ratio = body_ratio;
    upper_wick_ratio = upper_ratio;
    lower_wick_ratio = lower_ratio;
    close_location = location;
    direction = price_direction open_price close;
    zero_range = is_zero span;
  })

unfoldable pub geometry : Candle → Result Geometry
geometry c = measure c.open_price c.high c.low c.close

unfoldable pub bar_geometry : Bar → Result Geometry
bar_geometry b = measure b.open_price b.high b.low b.close

-- `_fraction_below`
unfoldable pub fraction_below : (value threshold : Decimal) → Result Decimal
fraction_below value threshold =
    Decimal.div (Decimal.sub threshold value) threshold >>= quantize_score

-- `_fraction_above`
unfoldable pub fraction_above : (value threshold ceiling : Decimal) → Result Decimal
fraction_above value threshold ceiling = do
  raise_if (Decimal.le ceiling threshold) value_error
  q ← Decimal.div (Decimal.sub value threshold) (Decimal.sub ceiling threshold)
  quantize_score q

abbrev sum_from : Decimal → List Decimal → Decimal
sum_from total [] = total
sum_from total (d ∷ ds) = sum_from (Decimal.add total d) ds

-- `_mean`
unfoldable pub mean : List Decimal → Result Decimal
mean values = Decimal.div (sum_from zero_decimal values) (from_ℕ (length values)) >>= quantize_score

-- `pattern in CONTINUATION_PATTERNS`
abbrev pub continuation : Pattern → Bool
continuation Pattern.three_white_soldiers = true
continuation Pattern.three_black_crows = true
continuation _ = false

abbrev is_bullish : PatternDirection → Bool
is_bullish PatternDirection.bullish = true
is_bullish _ = false

abbrev same_flag : Bool → Bool → Bool
same_flag true b = b
same_flag false b = not b

-- The score of an available trend that rises or falls.
abbrev pub trend_score : Pattern → PatternDirection → PriorTrend → (rising : Bool) → Result Decimal
trend_score pattern direction prior rising =
    let agrees = same_flag rising (is_bullish direction) in
    let wanted = if continuation pattern then agrees else not agrees in
    quantize_score (
      if wanted
      then Decimal.add (record { int = pos 5; exp = negsuc 0 })
          (Decimal.quotient prior.strength (from_ℕ 2))
      else Decimal.quotient (Decimal.sub (from_ℕ 1) prior.strength) (from_ℕ 2))

abbrev pub state_score : Pattern → PatternDirection → PriorTrend → TrendState → Result Decimal
state_score pattern direction prior TrendState.unknown = quantize_score zero_decimal
state_score pattern direction prior TrendState.sideways =
    quantize_score (record { int = pos 4; exp = negsuc 0 })
state_score pattern direction prior TrendState.up = trend_score pattern direction prior true
state_score pattern direction prior TrendState.down = trend_score pattern direction prior false

unfoldable pub context_score : Pattern → PatternDirection → PriorTrend → Result Decimal
context_score pattern direction prior =
    if not prior.available
    then quantize_score zero_decimal
    else state_score pattern direction prior prior.state

-- `GEOMETRY_WEIGHT` and `CONTEXT_WEIGHT`
abbrev pub geometry_weight : Decimal
geometry_weight = record { int = pos 6; exp = negsuc 0 }

abbrev pub context_weight : Decimal
context_weight = record { int = pos 4; exp = negsuc 0 }

-- `_overall`
unfoldable pub overall : (geometry_score context : Decimal) → Result Decimal
overall geometry_score context =
    quantize_score (
      Decimal.add (Decimal.mul geometry_score geometry_weight) (Decimal.mul context context_weight))

-- `_detection`, over a window of `count` candles from `first` to `last`. A key of the trend's
-- evidence is none of the pattern's.
unfoldable pub detection :
    Pattern
    → PatternDirection
    → (first last : Candle) → (count : ℕ) → (geometry_score : Decimal) → PriorTrend
    → Fields
    → Result PatternDetection
detection pattern direction first last count geometry_score prior evidence = do
  context ← context_score pattern direction prior
  total ← overall geometry_score context
  check_detection (record {
    pattern = pattern;
    direction = direction;
    timeframe = last.timeframe;
    start_ts = first.ts;
    end_ts = last.end_ts;
    candles = count;
    geometry_score = geometry_score;
    context_score = context;
    overall_score = total;
    evidence = extend evidence (
        prior_evidence prior (
          field "weights"
            (Value.dict (
              field "geometry" (Value.decimal geometry_weight)
                (field "context" (Value.decimal context_weight) end)))
            end));
  })
