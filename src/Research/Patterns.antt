-- ===== src/Research/Patterns.antt =====
-- src/virtual_orders/research/candlesticks.py: the detectors, one function for each.
use research_platform.Prelude.{
  Bool, true, false, ◌&&◌, Option, none, some, String, List, [], ◌∷◌, ◌++◌, if◌then◌else◌,
}
use research_platform.Result.{Result, ok, ◌>>=◌}
use research_platform.Decimal
use research_platform.Decimal.{Decimal, zero_decimal, from_ℕ, is_zero}
use research_platform.Domain.Values.{Value, Fields, field, end, optional}
use research_platform.Research.Candle.{
  Candle, Geometry, CandleDirection, candle_direction_name, PatternDirection, TrendState,
  PriorTrend, Pattern, PatternDetection,
}
use research_platform.Research.Geometry.{
  PatternThresholds, geometry, ratio, fraction_below, fraction_above, mean, detection,
}

abbrev pub Found : Type 0
Found = Result (List PatternDetection)

abbrev pub one_found : Result PatternDetection → Found
one_found r = r >>= λ d. ok (d ∷ [])

-- `found.append(…)` or `found += …`, in the order of evaluation.
abbrev pub and_then : Found → Found → Found
and_then first second = first >>= λ ds. second >>= λ es. ok (ds ++ es)

abbrev pub when : Bool → Found → Found
when test found = if test then found else ok []

abbrev pub at_most : Decimal → Decimal → Bool
at_most a b = Decimal.le a b

-- The three ratios of a candle, if its range is not zero.
abbrev pub Ratios : Type 0
Ratios = Decimal × Decimal × Decimal

abbrev pub ratios_of : Option Decimal → Option Decimal → Option Decimal → Option Ratios
ratios_of (some body) (some upper) (some lower) = some (body, upper, lower)
ratios_of _ _ _ = none

abbrev pub shape_ratios : Geometry → Option Ratios
shape_ratios g = ratios_of g.body_ratio g.upper_wick_ratio g.lower_wick_ratio

abbrev ratio_evidence : Ratios → Geometry → Fields → Fields
ratio_evidence (body, upper, lower) g rest = field "body_ratio" (Value.decimal body) (
    field "upper_wick_ratio" (Value.decimal upper) (
      field "lower_wick_ratio" (Value.decimal lower)
        (field "close_location" (optional Value.decimal g.close_location) rest)))

-- A dragonfly or a gravestone, where the wicks fit.
abbrev doji_variant :
    Pattern
    → PatternDirection
    → Candle
    → PriorTrend
    → PatternThresholds
    → Fields
    → Decimal
    → (short long : Decimal) → Found
doji_variant pattern direction candle prior limits evidence tightness short long =
    when (at_most short limits.doji_wick_ratio_max && at_most limits.doji_wick_ratio_min long) (do
      above ← fraction_above long limits.doji_wick_ratio_min (from_ℕ 1)
      score ← mean (tightness ∷ above ∷ [])
      one_found (detection pattern direction candle candle 1 score prior evidence))

abbrev doji_of : Option Ratios → Candle → Geometry → PriorTrend → PatternThresholds → Found
doji_of none candle shape prior limits = ok []
doji_of (some (body, upper, lower)) candle shape prior limits =
    when (at_most body limits.doji_body_ratio) (do
      let evidence = ratio_evidence (body, upper, lower) shape end
      tightness ← fraction_below body limits.doji_body_ratio
      and_then
          (one_found (
            detection Pattern.doji PatternDirection.neutral candle candle 1 tightness prior
              evidence))
          (and_then
            (doji_variant Pattern.dragonfly_doji PatternDirection.bullish candle prior limits
              evidence tightness upper lower)
            (doji_variant Pattern.gravestone_doji PatternDirection.bearish candle prior limits
              evidence tightness lower upper)))

-- `_doji_family`
unfoldable pub doji_family : Candle → Geometry → PriorTrend → PatternThresholds → Found
doji_family candle shape prior limits = doji_of (shape_ratios shape) candle shape prior limits

-- One turn of the loop of `_long_wick_family`.
abbrev long_wick :
    Pattern
    → PatternDirection
    → Candle
    → Geometry
    → PriorTrend
    → PatternThresholds
    → Ratios
    → (long short wick : Decimal) → Found
long_wick pattern direction candle shape prior limits (body, upper, lower) long short wick =
    when
      (at_most limits.hammer_wick_ratio_min long
        && (at_most short limits.hammer_opposite_wick_ratio_max
            && at_most (Decimal.mul limits.hammer_wick_to_body shape.body) wick))
      (do
        above ← fraction_above long limits.hammer_wick_ratio_min (from_ℕ 1)
        small ← fraction_below body limits.hammer_body_ratio_max
        opposite ← fraction_below short limits.hammer_opposite_wick_ratio_max
        score ← mean (above ∷ small ∷ opposite ∷ [])
        multiple ← ratio wick shape.body
        one_found (
            detection pattern direction candle candle 1 score prior (
              ratio_evidence (body, upper, lower) shape
                (field "wick_to_body_multiple" (optional Value.decimal multiple) end))))

-- The names of the two geometries after a decline or an advance; none after anything else.
abbrev long_wick_names : TrendState → Option (Pattern × Pattern × PatternDirection)
long_wick_names TrendState.down =
    some (Pattern.hammer, Pattern.inverted_hammer, PatternDirection.bullish)
long_wick_names TrendState.up =
    some (Pattern.hanging_man, Pattern.shooting_star, PatternDirection.bearish)
long_wick_names _ = none

abbrev long_wick_named :
    Option (Pattern × Pattern × PatternDirection)
    → Ratios
    → Candle
    → Geometry
    → PriorTrend
    → PatternThresholds
    → Found
long_wick_named none ratios candle shape prior limits = ok []
long_wick_named (some (low_name, high_name, direction)) (body, upper, lower) candle shape prior
      limits =
    and_then
      (long_wick low_name direction candle shape prior limits (body, upper, lower) lower upper
        shape.lower_wick)
      (long_wick high_name direction candle shape prior limits (body, upper, lower) upper lower
        shape.upper_wick)

abbrev long_wick_of : Option Ratios → Candle → Geometry → PriorTrend → PatternThresholds → Found
long_wick_of none candle shape prior limits = ok []
long_wick_of (some (body, upper, lower)) candle shape prior limits =
    when (at_most body limits.hammer_body_ratio_max && prior.available)
      (long_wick_named (long_wick_names prior.state) (body, upper, lower) candle shape prior limits)

-- `_long_wick_family`
unfoldable pub long_wick_family : Candle → Geometry → PriorTrend → PatternThresholds → Found
long_wick_family candle shape prior limits =
    long_wick_of (shape_ratios shape) candle shape prior limits

abbrev pub is_up : CandleDirection → Bool
is_up CandleDirection.bullish = true
is_up _ = false

abbrev pub is_down : CandleDirection → Bool
is_down CandleDirection.bearish = true
is_down _ = false

abbrev direction_value : CandleDirection → Value
direction_value d = Value.enum (candle_direction_name d)

-- The two patterns of `_engulfing`, given a ratio above the minimum.
abbrev engulfing_pair :
    Candle → Candle → Geometry → Geometry → PriorTrend → PatternThresholds → Decimal → Found
engulfing_pair previous current before now prior limits engulf = do
  let evidence = λ (key : String). field "previous_direction" (direction_value before.direction) (
      field "body_ratio" (optional Value.decimal now.body_ratio) (
        field "engulf_ratio" (Value.decimal engulf) (
          field "previous_open" (Value.decimal previous.open_price) (
            field "previous_close" (Value.decimal previous.close)
              (field key (Value.flag true) end)))))
  score ← fraction_above (Decimal.min engulf (from_ℕ 2)) limits.engulf_body_ratio_min (from_ℕ 2)
  if is_down before.direction
        && is_up now.direction
        && (Decimal.lt current.open_price previous.close
            && Decimal.lt previous.open_price current.close)
      then one_found (
          detection Pattern.bullish_engulfing PatternDirection.bullish previous current 2 score
            prior (evidence "close_above_previous_open"))
      else when
          (is_up before.direction
            && is_down now.direction
            && (Decimal.lt previous.close current.open_price
                && Decimal.lt current.close previous.open_price))
          (one_found (
            detection Pattern.bearish_engulfing PatternDirection.bearish previous current 2 score
              prior (evidence "close_below_previous_open")))

abbrev engulfing_ratio :
    Option Decimal → Candle → Candle → Geometry → Geometry → PriorTrend → PatternThresholds → Found
engulfing_ratio none previous current before now prior limits = ok []
engulfing_ratio (some engulf) previous current before now prior limits =
    when (Decimal.lt limits.engulf_body_ratio_min engulf)
      (engulfing_pair previous current before now prior limits engulf)

-- `_engulfing`
unfoldable pub engulfing : (previous current : Candle) → PriorTrend → PatternThresholds → Found
engulfing previous current prior limits = do
  before ← geometry previous
  now ← geometry current
  if is_zero before.body
      then ok []
      else (ratio now.body before.body >>= λ engulf.
          engulfing_ratio engulf previous current before now prior limits)

-- A pattern of `_piercing`, where the penetration is deep enough.
abbrev penetrating :
    Option Decimal
    → Pattern
    → PatternDirection
    → Candle
    → Candle
    → Geometry
    → PriorTrend
    → PatternThresholds
    → (opened closed : String) → Found
penetrating none pattern direction previous current before prior limits opened closed = ok []
penetrating (some depth) pattern direction previous current before prior limits opened closed =
    when (at_most limits.piercing_penetration_min depth) (do
      score ← fraction_above depth limits.piercing_penetration_min (from_ℕ 1)
      one_found (
          detection pattern direction previous current 2 score prior (
            field "previous_direction" (direction_value before.direction) (
              field "penetration" (Value.decimal depth)
                (field opened (Value.flag true) (field closed (Value.flag true) end))))))

-- `_piercing`: the two patterns exclude each other.
unfoldable pub piercing : (previous current : Candle) → PriorTrend → PatternThresholds → Found
piercing previous current prior limits = do
  before ← geometry previous
  now ← geometry current
  if is_zero before.body
      then ok []
      else if is_down before.direction
          && is_up now.direction
          && (Decimal.lt current.open_price previous.close
              && Decimal.lt current.close previous.open_price)
      then (ratio (Decimal.sub current.close previous.close) before.body >>= λ depth.
          penetrating depth Pattern.piercing_line PatternDirection.bullish previous current before
            prior limits "opened_below_previous_close" "closed_below_previous_open")
      else when
          (is_up before.direction
            && is_down now.direction
            && (Decimal.lt previous.close current.open_price
                && Decimal.lt previous.open_price current.close))
          (ratio (Decimal.sub previous.close current.close) before.body >>= λ depth.
            penetrating depth Pattern.dark_cloud_cover PatternDirection.bearish previous current
              before prior limits "opened_above_previous_close" "closed_above_previous_open")
