-- ===== src/Research/Detect.antt =====
-- src/virtual_orders/research/candlesticks.py: the patterns of three candles, and `detect_at`.
use research_platform.Prelude.{
  ℕ, zero, suc, Bool, true, false, not, ◌&&◌, Option, none, some, List, [], ◌∷◌, if◌then◌else◌, any,
  get_elem?,
}
use research_platform.Prelude.Int.{ℤ, pos, negsuc}
use research_platform.Prelude.Sort.{sort_by}
use research_platform.Result.{
  Result, ok, err, value_error, index_error, ◌>>=◌, ◌>>◌, raise_if, or_raise,
}
use research_platform.Decimal
use research_platform.Decimal.{Decimal, zero_decimal, from_ℕ}
use research_platform.Domain.Values.{Value, nil, cons, Fields, field, end}
use research_platform.Research.Candle.{
  Candle, Geometry, PatternDirection, PriorTrend, unknown_prior, Pattern, PatternDetection,
  Timeframe, same_timeframe,
}
use research_platform.Research.Geometry.{
  PatternThresholds, geometry, fraction_below, fraction_above, mean, detection,
}
use research_platform.Research.Patterns.{
  Found, one_found, and_then, when, is_up, is_down, at_most, doji_family, long_wick_family,
  engulfing, piercing,
}

-- The ratios of three bodies, if none has a zero range.
abbrev bodies_of :
    Option Decimal → Option Decimal → Option Decimal → Option (Decimal × Decimal × Decimal)
bodies_of (some a) (some b) (some c) = some (a, b, c)
bodies_of _ _ _ = none

-- The score of the last body, `ZERO` where it is not long.
abbrev last_body_score : Decimal → PatternThresholds → Result Decimal
last_body_score third limits =
    if at_most limits.star_long_body_ratio_min third
    then fraction_above third limits.star_long_body_ratio_min (from_ℕ 1)
    else ok zero_decimal

abbrev star_pair :
    Candle
    → Candle
    → Candle
    → Geometry
    → Geometry
    → PriorTrend
    → PatternThresholds
    → Decimal × Decimal × Decimal
    → Found
star_pair first star last one three prior limits (a, b, c) = do
  let midpoint = Decimal.quotient (Decimal.add first.open_price first.close) (from_ℕ 2)
  small ← fraction_below b limits.star_body_ratio_max
  long ← fraction_above a limits.star_long_body_ratio_min (from_ℕ 1)
  final ← last_body_score c limits
  score ← mean (small ∷ long ∷ final ∷ [])
  let evidence = λ (rest : Fields). field "first_body_ratio" (Value.decimal a) (
      field "star_body_ratio" (Value.decimal b) (
        field "last_body_ratio" (Value.decimal c)
          (field "first_body_midpoint" (Value.decimal midpoint) rest)))
  if is_down one.direction
        && is_up three.direction
        && (Decimal.lt (Decimal.max star.open_price star.close) first.close
            && Decimal.lt midpoint last.close)
      then one_found (
          detection Pattern.morning_star PatternDirection.bullish first last 3 score prior (
            evidence (
              field "star_below_first_body" (Value.flag true)
                (field "closed_above_midpoint" (Value.flag true) end))))
      else when
          (is_up one.direction
            && is_down three.direction
            && (Decimal.lt first.close (Decimal.min star.open_price star.close)
                && Decimal.lt last.close midpoint))
          (one_found (
            detection Pattern.evening_star PatternDirection.bearish first last 3 score prior (
              evidence (
                field "star_above_first_body" (Value.flag true)
                  (field "closed_below_midpoint" (Value.flag true) end)))))

abbrev star_of :
    Option (Decimal × Decimal × Decimal)
    → Candle
    → Candle
    → Candle
    → Geometry
    → Geometry
    → PriorTrend
    → PatternThresholds
    → Found
star_of none first star last one three prior limits = ok []
star_of (some (a, b, c)) first star last one three prior limits =
    when (at_most limits.star_long_body_ratio_min a && at_most b limits.star_body_ratio_max)
      (star_pair first star last one three prior limits (a, b, c))

-- `_star`
unfoldable pub star_family : (first star last : Candle) → PriorTrend → PatternThresholds → Found
star_family first star last prior limits = do
  one ← geometry first
  middle ← geometry star
  three ← geometry last
  star_of (bodies_of one.body_ratio middle.body_ratio three.body_ratio) first star last one three
      prior limits

-- Each closes beyond the one before, and opens inside its body.
abbrev marches : (rising : Bool) → Candle → Candle → Bool
marches rising earlier later =
    (if rising then Decimal.lt earlier.close later.close else Decimal.lt later.close earlier.close)
    && (at_most (Decimal.min earlier.open_price earlier.close) later.open_price
        && at_most later.open_price (Decimal.max earlier.open_price earlier.close))

abbrev small_wick : PatternThresholds → Option Decimal → Bool
small_wick limits none = false
small_wick limits (some wick) = at_most wick limits.soldiers_opposite_wick_ratio_max

abbrev wick_of : Option Decimal → Value
wick_of none = Value.null
wick_of (some wick) = Value.decimal wick

abbrev three_items : Value → Value → Value → Value
three_items a b c = Value.items (cons a (cons b (cons c nil)))

-- One turn of the loop of `_marching` that finds its pattern.
abbrev marching_found :
    Pattern
    → PatternDirection
    → Candle
    → Candle
    → PriorTrend
    → PatternThresholds
    → Decimal × Decimal × Decimal
    → (wicks : Value) → Found
marching_found pattern direction first third prior limits (a, b, c) wicks = do
  x ← fraction_above a limits.soldiers_body_ratio_min (from_ℕ 1)
  y ← fraction_above b limits.soldiers_body_ratio_min (from_ℕ 1)
  z ← fraction_above c limits.soldiers_body_ratio_min (from_ℕ 1)
  score ← mean (x ∷ y ∷ z ∷ [])
  one_found (
      detection pattern direction first third 3 score prior (
        field "body_ratios" (three_items (Value.decimal a) (Value.decimal b) (Value.decimal c)) (
          field "closes_march" (Value.flag true) (
            field "opens_inside_previous_body" (Value.flag true)
              (field "opposite_wick_ratios" wicks end)))))

abbrev marching_of :
    Option (Decimal × Decimal × Decimal)
    → Candle
    → Candle
    → Candle
    → Geometry
    → Geometry
    → Geometry
    → PriorTrend
    → PatternThresholds
    → Found
marching_of none first second third g h k prior limits = ok []
marching_of (some (a, b, c)) first second third g h k prior limits =
    when
      (at_most limits.soldiers_body_ratio_min a
        && (at_most limits.soldiers_body_ratio_min b && at_most limits.soldiers_body_ratio_min c))
      (if is_up g.direction
          && (is_up h.direction && is_up k.direction)
          && (small_wick limits g.upper_wick_ratio
              && (small_wick limits h.upper_wick_ratio && small_wick limits k.upper_wick_ratio))
          && (marches true first second && marches true second third)
        then marching_found Pattern.three_white_soldiers PatternDirection.bullish first third prior
            limits (a, b, c)
            (three_items (wick_of g.upper_wick_ratio) (wick_of h.upper_wick_ratio)
              (wick_of k.upper_wick_ratio))
        else when
            (is_down g.direction
              && (is_down h.direction && is_down k.direction)
              && (small_wick limits g.lower_wick_ratio
                  && (small_wick limits h.lower_wick_ratio && small_wick limits k.lower_wick_ratio))
              && (marches false first second && marches false second third))
            (marching_found Pattern.three_black_crows PatternDirection.bearish first third prior
              limits (a, b, c)
              (three_items (wick_of g.lower_wick_ratio) (wick_of h.lower_wick_ratio)
                (wick_of k.lower_wick_ratio))))

-- `_marching`
unfoldable pub marching : (first second third : Candle) → PriorTrend → PatternThresholds → Found
marching first second third prior limits = do
  g ← geometry first
  h ← geometry second
  k ← geometry third
  marching_of (bodies_of g.body_ratio h.body_ratio k.body_ratio) first second third g h k prior
      limits

-- `PriorContext`, or one `PriorTrend` for every length.
pub data Prior : Type 0 where
  by_length : (ℕ → Option PriorTrend) → Prior
  fixed : PriorTrend → Prior

abbrev or_unknown : Option PriorTrend → PriorTrend
or_unknown none = unknown_prior
or_unknown (some p) = p

-- `PriorContext.for_length`, for the lengths 1, 2 and 3.
abbrev pub for_length : Prior → ℕ → PriorTrend
for_length (Prior.by_length table) n = or_unknown (table n)
for_length (Prior.fixed p) n = p

-- The names in alphabetical order.
abbrev pub pattern_rank : Pattern → ℕ
pattern_rank Pattern.bearish_engulfing = 0
pattern_rank Pattern.bullish_engulfing = 1
pattern_rank Pattern.dark_cloud_cover = 2
pattern_rank Pattern.doji = 3
pattern_rank Pattern.dragonfly_doji = 4
pattern_rank Pattern.evening_star = 5
pattern_rank Pattern.gravestone_doji = 6
pattern_rank Pattern.hammer = 7
pattern_rank Pattern.hanging_man = 8
pattern_rank Pattern.inverted_hammer = 9
pattern_rank Pattern.morning_star = 10
pattern_rank Pattern.piercing_line = 11
pattern_rank Pattern.shooting_star = 12
pattern_rank Pattern.three_black_crows = 13
pattern_rank Pattern.three_white_soldiers = 14

abbrev pub detection_key : PatternDetection → ℕ
detection_key d = pattern_rank d.pattern

-- `any(candle.timeframe is not current.timeframe for candle in candles)`
abbrev pub mixed : Timeframe → List Candle → Bool
mixed t cs = any (λ c. not (same_timeframe c.timeframe t)) cs

-- The patterns of two candles, if there is one before.
abbrev pub pairs : Option Candle → Candle → Prior → PatternThresholds → Found
pairs none current prior limits = ok []
pairs (some previous) current prior limits =
    and_then (engulfing previous current (for_length prior 2) limits)
      (piercing previous current (for_length prior 2) limits)

-- The patterns of three candles, if there are two before.
abbrev pub triples : Option Candle → Option Candle → Candle → Prior → PatternThresholds → Found
triples (some first) (some star) current prior limits =
    and_then (star_family first star current (for_length prior 3) limits)
      (marching first star current (for_length prior 3) limits)
triples _ _ current prior limits = ok []

-- The candle `back + 1` places before the index.
abbrev pub candle_before : List Candle → (index back : ℕ) → Option Candle
candle_before cs zero back = none
candle_before cs (suc i) zero = get_elem? cs i
candle_before cs (suc i) (suc back) = candle_before cs i back

-- From the timeframe check on, given the two candles before.
abbrev pub detect_with :
    (clash : Bool) → (previous first : Option Candle) → Prior → PatternThresholds → Candle → Found
detect_with clash previous first prior limits current = do
  raise_if clash value_error
  shape ← geometry current
  found ← and_then (doji_family current shape (for_length prior 1) limits) (
      and_then (long_wick_family current shape (for_length prior 1) limits) (
        and_then (pairs previous current prior limits)
          (triples first previous current prior limits)))
  ok (sort_by detection_key found)

abbrev pub detect_current : List Candle → ℕ → Prior → PatternThresholds → Candle → Found
detect_current candles i prior limits current =
    detect_with (mixed current.timeframe candles) (candle_before candles i 0)
      (candle_before candles i 1) prior limits current

unfoldable pub detect_at : List Candle → (index : ℤ) → Prior → PatternThresholds → Found
detect_at candles (negsuc _) prior limits = err index_error
detect_at candles (pos i) prior limits =
    or_raise (get_elem? candles i) index_error >>= detect_current candles i prior limits
