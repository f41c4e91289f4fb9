-- ===== src/Research/Candle.antt =====
-- src/virtual_orders/research/models.py: candles, trends and detections, with the checks of their
-- constructors. Python's enumerations are data types; their texts are the payload's.
use research_platform.Prelude.{
  ℕ, Bool, true, false, ◌&&◌, ◌||◌, Option, none, some, String, ltb, leb, ◌==◌, if◌then◌else◌,
}
use research_platform.Prelude.Int.{pos}
use research_platform.Result.{Result, ok, value_error, ◌>>=◌, ◌>>◌, guard, raise_if}
use research_platform.Decimal
use research_platform.Decimal.{Decimal, zero_decimal, from_ℕ}
use research_platform.Calendar.{Datetime, require_utc, is_whole_minute}
use research_platform.Domain.Values.{Value, Fields, field}

pub data Timeframe : Type 0 where
  m5 m15 m30 h1 h4 d1 : Timeframe

-- `bucket_minutes`
unfoldable pub bucket_minutes : Timeframe → Option ℕ
bucket_minutes Timeframe.m5 = some 5
bucket_minutes Timeframe.m15 = some 15
bucket_minutes Timeframe.m30 = some 30
bucket_minutes Timeframe.h1 = some 60
bucket_minutes Timeframe.h4 = some 240
bucket_minutes Timeframe.d1 = none

abbrev timeframe_code : Timeframe → ℕ
timeframe_code Timeframe.m5 = 0
timeframe_code Timeframe.m15 = 1
timeframe_code Timeframe.m30 = 2
timeframe_code Timeframe.h1 = 3
timeframe_code Timeframe.h4 = 4
timeframe_code Timeframe.d1 = 5

abbrev pub same_timeframe : Timeframe → Timeframe → Bool
same_timeframe s t = timeframe_code s == timeframe_code t

pub data CandleDirection : Type 0 where
  bullish bearish flat : CandleDirection

abbrev pub candle_direction_name : CandleDirection → String
candle_direction_name CandleDirection.bullish = "BULLISH"
candle_direction_name CandleDirection.bearish = "BEARISH"
candle_direction_name CandleDirection.flat = "FLAT"

pub data PatternDirection : Type 0 where
  bullish bearish neutral : PatternDirection

pub data TrendState : Type 0 where
  up down sideways unknown : TrendState

abbrev pub trend_name : TrendState → String
trend_name TrendState.up = "UP"
trend_name TrendState.down = "DOWN"
trend_name TrendState.sideways = "SIDEWAYS"
trend_name TrendState.unknown = "UNKNOWN"

-- `quantize_ratio`; a zero has no sign here.
unfoldable pub quantize_ratio : Decimal → Result Decimal
quantize_ratio value = Decimal.quantize value 4

-- `quantize_score`
unfoldable pub quantize_score : Decimal → Result Decimal
quantize_score value = Decimal.quantize (Decimal.min (Decimal.max value zero_decimal) (from_ℕ 1)) 4

-- `_require_aware_minute`
unfoldable pub require_minute : Datetime → Result ℕ
unfolding require_utc
require_minute at = do t ← require_utc at; guard (is_whole_minute t) value_error; ok t

pub record Candle : Type 0 where
  pub timeframe : Timeframe
  pub ts : ℕ
  pub end_ts : ℕ
  pub session_day : ℕ
  pub open_price : Decimal
  pub high : Decimal
  pub low : Decimal
  pub close : Decimal
  pub volume : Decimal
  pub minutes_expected : ℕ
  pub minutes_present : ℕ
  pub truncated : Bool

-- `Candle.__post_init__`, once both instants are aware whole minutes.
unfoldable pub check_candle : Candle → Result Candle
check_candle c = do
  raise_if (ltb c.end_ts c.ts) value_error
  raise_if
      (Decimal.lt (Decimal.min c.open_price c.close) c.low
        || Decimal.lt c.high (Decimal.max c.open_price c.close))
      value_error
  raise_if (ltb c.minutes_expected 1) value_error
  guard (leb 1 c.minutes_present && leb c.minutes_present c.minutes_expected) value_error
  ok c

-- The property `complete`.
abbrev pub complete : Candle → Bool
complete c = c.minutes_present == c.minutes_expected

abbrev pub price_direction : (open_price close : Decimal) → CandleDirection
price_direction open_price close =
    if Decimal.lt open_price close
    then CandleDirection.bullish
    else if Decimal.lt close open_price
    then CandleDirection.bearish
    else CandleDirection.flat

-- The property `direction`.
abbrev pub candle_direction : Candle → CandleDirection
candle_direction c = price_direction c.open_price c.close

pub record Geometry : Type 0 where
  pub range : Decimal
  pub body : Decimal
  pub upper_wick : Decimal
  pub lower_wick : Decimal
  pub body_ratio : Option Decimal
  pub upper_wick_ratio : Option Decimal
  pub lower_wick_ratio : Option Decimal
  pub close_location : Option Decimal
  pub direction : CandleDirection
  pub zero_range : Bool

pub record PriorTrend : Type 0 where
  pub state : TrendState
  pub strength : Decimal
  pub lookback : ℕ
  pub available : Bool

abbrev is_unknown : TrendState → Bool
is_unknown TrendState.unknown = true
is_unknown _ = false

-- `ZERO <= value <= ONE`
abbrev pub in_unit : Decimal → Bool
in_unit value = Decimal.le zero_decimal value && Decimal.le value (from_ℕ 1)

-- `PriorTrend.__post_init__`
unfoldable pub check_prior : PriorTrend → Result PriorTrend
check_prior p = do
  guard (in_unit p.strength) value_error
  raise_if (p.available && is_unknown p.state) value_error
  ok p

-- `PriorTrend.evidence`, in front of other entries.
abbrev pub prior_evidence : PriorTrend → Fields → Fields
prior_evidence p rest = field "prior_trend" (Value.enum (trend_name p.state)) (
    field "prior_trend_strength" (Value.decimal p.strength)
      (field "prior_trend_lookback" (Value.int (pos p.lookback)) rest))

-- `UNKNOWN_PRIOR`
abbrev pub unknown_prior : PriorTrend
unknown_prior = record {
  state = TrendState.unknown;
  strength = zero_decimal;
  lookback = 0;
  available = false;
}

-- The names in `SUPPORTED_PATTERNS`.
pub data Pattern : Type 0 where
  doji dragonfly_doji gravestone_doji : Pattern
  hammer hanging_man inverted_hammer shooting_star : Pattern
  bullish_engulfing bearish_engulfing piercing_line dark_cloud_cover : Pattern
  morning_star evening_star three_white_soldiers three_black_crows : Pattern

pub record PatternDetection : Type 0 where
  pub pattern : Pattern
  pub direction : PatternDirection
  pub timeframe : Timeframe
  pub start_ts : ℕ
  pub end_ts : ℕ
  pub candles : ℕ
  pub geometry_score : Decimal
  pub context_score : Decimal
  pub overall_score : Decimal
  pub evidence : Fields

-- `PatternDetection.__post_init__`, over aware whole minutes.
unfoldable pub check_detection : PatternDetection → Result PatternDetection
check_detection d = do
  raise_if (ltb d.end_ts d.start_ts) value_error
  raise_if (ltb d.candles 1) value_error
  guard (in_unit d.geometry_score && in_unit d.context_score && in_unit d.overall_score) value_error
  ok d
