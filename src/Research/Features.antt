-- ===== src/Research/Features.antt =====
-- src/virtual_orders/research/features.py: the snapshot of a candle's context.
use research_platform.Prelude.{ℕ, Bool, Option, String}
use research_platform.Decimal.{Decimal}
use research_platform.Domain.Values.{Fields}
use research_platform.Research.Candle.{Timeframe, TrendState, Pattern, PatternDirection}
use research_platform.Research.Structure.{BreakoutState, GapState}

pub record FeatureSnapshot : Type 0 where
  pub feature_version : String
  pub context_version : String
  pub ticker : String
  pub timeframe : Timeframe
  pub bar_ts : ℕ
  pub bar_end_ts : ℕ
  pub data_as_of : ℕ
  pub pattern : Option Pattern
  pub pattern_direction : Option PatternDirection
  pub pattern_engine_version : Option String
  pub pattern_score : Option Decimal
  pub pattern_geometry_score : Option Decimal
  pub pattern_context_score : Option Decimal
  pub open_price : Decimal
  pub high : Decimal
  pub low : Decimal
  pub close : Decimal
  pub volume : Decimal
  pub minutes_expected : ℕ
  pub minutes_present : ℕ
  pub candle_complete : Bool
  pub ema9 : Option Decimal
  pub ema20 : Option Decimal
  pub ema50 : Option Decimal
  pub ema200 : Option Decimal
  pub ema20_slope_pct : Option Decimal
  pub ema9_distance_pct : Option Decimal
  pub ema20_distance_pct : Option Decimal
  pub ema50_distance_pct : Option Decimal
  pub ema200_distance_pct : Option Decimal
  pub rsi14 : Option Decimal
  pub atr14 : Option Decimal
  pub relative_atr_pct : Option Decimal
  pub relative_volume : Option Decimal
  pub volatility : Option Decimal
  pub macd : Option Decimal
  pub macd_signal : Option Decimal
  pub macd_histogram : Option Decimal
  pub short_term_trend : TrendState
  pub medium_term_trend : TrendState
  pub breakout : BreakoutState
  pub gap : GapState
  pub gap_pct : Option Decimal
  pub support : Option Decimal
  pub resistance : Option Decimal
  pub support_distance_pct : Option Decimal
  pub resistance_distance_pct : Option Decimal
  pub pressure_estimate : Bool
  pub pressure_method : String
  pub pressure_disclaimer : String
  pub vwap : Option Decimal
  pub vwap_distance_pct : Option Decimal
  pub cmf : Option Decimal
  pub obv_slope : Option Decimal
  pub close_location_value : Option Decimal
  pub pressure_side : Option String
  pub market_session_position : Option Decimal
  pub indicator_parameters : Fields
