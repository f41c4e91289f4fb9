-- ===== src/Research/Structure.antt =====
-- src/virtual_orders/research/market_structure.py: the market context as a record.
use research_platform.Prelude.{ℕ, Option, String}
use research_platform.Decimal.{Decimal}
use research_platform.Research.Candle.{TrendState}

pub data BreakoutState : Type 0 where
  above_resistance below_support inside unknown : BreakoutState

pub data GapState : Type 0 where
  up down no_gap unknown : GapState

pub record MarketStructure : Type 0 where
  pub context_version : String
  pub short_term_trend : TrendState
  pub medium_term_trend : TrendState
  pub ema20_slope_pct : Option Decimal
  pub support : Option Decimal
  pub resistance : Option Decimal
  pub support_distance_pct : Option Decimal
  pub resistance_distance_pct : Option Decimal
  pub breakout : BreakoutState
  pub relative_atr_pct : Option Decimal
  pub gap : GapState
  pub gap_pct : Option Decimal
  pub swings_confirmed : ℕ
  pub swing_left : ℕ
  pub swing_right : ℕ
