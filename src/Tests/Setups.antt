-- ===== src/Tests/Setups.antt =====
-- Labels, levels and promotion at concrete candles.
use research_platform.Prelude.{ℕ, ◌≡◌, refl, true, false, none, some, [], ◌∷◌, ◌++◌, take, ◌↔◌}
use research_platform.Prelude.Int.{pos, negsuc, ◌*ℤ◌, ◌-ℤ◌, ◌+ℤ◌}
use research_platform.Result.{Result, ok, err, Ensures, ◌>>=◌}
use research_platform.Decimal
use research_platform.Decimal.{Decimal, from_ℕ, zero_decimal}
use research_platform.Domain.Values.{end}
use research_platform.Domain.Signal.{Direction}
use research_platform.Domain.Validation.{validate_signal}
use research_platform.Research.Candle.{
  Timeframe, Pattern, PatternDirection, PatternDetection, TrendState, quantize_ratio,
}
use research_platform.Research.Features.{FeatureSnapshot}
use research_platform.Research.Labels.{BarrierResult}
use research_platform.Research.Labels.Barrier.{
  Trade, BarrierOutcome, target_before_stop, walk, excursion_r,
}
use research_platform.Research.Labels.Touch.{IsFirstTouch, target_before_stop-IsFirstTouch}
use research_platform.Research.Labels.Final.{target_before_stop-append}
use research_platform.Research.Levels.{
  LevelPolicy, RiskLevels, raw_levels, risk_reward, to_tick, to_tick_optional, signal_spec, spec_of,
}
use research_platform.Research.Levels.Propose.{propose_levels, reward_too_low}
use research_platform.Research.Levels.Accepted.{propose_levels-signal_spec}
use research_platform.Research.Promotion.{PromotionPolicy, PromotionDecision, Texts, decide}
use research_platform.Research.Promotion.Row.{decide_stored, row_of}
use research_platform.Research.Promotion.Gate.{IsEligible, has_body, decide-IsEligible}
use research_platform.Research.Promotion.Stored.{as_stored, map_body, decide_stored-row_of}
use research_platform.Research.Scoring.{SetupScore}
use research_platform.Research.Setups.{SetupCandidate, build_candidate}
use research_platform.Research.Structure.{BreakoutState, GapState, MarketStructure}
use research_platform.Tests.Candles.{falling, engulfing_rise, after_rise}
use research_platform.Tests.Decisions.{same_text}

abbrev pub from_ok : {A : Type 0} → A → Result A → A
from_ok default (ok a) = a
from_ok default (err _) = default

-- The second candle touches the target only.
abbrev rise : Trade
rise = record {
  entry = from_ℕ 100;
  stop = from_ℕ 95;
  target = from_ℕ 114;
  direction = Direction.long;
}

target_before_stop-IsFirstTouch_example :
    Ensures
      (IsFirstTouch rise (take 5 (falling ∷ engulfing_rise ∷ [])))
      (target_before_stop (falling ∷ engulfing_rise ∷ []) rise 5)
target_before_stop-IsFirstTouch_example =
    target_before_stop-IsFirstTouch (falling ∷ engulfing_rise ∷ []) rise 5

abbrev no_outcome : BarrierOutcome
no_outcome = record {
  label_version = "";
  ambiguity_policy = "";
  result = BarrierResult.no_data;
  entry = zero_decimal;
  stop = zero_decimal;
  target = zero_decimal;
  exit_price = none;
  candles_to_outcome = none;
  candles_used = 0;
  complete = false;
  r_multiple = none;
  mfe_r = none;
  mae_r = none;
  ambiguous = false;
  gap_through = false;
}

abbrev reached : BarrierOutcome
reached = from_ok no_outcome (target_before_stop (falling ∷ engulfing_rise ∷ []) rise 5)

reached_lem : target_before_stop (falling ∷ engulfing_rise ∷ []) rise 5 ≡ ok reached
unfolding target_before_stop walk excursion_r Decimal.abs Decimal.sub Decimal.div Decimal.quotient
    Decimal.le Decimal.lt Decimal.min Decimal.max Decimal.quantize quantize_ratio ◌*ℤ◌ ◌-ℤ◌ ◌+ℤ◌
reached_lem = refl

reached_complete : reached.complete ≡ true
unfolding target_before_stop walk excursion_r Decimal.abs Decimal.sub Decimal.div Decimal.quotient
    Decimal.le Decimal.lt Decimal.min Decimal.max Decimal.quantize quantize_ratio ◌*ℤ◌ ◌-ℤ◌ ◌+ℤ◌
reached_complete = refl

target_before_stop-append_example :
    target_before_stop ((falling ∷ engulfing_rise ∷ []) ++ after_rise ∷ []) rise 5 ≡ ok reached
target_before_stop-append_example =
    target_before_stop-append (falling ∷ engulfing_rise ∷ []) (after_rise ∷ []) rise 5 reached
      reached_lem reached_complete

abbrev hundredth : ℕ → Decimal
hundredth n = record { int = pos n; exp = negsuc 1 }

abbrev level_policy : LevelPolicy
level_policy = record {
  entry_zone_atr = hundredth 25;
  stop_buffer_atr = hundredth 25;
  target1_atr = from_ℕ 2;
  target2_atr = from_ℕ 3;
  min_risk_reward = hundredth 150;
  min_target_atr = from_ℕ 1;
}

abbrev open_structure : MarketStructure
open_structure = record {
  context_version = "context-v1";
  short_term_trend = TrendState.unknown;
  medium_term_trend = TrendState.unknown;
  ema20_slope_pct = none;
  support = none;
  resistance = none;
  support_distance_pct = none;
  resistance_distance_pct = none;
  breakout = BreakoutState.unknown;
  relative_atr_pct = none;
  gap = GapState.unknown;
  gap_pct = none;
  swings_confirmed = 0;
  swing_left = 2;
  swing_right = 2;
}

abbrev no_levels_given : RiskLevels
no_levels_given = record {
  levels_version = "";
  policy = end;
  direction = Direction.long;
  entry_zone_low = zero_decimal;
  entry_zone_high = zero_decimal;
  stop = zero_decimal;
  target1 = zero_decimal;
  target2 = none;
  risk = zero_decimal;
  risk_reward = none;
  basis = end;
  valid = false;
  errors = [];
}

abbrev proposed : Result RiskLevels
proposed =
    propose_levels same_text (falling ∷ engulfing_rise ∷ []) PatternDirection.bullish (from_ℕ 20)
      open_structure level_policy

abbrev chain : RiskLevels
chain = from_ok no_levels_given proposed

chain_lem : proposed ≡ ok chain
unfolding propose_levels raw_levels risk_reward to_tick to_tick_optional validate_signal Decimal.abs
    Decimal.add Decimal.sub Decimal.mul Decimal.div Decimal.quotient Decimal.le Decimal.lt
    Decimal.min Decimal.max Decimal.quantize quantize_ratio ◌*ℤ◌ ◌-ℤ◌ ◌+ℤ◌
chain_lem = refl

chain_valid : chain.valid ≡ true
unfolding propose_levels raw_levels risk_reward to_tick to_tick_optional validate_signal Decimal.abs
    Decimal.add Decimal.sub Decimal.mul Decimal.div Decimal.quotient Decimal.le Decimal.lt
    Decimal.min Decimal.max Decimal.quantize quantize_ratio ◌*ℤ◌ ◌-ℤ◌ ◌+ℤ◌
chain_valid = refl

propose_levels-signal_spec_example :
    (signal_spec chain "AAPL" (pos 3) none ≡ ok (spec_of chain "AAPL" (pos 3) none))
    × (validate_signal same_text (spec_of chain "AAPL" (pos 3) none) ≡ [])
    × (reward_too_low chain.risk_reward level_policy.min_risk_reward ≡ false)
propose_levels-signal_spec_example =
    propose_levels-signal_spec same_text (falling ∷ engulfing_rise ∷ []) PatternDirection.bullish
      (from_ℕ 20) open_structure level_policy chain "AAPL" (pos 3) none chain_lem chain_valid refl
      refl tt

abbrev pub engulfing_detection : PatternDetection
engulfing_detection = record {
  pattern = Pattern.bullish_engulfing;
  direction = PatternDirection.bullish;
  timeframe = Timeframe.m5;
  start_ts = 600_000_000;
  end_ts = 900_000_000;
  candles = 2;
  geometry_score = hundredth 80;
  context_score = hundredth 80;
  overall_score = hundredth 80;
  evidence = end;
}

abbrev pub snapshot : FeatureSnapshot
snapshot = record {
  feature_version = "features-v2";
  context_version = "";
  ticker = "";
  timeframe = Timeframe.m5;
  bar_ts = 0;
  bar_end_ts = 0;
  data_as_of = 0;
  pattern = none;
  pattern_direction = none;
  pattern_engine_version = none;
  pattern_score = none;
  pattern_geometry_score = none;
  pattern_context_score = none;
  open_price = zero_decimal;
  high = zero_decimal;
  low = zero_decimal;
  close = zero_decimal;
  volume = zero_decimal;
  minutes_expected = 0;
  minutes_present = 0;
  candle_complete = true;
  ema9 = none;
  ema20 = none;
  ema50 = none;
  ema200 = none;
  ema20_slope_pct = none;
  ema9_distance_pct = none;
  ema20_distance_pct = none;
  ema50_distance_pct = none;
  ema200_distance_pct = none;
  rsi14 = none;
  atr14 = none;
  relative_atr_pct = none;
  relative_volume = none;
  volatility = none;
  macd = none;
  macd_signal = none;
  macd_histogram = none;
  short_term_trend = TrendState.unknown;
  medium_term_trend = TrendState.unknown;
  breakout = BreakoutState.unknown;
  gap = GapState.unknown;
  gap_pct = none;
  support = none;
  resistance = none;
  support_distance_pct = none;
  resistance_distance_pct = none;
  pressure_estimate = true;
  pressure_method = "";
  pressure_disclaimer = "";
  vwap = none;
  vwap_distance_pct = none;
  cmf = none;
  obv_slope = none;
  close_location_value = none;
  pressure_side = none;
  market_session_position = none;
  indicator_parameters = end;
}

abbrev setup_score : SetupScore
setup_score = record {
  scoring_version = "scoring-v1";
  interpretation = "";
  weights = end;
  components = record {
    pattern = hundredth 80;
    trend = hundredth 50;
    volume = hundredth 50;
    pressure = hundredth 50;
    structure = hundredth 50;
  };
  deterministic_score = hundredth 70;
}

abbrev candidate : SetupCandidate
candidate = record {
  ticker = "AAPL";
  timeframe = Timeframe.m5;
  detected_at = 900_000_000;
  pattern_start_ts = 600_000_000;
  direction = Direction.long;
  pattern = Pattern.bullish_engulfing;
  strategy = "CANDLE_RESEARCH";
  strategy_version = "candles-v1+features-v2+scoring-v1";
  feature_version = "features-v2";
  engine_version = "candles-v1";
  scoring_version = "scoring-v1";
  deterministic_score = hundredth 70;
  data_as_of = 1_000_000_000;
  detection = engulfing_detection;
  features = snapshot;
  score = setup_score;
  levels = some chain;
  ml_probability = none;
  model_version = none;
  label_version = none;
}

candidate_built :
    build_candidate "AAPL" engulfing_detection snapshot setup_score 1_000_000_000 (some chain)
    ≡ some candidate
unfolding build_candidate
candidate_built = refl

abbrev promotion_policy : PromotionPolicy
promotion_policy = record {
  min_deterministic_score = hundredth 60;
  min_backtest_samples = 30;
  min_expectancy_r = zero_decimal;
  min_win_rate = none;
  require_ml_probability = false;
  min_ml_probability = hundredth 55;
  valid_sessions = 3;
}

abbrev texts : Texts
texts = record { iso = λ t. "T"; canonical_json = λ d. "{}"; level_code = λ e. "" }

decide-IsEligible_example :
    (d : PromotionDecision) × (decide texts candidate none promotion_policy ≡ ok d)
    × ((d.promotable ≡ true) ↔ IsEligible promotion_policy none candidate)
    × (has_body d ≡ d.promotable)
decide-IsEligible_example = decide-IsEligible texts candidate none promotion_policy

decide_stored-row_of_example :
    decide_stored texts (row_of texts candidate) none promotion_policy ≡ (
      decide texts candidate none promotion_policy >>= λ d.
      ok (record d { body = map_body (as_stored texts) d.body }))
decide_stored-row_of_example = decide_stored-row_of texts candidate none promotion_policy
