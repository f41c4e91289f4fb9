-- ===== src/Research/Setups.antt =====
-- src/virtual_orders/research/setups.py: a detection with its context as a setup candidate. `iso` is
-- `datetime.isoformat`. Every detection is of the engine version "candles-v1".
use Prim.Native.String.{◌++◌ as text_append}
use research_platform.Prelude.{ℕ, Option, none, some, String, List, [], ◌∷◌}
use research_platform.Decimal.{Decimal}
use research_platform.Domain.Values.{Value, Items, nil, cons, Fields, field, end, optional}
use research_platform.Domain.Signal.{Direction}
use research_platform.Fills.Creation.{direction_name, extend}
use research_platform.Research.Candle.{
  Timeframe, trend_name, Pattern, PatternDirection, PatternDetection,
}
use research_platform.Research.Features.{FeatureSnapshot}
use research_platform.Research.Levels.{RiskLevels, LevelError}
use research_platform.Research.Scoring.{Components, SetupScore}
use research_platform.Research.Structure.{BreakoutState}

abbrev engine_version : String
engine_version = "candles-v1"

-- `strategy_version`
abbrev pub strategy_version : (engine feature scoring : String) → String
strategy_version engine feature scoring =
    text_append engine (text_append "+" (text_append feature (text_append "+" scoring)))

-- `direction_of`
unfoldable pub direction_of : PatternDirection → Option Direction
direction_of PatternDirection.bullish = some Direction.long
direction_of PatternDirection.bearish = some Direction.short
direction_of PatternDirection.neutral = none

abbrev pub timeframe_name : Timeframe → String
timeframe_name Timeframe.m5 = "5m"
timeframe_name Timeframe.m15 = "15m"
timeframe_name Timeframe.m30 = "30m"
timeframe_name Timeframe.h1 = "1h"
timeframe_name Timeframe.h4 = "4h"
timeframe_name Timeframe.d1 = "1d"

abbrev pub pattern_name : Pattern → String
pattern_name Pattern.doji = "DOJI"
pattern_name Pattern.dragonfly_doji = "DRAGONFLY_DOJI"
pattern_name Pattern.gravestone_doji = "GRAVESTONE_DOJI"
pattern_name Pattern.hammer = "HAMMER"
pattern_name Pattern.hanging_man = "HANGING_MAN"
pattern_name Pattern.inverted_hammer = "INVERTED_HAMMER"
pattern_name Pattern.shooting_star = "SHOOTING_STAR"
pattern_name Pattern.bullish_engulfing = "BULLISH_ENGULFING"
pattern_name Pattern.bearish_engulfing = "BEARISH_ENGULFING"
pattern_name Pattern.piercing_line = "PIERCING_LINE"
pattern_name Pattern.dark_cloud_cover = "DARK_CLOUD_COVER"
pattern_name Pattern.morning_star = "MORNING_STAR"
pattern_name Pattern.evening_star = "EVENING_STAR"
pattern_name Pattern.three_white_soldiers = "THREE_WHITE_SOLDIERS"
pattern_name Pattern.three_black_crows = "THREE_BLACK_CROWS"

pub record SetupCandidate : Type 0 where
  pub ticker : String
  pub timeframe : Timeframe
  pub detected_at : ℕ
  pub pattern_start_ts : ℕ
  pub direction : Direction
  pub pattern : Pattern
  pub strategy : String
  pub strategy_version : String
  pub feature_version : String
  pub engine_version : String
  pub scoring_version : String
  pub deterministic_score : Decimal
  pub data_as_of : ℕ
  pub detection : PatternDetection
  pub features : FeatureSnapshot
  pub score : SetupScore
  pub levels : Option RiskLevels
  pub ml_probability : Option Decimal
  pub model_version : Option String
  pub label_version : Option String

-- `":".join(parts)`
abbrev joined : String → List String → String
joined first [] = first
joined first (part ∷ parts) = joined (text_append first (text_append ":" part)) parts

-- `SetupCandidate.client_signal_id`
unfoldable pub client_signal_id : (iso : ℕ → String) → SetupCandidate → String
client_signal_id iso c = joined (text_append c.strategy (text_append "-" c.strategy_version)) (
    c.ticker
    ∷ timeframe_name c.timeframe
    ∷ pattern_name c.pattern
    ∷ direction_name c.direction
    ∷ iso c.detected_at
    ∷ [])

-- `SetupCandidate.candidate_key`
unfoldable pub candidate_key : (iso : ℕ → String) → SetupCandidate → String
candidate_key iso c =
    joined c.strategy_version
      (c.ticker ∷ timeframe_name c.timeframe ∷ pattern_name c.pattern ∷ iso c.detected_at ∷ [])

abbrev breakout_name : BreakoutState → String
breakout_name BreakoutState.above_resistance = "ABOVE_RESISTANCE"
breakout_name BreakoutState.below_support = "BELOW_SUPPORT"
breakout_name BreakoutState.inside = "INSIDE"
breakout_name BreakoutState.unknown = "UNKNOWN"

abbrev component_fields : Components → Fields
component_fields c = field "pattern" (Value.decimal c.pattern) (
    field "trend" (Value.decimal c.trend) (
      field "volume" (Value.decimal c.volume) (
        field "pressure" (Value.decimal c.pressure)
          (field "structure" (Value.decimal c.structure) end))))

-- The entry "context" of the thesis.
abbrev context_fields : FeatureSnapshot → Fields
context_fields f = field "short_term_trend" (Value.enum (trend_name f.short_term_trend)) (
    field "medium_term_trend" (Value.enum (trend_name f.medium_term_trend)) (
      field "breakout" (Value.enum (breakout_name f.breakout)) (
        field "rsi14" (optional Value.decimal f.rsi14) (
          field "atr14" (optional Value.decimal f.atr14) (
            field "relative_volume" (optional Value.decimal f.relative_volume) (
              field "support_distance_pct" (optional Value.decimal f.support_distance_pct) (
                field "resistance_distance_pct" (optional Value.decimal f.resistance_distance_pct)
                  end)))))))

-- The entry "pressure_estimate" of the thesis.
abbrev pressure_fields : FeatureSnapshot → Fields
pressure_fields f = field "method" (Value.str f.pressure_method) (
    field "disclaimer" (Value.str f.pressure_disclaimer) (
      field "cmf" (optional Value.decimal f.cmf) (
        field "obv_slope" (optional Value.decimal f.obv_slope) (
          field "vwap_distance_pct" (optional Value.decimal f.vwap_distance_pct)
            (field "side" (optional Value.str f.pressure_side) end)))))

-- The entry "levels" of the thesis; `code` is the text of an error.
abbrev level_items : (LevelError → String) → List LevelError → Items
level_items code [] = nil
level_items code (e ∷ es) = cons (Value.str (code e)) (level_items code es)

abbrev level_fields : (LevelError → String) → RiskLevels → Fields
level_fields code l = field "entry_zone_low" (Value.decimal l.entry_zone_low) (
    field "entry_zone_high" (Value.decimal l.entry_zone_high) (
      field "stop" (Value.decimal l.stop) (
        field "target1" (Value.decimal l.target1) (
          field "target2" (optional Value.decimal l.target2) (
            field "risk_reward" (optional Value.decimal l.risk_reward) (
              field "levels_version" (Value.str l.levels_version) (
                field "basis" (Value.dict l.basis) (
                  field "valid" (Value.flag l.valid)
                    (field "errors" (Value.items (level_items code l.errors)) end)))))))))

abbrev with_levels : (LevelError → String) → Option RiskLevels → Fields
with_levels code none = end
with_levels code (some l) = field "levels" (Value.dict (level_fields code l)) end

abbrev with_probability : SetupCandidate → Option Decimal → Fields
with_probability c none = end
with_probability c (some p) =
    field "ml"
      (Value.dict (
        field "probability_target_first" (Value.decimal p) (
          field "model_version" (optional Value.str c.model_version) (
            field "feature_version" (Value.str c.feature_version)
              (field "label_version" (optional Value.str c.label_version) end)))))
      end

-- `SetupCandidate.thesis`; the codes of level errors are texts.
unfoldable pub thesis : (LevelError → String) → SetupCandidate → Fields
thesis code c = field "kind" (Value.str "RESEARCH_CANDLESTICK_SETUP") (
    field "pattern" (Value.str (pattern_name c.pattern)) (
      field "timeframe" (Value.enum (timeframe_name c.timeframe)) (
        field "direction" (Value.enum (direction_name c.direction)) (
          field "detected_at" (Value.instant c.detected_at) (
            field "engine_version" (Value.str c.engine_version) (
              field "feature_version" (Value.str c.feature_version) (
                field "scoring_version" (Value.str c.scoring_version) (
                  field "deterministic_score" (Value.decimal c.deterministic_score) (
                    field "score_interpretation" (Value.str c.score.interpretation) (
                      field "score_components" (Value.dict (component_fields c.score.components)) (
                        field "pattern_evidence" (Value.dict c.detection.evidence) (
                          field "context" (Value.dict (context_fields c.features)) (
                            field "pressure_estimate" (Value.dict (pressure_fields c.features)) (
                              field "data_as_of" (Value.instant c.data_as_of) (
                                extend (with_levels code c.levels)
                                  (with_probability c c.ml_probability))))))))))))))))

-- `SetupCandidate.with_prediction`
abbrev pub with_prediction :
    SetupCandidate
    → (probability : Decimal) → (model_version label_version : String) → SetupCandidate
with_prediction c probability model_version label_version = record c {
  ml_probability = some probability;
  model_version = some model_version;
  label_version = some label_version;
}

abbrev candidate_of :
    String
    → PatternDetection
    → FeatureSnapshot
    → SetupScore
    → ℕ
    → Option RiskLevels
    → Direction
    → SetupCandidate
candidate_of ticker detection snapshot score data_as_of levels direction = record {
  ticker = ticker;
  timeframe = detection.timeframe;
  detected_at = detection.end_ts;
  pattern_start_ts = detection.start_ts;
  direction = direction;
  pattern = detection.pattern;
  strategy = "CANDLE_RESEARCH";
  strategy_version = strategy_version engine_version snapshot.feature_version score.scoring_version;
  feature_version = snapshot.feature_version;
  engine_version = engine_version;
  scoring_version = score.scoring_version;
  deterministic_score = score.deterministic_score;
  data_as_of = data_as_of;
  detection = detection;
  features = snapshot;
  score = score;
  levels = levels;
  ml_probability = none;
  model_version = none;
  label_version = none;
}

abbrev map_option : {A B : Type 0} → (A → B) → Option A → Option B
map_option f none = none
map_option f (some a) = some (f a)

unfoldable pub build_candidate :
    (ticker : String)
    → PatternDetection
    → FeatureSnapshot
    → SetupScore
    → (data_as_of : ℕ) → Option RiskLevels
    → Option SetupCandidate
unfolding direction_of
build_candidate ticker detection snapshot score data_as_of levels =
    map_option (candidate_of ticker detection snapshot score data_as_of levels)
      (direction_of detection.direction)
