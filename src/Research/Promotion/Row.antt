-- ===== src/Research/Promotion/Row.antt =====
-- src/virtual_orders/research/repository.py and promotion.py: the stored candidate, and the promotion decided from it.
-- Rows are records of the columns' types.
use research_platform.Prelude.{
  ℕ, Bool, true, false, not, ◌&&◌, Option, none, some, String, List, [], ◌∷◌, ◌++◌,
}
use research_platform.Result.{Result, ok, value_error, ◌>>=◌, ◌>>◌, guard}
use research_platform.Decimal
use research_platform.Decimal.{Decimal, zero_decimal, from_ℕ}
use research_platform.Domain.Values.{Value, Items, nil, cons, Fields, field, end}
use research_platform.Domain.Signal.{Direction}
use research_platform.Fills.Creation.{extend}
use research_platform.Research.Candle.{Pattern, Timeframe}
use research_platform.Research.Levels.{RiskLevels}
use research_platform.Research.Setups.{SetupCandidate, client_signal_id, thesis}
use research_platform.Research.Promotion.{
  PromotionPolicy, promotion_snapshot, BacktestStats, PromotionError, error_code, append_if,
  evidence_gate, ml_gate, SignalBody, PromotionDecision, Texts, body_unless, decision_of,
  score_below_minimum, no_levels, invalid_levels,
}

-- A row of `setup_candidates`: the columns that promotion reads, and those beside them that
-- `record_candidate` fills from the levels and the scores.
pub record CandidateRow : Type 0 where
  pub ticker : String
  pub timeframe : Timeframe
  pub detected_at : ℕ
  pub direction : Direction
  pub pattern : Pattern
  pub strategy : String
  pub strategy_version : String
  pub feature_version : String
  pub scoring_version : String
  pub thesis_document : Fields
  pub deterministic_score : Decimal
  pub ml_probability : Option Decimal
  pub model_version : Option String
  pub label_version : Option String
  pub entry_zone_low : Option Decimal
  pub entry_zone_high : Option Decimal
  pub stop : Option Decimal
  pub target1 : Option Decimal
  pub target2 : Option Decimal
  pub risk_reward : Option Decimal
  pub levels_valid : Bool
  pub client_signal_id : String
  pub data_as_of : ℕ

abbrev pub level_column : (RiskLevels → Decimal) → Option RiskLevels → Option Decimal
level_column f none = none
level_column f (some l) = some (f l)

abbrev optional_column : (RiskLevels → Option Decimal) → Option RiskLevels → Option Decimal
optional_column f none = none
optional_column f (some l) = f l

abbrev pub are_valid : Option RiskLevels → Bool
are_valid none = false
are_valid (some l) = l.valid

-- The `values` of `record_candidate`.
abbrev pub row_of : Texts → SetupCandidate → CandidateRow
row_of texts c = record {
  ticker = c.ticker;
  timeframe = c.timeframe;
  detected_at = c.detected_at;
  direction = c.direction;
  pattern = c.pattern;
  strategy = c.strategy;
  strategy_version = c.strategy_version;
  feature_version = c.feature_version;
  scoring_version = c.scoring_version;
  thesis_document = thesis texts.level_code c;
  deterministic_score = c.deterministic_score;
  ml_probability = c.ml_probability;
  model_version = c.model_version;
  label_version = c.label_version;
  entry_zone_low = level_column (λ l. l.entry_zone_low) c.levels;
  entry_zone_high = level_column (λ l. l.entry_zone_high) c.levels;
  stop = level_column (λ l. l.stop) c.levels;
  target1 = level_column (λ l. l.target1) c.levels;
  target2 = optional_column (λ l. l.target2) c.levels;
  risk_reward = optional_column (λ l. l.risk_reward) c.levels;
  levels_valid = are_valid c.levels;
  client_signal_id = client_signal_id texts.iso c;
  data_as_of = c.data_as_of;
}

abbrev pub stored_level_gate : Option Decimal → (levels_valid : Bool) → List PromotionError
stored_level_gate none levels_valid = no_levels ∷ []
stored_level_gate (some _) levels_valid = append_if (not levels_valid) invalid_levels

unfoldable pub stored_promotion_errors :
    CandidateRow → Option BacktestStats → PromotionPolicy → List PromotionError
stored_promotion_errors row evidence policy =
    append_if (Decimal.lt row.deterministic_score policy.min_deterministic_score)
      score_below_minimum
    ++ (stored_level_gate row.entry_zone_low row.levels_valid
        ++ (evidence_gate evidence policy ++ ml_gate row.ml_probability policy))

abbrev is_given : Option Decimal → Bool
is_given none = false
is_given (some _) = true

abbrev error_items : List PromotionError → Items
error_items [] = nil
error_items (e ∷ es) = cons (Value.str (error_code e)) (error_items es)

-- The thesis, with the overruled errors.
abbrev override_thesis : PromotionPolicy → List PromotionError → Fields → Fields
override_thesis policy [] given = given
override_thesis policy (e ∷ es) given = extend given (
    field "promotion_override"
      (Value.dict (
        field "overridden_errors" (Value.items (error_items (e ∷ es))) (
          field "promotion_version" (Value.str "promotion-v1")
            (field "policy" (Value.dict (promotion_snapshot policy)) end))))
      end)

-- `MANUAL_SOURCE if overridden else RESEARCH_SOURCE`
abbrev pub source_of : List PromotionError → String
source_of [] = "research_scan"
source_of (_ ∷ _) = "manual_promotion"

unfoldable pub stored_signal_body :
    Texts
    → CandidateRow
    → PromotionPolicy
    → (given : Fields) → (overridden : List PromotionError) → (auto_order : Bool)
    → Result SignalBody
stored_signal_body texts row policy given overridden auto_order = do
  guard (is_given row.entry_zone_low && row.levels_valid) value_error
  ok (record {
    client_signal_id = row.client_signal_id;
    strategy = row.strategy;
    strategy_version = row.strategy_version;
    source = source_of overridden;
    ticker = row.ticker;
    direction = row.direction;
    entry_zone_low = row.entry_zone_low;
    entry_zone_high = row.entry_zone_high;
    stop = row.stop;
    target1 = row.target1;
    target2 = row.target2;
    valid_sessions = policy.valid_sessions;
    score = row.deterministic_score;
    thesis = texts.canonical_json (override_thesis policy overridden given);
    auto_order = some auto_order;
  })

unfoldable pub decide_stored :
    Texts → CandidateRow → Option BacktestStats → PromotionPolicy → Result PromotionDecision
decide_stored texts row evidence policy = do
  let errors = stored_promotion_errors row evidence policy
  body ← body_unless errors (stored_signal_body texts row policy end [] true)
  ok (decision_of errors policy row.client_signal_id body)
