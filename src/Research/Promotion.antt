-- ===== src/Research/Promotion.antt =====
-- src/virtual_orders/research/promotion.py: may a candidate become a signal, and which body does it
-- submit? `canonical_json` is a parameter.
pub mod Gate
pub mod Stored
pub mod Row
use research_platform.Prelude.{
  ℕ, Bool, true, false, not, ◌&&◌, Option, none, some, String, List, [], ◌∷◌, ◌++◌, ltb, leb,
  if◌then◌else◌,
}
use research_platform.Prelude.Int.{pos}
use research_platform.Result.{Result, ok, err, value_error, ◌>>=◌, ◌>>◌, raise_if, guard}
use research_platform.Decimal
use research_platform.Decimal.{Decimal, zero_decimal, from_ℕ}
use research_platform.Domain.Values.{Value, Items, nil, cons, Fields, field, end, optional}
use research_platform.Domain.Signal.{Direction}
use research_platform.Fills.Creation.{direction_name, extend}
use research_platform.Research.Candle.{in_unit, Pattern, Timeframe}
use research_platform.Research.Levels.{RiskLevels, LevelError}
use research_platform.Research.Levels.Propose.{is_nil}
use research_platform.Research.Setups.{SetupCandidate, client_signal_id, thesis}

pub record PromotionPolicy : Type 0 where
  pub min_deterministic_score : Decimal
  pub min_backtest_samples : ℕ
  pub min_expectancy_r : Decimal
  pub min_win_rate : Option Decimal
  pub require_ml_probability : Bool
  pub min_ml_probability : Decimal
  pub valid_sessions : ℕ

-- `PromotionPolicy.__post_init__`
unfoldable pub check_promotion_policy : PromotionPolicy → Result PromotionPolicy
check_promotion_policy p = do
  guard (leb 1 p.valid_sessions && leb p.valid_sessions 20) value_error
  guard (in_unit p.min_deterministic_score) value_error
  guard (in_unit p.min_ml_probability) value_error
  raise_if (ltb p.min_backtest_samples 1) value_error
  ok p

-- `PromotionPolicy.snapshot`
abbrev promotion_snapshot : PromotionPolicy → Fields
promotion_snapshot p = field "min_deterministic_score" (Value.decimal p.min_deterministic_score) (
    field "min_backtest_samples" (Value.int (pos p.min_backtest_samples)) (
      field "min_expectancy_r" (Value.decimal p.min_expectancy_r) (
        field "min_win_rate" (optional Value.decimal p.min_win_rate) (
          field "require_ml_probability" (Value.flag p.require_ml_probability) (
            field "min_ml_probability" (Value.decimal p.min_ml_probability)
              (field "valid_sessions" (Value.int (pos p.valid_sessions)) end))))))

-- src/virtual_orders/research/backtest.py: `BacktestStats`, without its float statistics.
pub record BacktestStats : Type 0 where
  pub backtest_version : String
  pub samples : ℕ
  pub resolved : ℕ
  pub wins : ℕ
  pub losses : ℕ
  pub timeouts : ℕ
  pub ambiguous : ℕ
  pub gap_through : ℕ
  pub win_rate : Option Decimal
  pub avg_return_pct : Option Decimal
  pub median_return_pct : Option Decimal
  pub expectancy_r : Option Decimal
  pub avg_r : Option Decimal
  pub profit_factor : Option Decimal
  pub avg_mfe_r : Option Decimal
  pub avg_mae_r : Option Decimal

-- The codes.
pub data PromotionError : Type 0 where
  not_validated score_below_minimum no_levels invalid_levels : PromotionError
  insufficient_backtest_samples expectancy_below_minimum win_rate_below_minimum : PromotionError
  ml_probability_required ml_probability_below_minimum : PromotionError

abbrev pub error_code : PromotionError → String
error_code not_validated = "NOT_VALIDATED"
error_code score_below_minimum = "SCORE_BELOW_MINIMUM"
error_code no_levels = "NO_LEVELS"
error_code invalid_levels = "INVALID_LEVELS"
error_code insufficient_backtest_samples = "INSUFFICIENT_BACKTEST_SAMPLES"
error_code expectancy_below_minimum = "EXPECTANCY_BELOW_MINIMUM"
error_code win_rate_below_minimum = "WIN_RATE_BELOW_MINIMUM"
error_code ml_probability_required = "ML_PROBABILITY_REQUIRED"
error_code ml_probability_below_minimum = "ML_PROBABILITY_BELOW_MINIMUM"

-- `if test: errors.append(error)`
abbrev pub append_if : Bool → PromotionError → List PromotionError
append_if true error = error ∷ []
append_if false error = []

abbrev pub level_gate : Option RiskLevels → List PromotionError
level_gate none = no_levels ∷ []
level_gate (some levels) = append_if (not levels.valid) invalid_levels

-- `expectancy_r is None or expectancy_r <= minimum`
abbrev pub expectancy_low : Option Decimal → Decimal → Bool
expectancy_low none least = true
expectancy_low (some r) least = Decimal.le r least

abbrev win_rate_missed : Option Decimal → Decimal → Bool
win_rate_missed none least = true
win_rate_missed (some rate) least = Decimal.lt rate least

abbrev pub win_rate_low : Option Decimal → Option Decimal → Bool
win_rate_low rate none = false
win_rate_low rate (some least) = win_rate_missed rate least

abbrev pub evidence_gate : Option BacktestStats → PromotionPolicy → List PromotionError
evidence_gate none policy = not_validated ∷ []
evidence_gate (some stats) policy =
    append_if (ltb stats.samples policy.min_backtest_samples) insufficient_backtest_samples
    ++ (append_if (expectancy_low stats.expectancy_r policy.min_expectancy_r)
          expectancy_below_minimum
        ++ append_if (win_rate_low stats.win_rate policy.min_win_rate) win_rate_below_minimum)

abbrev probability_gate : Option Decimal → Decimal → List PromotionError
probability_gate none least = ml_probability_required ∷ []
probability_gate (some p) least = append_if (Decimal.lt p least) ml_probability_below_minimum

abbrev pub ml_gate : Option Decimal → PromotionPolicy → List PromotionError
ml_gate probability policy =
    if policy.require_ml_probability
    then probability_gate probability policy.min_ml_probability
    else []

unfoldable pub promotion_errors :
    SetupCandidate → Option BacktestStats → PromotionPolicy → List PromotionError
promotion_errors candidate evidence policy =
    append_if (Decimal.lt candidate.deterministic_score policy.min_deterministic_score)
      score_below_minimum
    ++ (level_gate candidate.levels
        ++ (evidence_gate evidence policy ++ ml_gate candidate.ml_probability policy))

unfoldable pub is_promotable : SetupCandidate → Option BacktestStats → PromotionPolicy → Bool
is_promotable candidate evidence policy = is_nil (promotion_errors candidate evidence policy)

-- The dictionary that is submitted; `auto_order` is missing from the body of an unstored candidate.
pub record SignalBody : Type 0 where
  pub client_signal_id : String
  pub strategy : String
  pub strategy_version : String
  pub source : String
  pub ticker : String
  pub direction : Direction
  pub entry_zone_low : Option Decimal
  pub entry_zone_high : Option Decimal
  pub stop : Option Decimal
  pub target1 : Option Decimal
  pub target2 : Option Decimal
  pub valid_sessions : ℕ
  pub score : Decimal
  pub thesis : String
  pub auto_order : Option Bool

pub record PromotionDecision : Type 0 where
  pub promotion_version : String
  pub promotable : Bool
  pub errors : List PromotionError
  pub policy : Fields
  pub client_signal_id : String
  pub body : Option SignalBody

abbrev pub body_of :
    String → (thesis : String) → SetupCandidate → PromotionPolicy → RiskLevels → SignalBody
body_of id text candidate policy levels = record {
  client_signal_id = id;
  strategy = candidate.strategy;
  strategy_version = candidate.strategy_version;
  source = "research_scan";
  ticker = candidate.ticker;
  direction = candidate.direction;
  entry_zone_low = some levels.entry_zone_low;
  entry_zone_high = some levels.entry_zone_high;
  stop = some levels.stop;
  target1 = some levels.target1;
  target2 = levels.target2;
  valid_sessions = policy.valid_sessions;
  score = candidate.deterministic_score;
  thesis = text;
  auto_order = none;
}

abbrev tradable_body :
    String
    → (thesis : String) → SetupCandidate
    → PromotionPolicy
    → Option RiskLevels
    → Result SignalBody
tradable_body id text candidate policy none = err value_error
tradable_body id text candidate policy (some levels) = do
  guard levels.valid value_error
  ok (body_of id text candidate policy levels)

-- The functions of text that the bodies call: `datetime.isoformat`, `canonical_json`, and the codes of
-- level errors.
pub record Texts : Type 0 where
  pub iso : ℕ → String
  pub canonical_json : Fields → String
  pub level_code : LevelError → String

unfoldable pub signal_body : Texts → SetupCandidate → PromotionPolicy → Result SignalBody
signal_body texts candidate policy =
    tradable_body (client_signal_id texts.iso candidate)
      (texts.canonical_json (thesis texts.level_code candidate)) candidate policy candidate.levels

-- `None if errors else ...`
abbrev pub body_unless : List PromotionError → Result SignalBody → Result (Option SignalBody)
body_unless [] body = body >>= λ b. ok (some b)
body_unless (_ ∷ _) body = ok none

abbrev pub decision_of :
    List PromotionError → PromotionPolicy → String → Option SignalBody → PromotionDecision
decision_of errors policy id body = record {
  promotion_version = "promotion-v1";
  promotable = is_nil errors;
  errors = errors;
  policy = promotion_snapshot policy;
  client_signal_id = id;
  body = body;
}

unfoldable pub decide :
    Texts → SetupCandidate → Option BacktestStats → PromotionPolicy → Result PromotionDecision
decide texts candidate evidence policy = do
  let errors = promotion_errors candidate evidence policy
  body ← body_unless errors (signal_body texts candidate policy)
  ok (decision_of errors policy (client_signal_id texts.iso candidate) body)
