-- ===== src/Research/Scoring.antt =====
-- src/virtual_orders/research/scoring.py: the deterministic score of a setup.
use research_platform.Prelude.{
  ℕ, Bool, ◌&&◌, Option, none, some, String, List, [], ◌∷◌, ◌++◌, any, length,
}
use research_platform.Prelude.Int.{pos, negsuc}
use research_platform.Result.{Result, ok, value_error, ◌>>=◌, ◌>>◌, raise_if, guard}
use research_platform.Decimal
use research_platform.Decimal.{Decimal, zero_decimal, from_ℕ}
use research_platform.Domain.Values.{Value, Fields, field, end}
use research_platform.Domain.Signal.{Direction}
use research_platform.Research.Candle.{TrendState, PatternDetection, quantize_score}
use research_platform.Research.Features.{FeatureSnapshot}
use research_platform.Research.Structure.{BreakoutState}

-- `Decimal("0.01") * n`
abbrev hundredths : ℕ → Decimal
hundredths n = record { int = pos n; exp = negsuc 1 }

-- `NEUTRAL_COMPONENT`
abbrev neutral_component : Decimal
neutral_component = record { int = pos 5; exp = negsuc 0 }

pub record ScoreWeights : Type 0 where
  pub pattern : Decimal
  pub trend : Decimal
  pub volume : Decimal
  pub pressure : Decimal
  pub structure : Decimal

-- `sum(values, start)`
abbrev sum_of : Decimal → List Decimal → Decimal
sum_of total [] = total
sum_of total (d ∷ ds) = sum_of (Decimal.add total d) ds

abbrev weight_list : ScoreWeights → List Decimal
weight_list w = w.pattern ∷ w.trend ∷ w.volume ∷ w.pressure ∷ w.structure ∷ []

abbrev below_zero : Decimal → Bool
below_zero d = Decimal.lt d zero_decimal

abbrev is_one : Decimal → Bool
is_one d = Decimal.le d (from_ℕ 1) && Decimal.le (from_ℕ 1) d

-- `ScoreWeights.__post_init__`, over decimals.
unfoldable pub check_weights : ScoreWeights → Result ScoreWeights
check_weights w = do
  raise_if (any below_zero (weight_list w)) value_error
  guard (is_one (sum_of zero_decimal (weight_list w))) value_error
  ok w

abbrev pub default_weights : ScoreWeights
default_weights = record {
  pattern = hundredths 40;
  trend = hundredths 20;
  volume = hundredths 15;
  pressure = hundredths 15;
  structure = hundredths 10;
}

-- `ScoreWeights.snapshot`
abbrev weight_snapshot : ScoreWeights → Fields
weight_snapshot w = field "pattern" (Value.decimal w.pattern) (
    field "trend" (Value.decimal w.trend) (
      field "volume" (Value.decimal w.volume) (
        field "pressure" (Value.decimal w.pressure)
          (field "structure" (Value.decimal w.structure) end))))

-- `_scaled`
unfoldable pub scaled : (value low high : Decimal) → Result Decimal
scaled value low high = do
  raise_if (Decimal.le high low) value_error
  share ← Decimal.div (Decimal.sub value low) (Decimal.sub high low)
  quantize_score share

-- What one known trend adds to the score.
abbrev trend_points : Direction → TrendState → List Decimal
trend_points d TrendState.unknown = []
trend_points d TrendState.sideways = neutral_component ∷ []
trend_points Direction.long TrendState.up = from_ℕ 1 ∷ []
trend_points Direction.long TrendState.down = zero_decimal ∷ []
trend_points Direction.short TrendState.up = zero_decimal ∷ []
trend_points Direction.short TrendState.down = from_ℕ 1 ∷ []

-- The mean of the parts, neutral where there is none.
abbrev mean_or_neutral : List Decimal → Result Decimal
mean_or_neutral [] = quantize_score neutral_component
mean_or_neutral (p ∷ ps) = do
  share ← Decimal.div (sum_of zero_decimal (p ∷ ps)) (from_ℕ (length (p ∷ ps)))
  quantize_score share

unfoldable pub trend_component : FeatureSnapshot → Direction → Result Decimal
trend_component snapshot d =
    mean_or_neutral
      (trend_points d snapshot.short_term_trend ++ trend_points d snapshot.medium_term_trend)

unfoldable pub volume_component : FeatureSnapshot → Result Decimal
volume_component snapshot = elim snapshot.relative_volume [
  | none ↦ quantize_score neutral_component
  | some volume ↦ scaled volume neutral_component (from_ℕ 2)
]

abbrev signed_flow : Direction → Decimal → Decimal
signed_flow Direction.long cmf = cmf
signed_flow Direction.short cmf = Decimal.neg cmf

-- `STRONG_CMF` is 0.15.
unfoldable pub pressure_component : FeatureSnapshot → Direction → Result Decimal
pressure_component snapshot d = elim snapshot.cmf [
  | none ↦ quantize_score neutral_component
  | some cmf ↦ scaled (signed_flow d cmf) (Decimal.neg (hundredths 15)) (hundredths 15)
]

abbrev room_towards : FeatureSnapshot → Direction → Option Decimal
room_towards snapshot Direction.long = snapshot.resistance_distance_pct
room_towards snapshot Direction.short = snapshot.support_distance_pct

abbrev room_part : Option Decimal → Result (List Decimal)
room_part none = ok []
room_part (some towards) = do
  part ← scaled (Decimal.min (Decimal.abs towards) (from_ℕ 5)) zero_decimal (from_ℕ 5)
  ok (part ∷ [])

abbrev breakout_part : Direction → BreakoutState → List Decimal
breakout_part d BreakoutState.unknown = []
breakout_part d BreakoutState.inside = neutral_component ∷ []
breakout_part Direction.long BreakoutState.above_resistance = from_ℕ 1 ∷ []
breakout_part Direction.long BreakoutState.below_support = zero_decimal ∷ []
breakout_part Direction.short BreakoutState.above_resistance = zero_decimal ∷ []
breakout_part Direction.short BreakoutState.below_support = from_ℕ 1 ∷ []

unfoldable pub structure_component : FeatureSnapshot → Direction → Result Decimal
structure_component snapshot d = do
  room ← room_part (room_towards snapshot d)
  mean_or_neutral (room ++ breakout_part d snapshot.breakout)

pub record Components : Type 0 where
  pub pattern : Decimal
  pub trend : Decimal
  pub volume : Decimal
  pub pressure : Decimal
  pub structure : Decimal

pub record SetupScore : Type 0 where
  pub scoring_version : String
  pub interpretation : String
  pub weights : Fields
  pub components : Components
  pub deterministic_score : Decimal

-- The products of the components with their weights.
abbrev weighted : Components → ScoreWeights → List Decimal
weighted c w =
    Decimal.mul c.pattern w.pattern
    ∷ Decimal.mul c.trend w.trend
    ∷ Decimal.mul c.volume w.volume
    ∷ Decimal.mul c.pressure w.pressure
    ∷ Decimal.mul c.structure w.structure
    ∷ []

-- `SCORE_INTERPRETATION` is the argument `interpretation`.
unfoldable pub score_setup :
    (interpretation : String)
    → PatternDetection
    → FeatureSnapshot
    → Direction
    → ScoreWeights
    → Result SetupScore
score_setup interpretation detection snapshot d weights = do
  trend ← trend_component snapshot d
  volume ← volume_component snapshot
  pressure ← pressure_component snapshot d
  structure ← structure_component snapshot d
  let components : Components = record {
    pattern = detection.overall_score;
    trend = trend;
    volume = volume;
    pressure = pressure;
    structure = structure;
  }
  score ← quantize_score (sum_of zero_decimal (weighted components weights))
  ok (record {
    scoring_version = "scoring-v1";
    interpretation = interpretation;
    weights = weight_snapshot weights;
    components = components;
    deterministic_score = score;
  })
