-- ===== src/Research/Levels/Propose.antt =====
-- src/virtual_orders/research/levels.py: the levels of a trade, and whether they may be traded.
-- `normal` is `str.strip().upper()`, as in `validate_signal`.
use research_platform.Prelude.{
  Bool, true, false, Option, none, some, String, List, [], ◌∷◌, ◌++◌, map, if◌then◌else◌, last_or,
}
use research_platform.Prelude.Int.{pos}
use research_platform.Result.{Result, ok, err, value_error, ◌>>=◌, ◌>>◌, raise_if}
use research_platform.Decimal
use research_platform.Decimal.{Decimal, zero_decimal}
use research_platform.Domain.Values.{Value, Fields, field, end, optional}
use research_platform.Domain.Signal.{Direction, SignalSpec}
use research_platform.Domain.Validation.{Problem, validate_signal}
use research_platform.Research.Candle.{Candle, PatternDirection}
use research_platform.Research.Structure.{MarketStructure}
use research_platform.Research.Levels.{
  LevelPolicy, policy_snapshot, to_tick, to_tick_optional, LevelError, RiskLevels, risk_reward,
  max_high, min_low, RawLevels, raw_levels, of_signal, risk_reward_below_minimum,
  target_blocked_by_structure,
}

abbrev pub reward_too_low : Option Decimal → Decimal → Bool
reward_too_low none least = false
reward_too_low (some reward) least = Decimal.lt reward least

-- The codes: those of the signal, then one of a blocked target or a low reward.
abbrev pub level_errors :
    List Problem → (blocked : Bool) → Option Decimal → (least : Decimal) → List LevelError
level_errors problems blocked reward least =
    map of_signal problems
    ++ (if blocked
        then target_blocked_by_structure ∷ []
        else if reward_too_low reward least
        then risk_reward_below_minimum ∷ []
        else [])

abbrev pub is_nil {ℓ} : {A : Type ℓ} → List A → Bool
is_nil [] = true
is_nil (_ ∷ _) = false

-- `target2`, unless it does not clear the first target.
abbrev clearing : Direction → (target1 target2 : Decimal) → Option Decimal
clearing Direction.long target1 target2 = if Decimal.le target2 target1 then none else some target2
clearing Direction.short target1 target2 = if Decimal.le target1 target2 then none else some target2

abbrev reference_of : Direction → (entry_low entry_high : Decimal) → Decimal
reference_of Direction.long entry_low entry_high = entry_high
reference_of Direction.short entry_low entry_high = entry_low

-- The `SignalSpec` that is checked; its constructor raises nothing on finite decimals.
abbrev pub probe :
    Direction → (entry_low entry_high stop target1 : Decimal) → Option Decimal → SignalSpec
probe side entry_low entry_high stop target1 target2 = record {
  ticker = "PROBE";
  direction = side;
  entry_zone_low = entry_low;
  entry_zone_high = entry_high;
  stop = stop;
  target1 = target1;
  target2 = target2;
  trigger_price = none;
  valid_sessions = pos 1;
}

abbrev is_given : Option Decimal → Bool
is_given none = false
is_given (some _) = true

abbrev basis_of :
    (high low close atr : Decimal)
    → MarketStructure
    → RawLevels
    → (capping widening : Option Decimal) → Fields
basis_of high low close atr structure raw capping widening =
    field "pattern_high" (Value.decimal high) (
      field "pattern_low" (Value.decimal low) (
        field "pattern_close" (Value.decimal close) (
          field "atr" (Value.decimal atr) (
            field "support" (optional Value.decimal structure.support) (
              field "resistance" (optional Value.decimal structure.resistance) (
                field "target1_capped_by_structure" (Value.flag (is_given raw.capping_level)) (
                  field "target1_blocked_by_structure" (Value.flag raw.blocked) (
                    field "capping_level" (optional Value.decimal capping) (
                      field "stop_widened_by_structure" (Value.flag (is_given raw.widening_level)) (
                        field "widening_level" (optional Value.decimal widening) (
                          field "context_version" (Value.str structure.context_version)
                            end)))))))))))

-- From the raw levels on: rounded to ticks, checked by `validate_signal`, and judged.
abbrev pub judge :
    (String → String)
    → Direction
    → (high low close atr : Decimal) → MarketStructure
    → LevelPolicy
    → RawLevels
    → Result RiskLevels
judge normal side high low close atr structure policy raw = do
  entry_low ← to_tick raw.entry_low
  entry_high ← to_tick raw.entry_high
  stop ← to_tick raw.stop
  target1 ← to_tick raw.target1
  target2 ← to_tick raw.target2
  let reference = reference_of side entry_low entry_high
  let second = clearing side target1 target2
  let problems = validate_signal normal (probe side entry_low entry_high stop target1 second)
  reward ← risk_reward reference stop target1
  capping ← to_tick_optional raw.capping_level
  widening ← to_tick_optional raw.widening_level
  let errors = level_errors problems raw.blocked reward policy.min_risk_reward
  ok (record {
    levels_version = "levels-v1";
    policy = policy_snapshot policy;
    direction = side;
    entry_zone_low = entry_low;
    entry_zone_high = entry_high;
    stop = stop;
    target1 = target1;
    target2 = second;
    risk = Decimal.abs (Decimal.sub reference stop);
    risk_reward = reward;
    basis = basis_of high low close atr structure raw capping widening;
    valid = is_nil errors;
    errors = errors;
  })

abbrev propose_for :
    (String → String)
    → Direction
    → (atr : Decimal) → MarketStructure
    → LevelPolicy
    → Candle
    → List Candle
    → Result RiskLevels
propose_for normal side atr structure policy c cs =
    let high = max_high c.high cs in
    let low = min_low c.low cs in
    let close = (last_or c cs).close in
    judge normal side high low close atr structure policy
      (raw_levels side high low close atr structure policy)

-- The side of a pattern; a neutral one has none.
abbrev pub side_of : PatternDirection → Result Direction
side_of PatternDirection.bullish = ok Direction.long
side_of PatternDirection.bearish = ok Direction.short
side_of PatternDirection.neutral = err value_error

unfoldable pub propose_levels :
    (String → String)
    → (pattern_candles : List Candle) → PatternDirection
    → (atr : Decimal) → MarketStructure
    → LevelPolicy
    → Result RiskLevels
propose_levels normal [] direction atr structure policy = err value_error
propose_levels normal (c ∷ cs) direction atr structure policy = do
  raise_if (Decimal.le atr zero_decimal) value_error
  side ← side_of direction
  propose_for normal side atr structure policy c cs
