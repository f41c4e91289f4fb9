-- ===== src/Research/Levels.antt =====
-- src/virtual_orders/research/levels.py: entry, stop and targets from a pattern's extremes, the ATR and the
-- confirmed levels around it.
pub mod Accepted
pub mod Propose
use research_platform.Prelude.{
  Bool, true, false, not, ◌&&◌, Option, none, some, String, List, [], ◌∷◌, ◌++◌, map, if◌then◌else◌,
  any, last_or,
}
use research_platform.Prelude.Int.{ℤ, pos}
use research_platform.Result.{Result, ok, err, value_error, ◌>>=◌, ◌>>◌, raise_if, guard}
use research_platform.Decimal
use research_platform.Decimal.{Decimal, zero_decimal}
use research_platform.Domain.Values.{Value, Fields, field, end, optional}
use research_platform.Domain.Signal.{Direction, long, short, SignalSpec}
use research_platform.Domain.Validation.{Problem, validate_signal}
use research_platform.Research.Candle.{Candle, PatternDirection, quantize_ratio}
use research_platform.Research.Structure.{MarketStructure}

pub record LevelPolicy : Type 0 where
  pub entry_zone_atr : Decimal
  pub stop_buffer_atr : Decimal
  pub target1_atr : Decimal
  pub target2_atr : Decimal
  pub min_risk_reward : Decimal
  pub min_target_atr : Decimal

abbrev not_above_zero : Decimal → Bool
not_above_zero d = Decimal.le d zero_decimal

-- `LevelPolicy.__post_init__`
unfoldable pub check_policy : LevelPolicy → Result LevelPolicy
check_policy p = do
  raise_if
      (any not_above_zero (
        p.entry_zone_atr ∷ p.stop_buffer_atr ∷ p.target1_atr ∷ p.target2_atr ∷ p.min_risk_reward
        ∷ p.min_target_atr ∷ []))
      value_error
  raise_if (Decimal.le p.target2_atr p.target1_atr) value_error
  raise_if (Decimal.lt p.target1_atr p.min_target_atr) value_error
  ok p

-- `LevelPolicy.snapshot`
abbrev policy_snapshot : LevelPolicy → Fields
policy_snapshot p = field "entry_zone_atr" (Value.decimal p.entry_zone_atr) (
    field "stop_buffer_atr" (Value.decimal p.stop_buffer_atr) (
      field "target1_atr" (Value.decimal p.target1_atr) (
        field "target2_atr" (Value.decimal p.target2_atr) (
          field "min_risk_reward" (Value.decimal p.min_risk_reward)
            (field "min_target_atr" (Value.decimal p.min_target_atr) end)))))

-- `to_tick`: `PRICE_TICK` is 0.01.
unfoldable pub to_tick : Decimal → Result Decimal
to_tick value = Decimal.quantize value 2

unfoldable pub to_tick_optional : Option Decimal → Result (Option Decimal)
to_tick_optional none = ok none
to_tick_optional (some value) = to_tick value >>= λ tick. ok (some tick)

-- A code in `errors`: one of `validate_signal`, or one of this module.
pub data LevelError : Type 0 where
  of_signal : Problem → LevelError
  risk_reward_below_minimum target_blocked_by_structure : LevelError

pub record RiskLevels : Type 0 where
  pub levels_version : String
  pub policy : Fields
  pub direction : Direction
  pub entry_zone_low : Decimal
  pub entry_zone_high : Decimal
  pub stop : Decimal
  pub target1 : Decimal
  pub target2 : Option Decimal
  pub risk : Decimal
  pub risk_reward : Option Decimal
  pub basis : Fields
  pub valid : Bool
  pub errors : List LevelError

-- The signal of a chain of levels.
abbrev pub spec_of :
    RiskLevels
    → (ticker : String) → (valid_sessions : ℤ) → (trigger_price : Option Decimal) → SignalSpec
spec_of levels ticker valid_sessions trigger_price = record {
  ticker = ticker;
  direction = levels.direction;
  entry_zone_low = levels.entry_zone_low;
  entry_zone_high = levels.entry_zone_high;
  stop = levels.stop;
  target1 = levels.target1;
  target2 = levels.target2;
  trigger_price = trigger_price;
  valid_sessions = valid_sessions;
}

-- `RiskLevels.signal_spec`
unfoldable pub signal_spec :
    RiskLevels
    → (ticker : String) → (valid_sessions : ℤ) → (trigger_price : Option Decimal)
    → Result SignalSpec
signal_spec levels ticker valid_sessions trigger_price = do
  guard levels.valid value_error
  ok (spec_of levels ticker valid_sessions trigger_price)

-- `_risk_reward`
unfoldable pub risk_reward : (entry stop target : Decimal) → Result (Option Decimal)
risk_reward entry stop target = do
  let risk = Decimal.abs (Decimal.sub entry stop)
  if Decimal.is_zero risk then ok none else (do
    share ← Decimal.div (Decimal.abs (Decimal.sub target entry)) risk
    reward ← quantize_ratio share
    ok (some reward))

abbrev max_high : Decimal → List Candle → Decimal
max_high best [] = best
max_high best (c ∷ cs) = max_high (Decimal.max best c.high) cs

abbrev min_low : Decimal → List Candle → Decimal
min_low best [] = best
min_low best (c ∷ cs) = min_low (Decimal.min best c.low) cs

-- The levels before they are rounded to a tick, the confirmed levels that moved the first target and
-- the stop, and whether the first one blocks the target.
pub record RawLevels : Type 0 where
  pub entry_low : Decimal
  pub entry_high : Decimal
  pub stop : Decimal
  pub target1 : Decimal
  pub target2 : Decimal
  pub capping_level : Option Decimal
  pub widening_level : Option Decimal
  pub blocked : Bool

abbrev widen_long : (low buffer stop : Decimal) → Option Decimal → Decimal × Option Decimal
widen_long low buffer stop none = (stop, none)
widen_long low buffer stop (some support) =
    let widened = Decimal.min stop (Decimal.sub support buffer) in
    if Decimal.lt support low && Decimal.lt widened stop
    then (widened, some support)
    else (stop, none)

abbrev widen_short : (high buffer stop : Decimal) → Option Decimal → Decimal × Option Decimal
widen_short high buffer stop none = (stop, none)
widen_short high buffer stop (some resistance) =
    let widened = Decimal.max stop (Decimal.add resistance buffer) in
    if Decimal.lt high resistance && Decimal.lt stop widened
    then (widened, some resistance)
    else (stop, none)

-- The first target, the level that caps it, and whether the cap blocks it.
abbrev cap_long : (entry target room : Decimal) → Option Decimal → Decimal × Option Decimal × Bool
cap_long entry target room none = (target, none, false)
cap_long entry target room (some resistance) =
    if Decimal.lt entry resistance && Decimal.lt resistance target
    then (resistance, some resistance, Decimal.lt (Decimal.sub resistance entry) room)
    else (target, none, false)

abbrev cap_short : (entry target room : Decimal) → Option Decimal → Decimal × Option Decimal × Bool
cap_short entry target room none = (target, none, false)
cap_short entry target room (some support) =
    if Decimal.lt target support && Decimal.lt support entry
    then (support, some support, Decimal.lt (Decimal.sub entry support) room)
    else (target, none, false)

unfoldable pub raw_levels :
    Direction → (high low close atr : Decimal) → MarketStructure → LevelPolicy → RawLevels
raw_levels Direction.long high low close atr structure policy =
    let buffer = Decimal.mul atr policy.stop_buffer_atr in
    let (stop, widening) = widen_long low buffer (Decimal.sub low buffer) structure.support in
    let (target1, capping, blocked) =
      cap_long high (Decimal.add high (Decimal.mul atr policy.target1_atr))
        (Decimal.mul atr policy.min_target_atr) structure.resistance in
    record {
      entry_low = Decimal.min close (Decimal.sub high (Decimal.mul atr policy.entry_zone_atr));
      entry_high = high;
      stop = stop;
      target1 = target1;
      target2 = Decimal.add high (Decimal.mul atr policy.target2_atr);
      capping_level = capping;
      widening_level = widening;
      blocked = blocked;
    }
raw_levels Direction.short high low close atr structure policy =
    let buffer = Decimal.mul atr policy.stop_buffer_atr in
    let (stop, widening) = widen_short high buffer (Decimal.add high buffer) structure.resistance in
    let (target1, capping, blocked) =
      cap_short low (Decimal.sub low (Decimal.mul atr policy.target1_atr))
        (Decimal.mul atr policy.min_target_atr) structure.support in
    record {
      entry_low = low;
      entry_high = Decimal.max close (Decimal.add low (Decimal.mul atr policy.entry_zone_atr));
      stop = stop;
      target1 = target1;
      target2 = Decimal.sub low (Decimal.mul atr policy.target2_atr);
      capping_level = capping;
      widening_level = widening;
      blocked = blocked;
    }
