-- ===== src/Research/Levels/Accepted.antt =====
-- Valid level chains and the platform's own check of a signal.
use research_platform.Prelude.{
  ◌≡◌, refl, Bool, true, false, Option, none, String, List, [], ◌∷◌, arith,
}
use research_platform.Prelude.Int.{ℤ, pos}
use research_platform.Decimal
use research_platform.Decimal.{Decimal, zero_decimal}
use research_platform.Domain.Signal.{Direction}
use research_platform.Domain.Validation.{
  Problem, validate_signal, ticker_valid, sessions_valid, is_positive,
}
use research_platform.Domain.Validation.Accepted.{
  Holds, validate_signal-IsAccepted, IsAccepted-validate_signal,
}
use research_platform.Result.{ok, value_error, raise_if, Ensures, Ensures-eq_ok, bind-any}
use research_platform.Research.Candle.{Candle, PatternDirection}
use research_platform.Research.Structure.{MarketStructure}
use research_platform.Research.Levels.{
  LevelPolicy, RiskLevels, RawLevels, spec_of, signal_spec, to_tick, to_tick_optional, risk_reward,
}
use research_platform.Research.Levels.Propose.{
  is_nil, level_errors, reward_too_low, judge, propose_levels, side_of,
}

-- What a valid chain has passed.
abbrev IsChecked : (String → String) → LevelPolicy → RiskLevels → Type 0
IsChecked normal policy levels =
    (validate_signal normal (spec_of levels "PROBE" (pos 1) none) ≡ [])
    × (reward_too_low levels.risk_reward policy.min_risk_reward ≡ false)

level_errors-nil :
    (ps : List Problem) (blocked : Bool) (reward : Option Decimal) (least : Decimal)
    → is_nil (level_errors ps blocked reward least) ≡ true
    → (ps ≡ []) × (reward_too_low reward least ≡ false)
level_errors-nil [] true reward least h = cc
level_errors-nil [] false reward least h = ground arith
level_errors-nil (p ∷ ps) blocked reward least h = cc

judge-IsChecked :
    (normal : String → String) (side : Direction) (high low close atr : Decimal)
    (structure : MarketStructure) (policy : LevelPolicy) (raw : RawLevels)
    → Ensures
        (λ levels. levels.valid ≡ true → IsChecked normal policy levels)
        (judge normal side high low close atr structure policy raw)
judge-IsChecked normal side high low close atr structure policy raw =
    bind-any _ (to_tick raw.entry_low) _ λ entry_low.
      bind-any _ (to_tick raw.entry_high) _ λ entry_high. bind-any _ (to_tick raw.stop) _ λ stop.
        bind-any _ (to_tick raw.target1) _ λ target1. bind-any _ (to_tick raw.target2) _ λ target2.
          bind-any _ (risk_reward _ stop target1) _ λ reward.
            bind-any _ (to_tick_optional raw.capping_level) _ λ capping.
              bind-any _ (to_tick_optional raw.widening_level) _
                λ widening h. level_errors-nil _ raw.blocked reward _ h

propose_levels-IsChecked :
    (normal : String → String) (cs : List Candle) (direction : PatternDirection) (atr : Decimal)
    (structure : MarketStructure) (policy : LevelPolicy)
    → Ensures
        (λ levels. levels.valid ≡ true → IsChecked normal policy levels)
        (propose_levels normal cs direction atr structure policy)
unfolding propose_levels
propose_levels-IsChecked normal [] direction atr structure policy = tt
propose_levels-IsChecked normal (c ∷ cs) direction atr structure policy =
    bind-any _ (raise_if (Decimal.le atr zero_decimal) value_error) _ λ _.
      bind-any _ (side_of direction) _
        λ side. judge-IsChecked normal side _ _ _ atr structure policy _

-- A chain of levels that `propose_levels` returns as valid makes, for a valid ticker, a number of
-- sessions from 1 to 20 and a positive trigger price or none, a signal that `validate_signal`
-- accepts, and its reward is not below the policy's minimum.
pub propose_levels-signal_spec :
    (normal : String → String) (cs : List Candle) (direction : PatternDirection) (atr : Decimal)
    (structure : MarketStructure) (policy : LevelPolicy) (levels : RiskLevels) (ticker : String)
    (sessions : ℤ) (trigger : Option Decimal)
    → propose_levels normal cs direction atr structure policy ≡ ok levels
    → levels.valid ≡ true
    → ticker_valid normal ticker ≡ true
    → sessions_valid (spec_of levels ticker sessions trigger) ≡ true
    → Holds is_positive trigger
    → (signal_spec levels ticker sessions trigger ≡ ok (spec_of levels ticker sessions trigger))
      × (validate_signal normal (spec_of levels ticker sessions trigger) ≡ [])
      × (reward_too_low levels.risk_reward policy.min_risk_reward ≡ false)
unfolding signal_spec
propose_levels-signal_spec normal cs direction atr structure policy levels ticker sessions trigger e
      valid named lasting positive =
    let (clean, rewarding) =
      Ensures-eq_ok (λ l. l.valid ≡ true → IsChecked normal policy l) _
        (propose_levels-IsChecked normal cs direction atr structure policy) e valid in
    let fine = validate_signal-IsAccepted normal (spec_of levels "PROBE" (pos 1) none) clean in
    (
      rw valid refl,
      IsAccepted-validate_signal normal (spec_of levels ticker sessions trigger) (record {
        ticker = named;
        low_positive = fine.low_positive;
        high_positive = fine.high_positive;
        stop_positive = fine.stop_positive;
        target1_positive = fine.target1_positive;
        target2_positive = fine.target2_positive;
        trigger_positive = positive;
        sessions = lasting;
        zone = fine.zone;
        stop_beyond = fine.stop_beyond;
        target1_beyond = fine.target1_beyond;
        target2_beyond = fine.target2_beyond;
      }),
      rewarding,
    )
