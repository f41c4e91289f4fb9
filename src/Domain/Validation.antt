-- ===== src/Domain/Validation.antt =====
-- src/core/domain/validation.py: the checks of a signal's levels. `normal` is `str.strip().upper()`.
pub mod Accepted
pub mod Tradable
use text.Mathlib.Text.{◌==◌ as str_eq}
use research_platform.Prelude.{
  Bool, true, false, not, ◌&&◌, ◌||◌, Option, none, some, String, List, [], ◌∷◌, ◌++◌,
  if◌then◌else◌,
}
use research_platform.Prelude.Int.{pos, leb_ℤ}
use research_platform.Decimal
use research_platform.Decimal.{Decimal, zero_decimal}
use research_platform.Domain.Signal.{Direction, long, short, SignalSpec}

pub data PriceName : Type 0 where
  entry_zone_low entry_zone_high stop target1 target2 trigger_price : PriceName

-- The codes of the errors.
pub data Problem : Type 0 where
  ticker_invalid : Problem
  not_positive : PriceName → Problem
  valid_sessions_out_of_range : Problem
  zone_inverted : Problem
  stop_not_beyond_zone target1_not_beyond_zone target2_not_beyond_target1 : Problem

-- `errors.append(problem)` unless the test holds.
abbrev pub unless : Bool → Problem → List Problem
unless true problem = []
unless false problem = problem ∷ []

abbrev pub is_positive : Decimal → Bool
is_positive d = not (Decimal.le d zero_decimal)

abbrev pub price_problems : PriceName → Option Decimal → List Problem
price_problems name none = []
price_problems name (some d) = unless (is_positive d) (not_positive name)

-- `signal.ticker and signal.ticker == signal.ticker.strip().upper()`
abbrev pub ticker_valid : (String → String) → String → Bool
ticker_valid normal ticker = not (str_eq ticker "") && str_eq ticker (normal ticker)

abbrev pub sessions_valid : SignalSpec → Bool
sessions_valid s = leb_ℤ (pos 1) s.valid_sessions && leb_ℤ s.valid_sessions (pos 20)

abbrev pub flatten : List (List Problem) → List Problem
flatten [] = []
flatten (ps ∷ pss) = ps ++ flatten pss

-- The checks of each value on its own.
abbrev pub value_checks : (String → String) → SignalSpec → List (List Problem)
value_checks normal s =
    unless (ticker_valid normal s.ticker) ticker_invalid
    ∷ price_problems entry_zone_low (some s.entry_zone_low)
    ∷ price_problems entry_zone_high (some s.entry_zone_high)
    ∷ price_problems stop (some s.stop)
    ∷ price_problems target1 (some s.target1)
    ∷ price_problems target2 s.target2
    ∷ price_problems trigger_price s.trigger_price
    ∷ unless (sessions_valid s) valid_sessions_out_of_range
    ∷ []

-- `Decimal.lt` along the direction of the trade.
abbrev pub beyond : Direction → Decimal → Decimal → Bool
beyond long a b = Decimal.lt a b
beyond short a b = Decimal.lt b a

-- The edges of the zone, the one next to the stop first.
abbrev pub near_edge : SignalSpec → Direction → Decimal
near_edge s long = s.entry_zone_low
near_edge s short = s.entry_zone_high

abbrev pub far_edge : SignalSpec → Direction → Decimal
far_edge s long = s.entry_zone_high
far_edge s short = s.entry_zone_low

abbrev pub target2_problems : Direction → Decimal → Option Decimal → List Problem
target2_problems d first none = []
target2_problems d first (some second) = unless (beyond d first second) target2_not_beyond_target1

-- The checks of the chain of levels.
abbrev pub chain_checks : SignalSpec → List (List Problem)
chain_checks s =
    unless (Decimal.le s.entry_zone_low s.entry_zone_high) zone_inverted
    ∷ unless (beyond s.direction s.stop (near_edge s s.direction)) stop_not_beyond_zone
    ∷ unless (beyond s.direction (far_edge s s.direction) s.target1) target1_not_beyond_zone
    ∷ target2_problems s.direction s.target1 s.target2
    ∷ []

abbrev pub or_else : List Problem → List Problem → List Problem
or_else [] later = later
or_else (p ∷ ps) _ = p ∷ ps

unfoldable pub validate_signal : (String → String) → SignalSpec → List Problem
validate_signal normal s = or_else (flatten (value_checks normal s)) (flatten (chain_checks s))
