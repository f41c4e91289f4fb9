-- ===== src/Domain/Position.antt =====
-- src/core/domain/position.py: results in units of the risk.
use research_platform.Prelude.{Option, none, some}
use research_platform.Prelude.Int.{pos, negsuc}
use research_platform.Result.{Result, ok, ◌>>=◌}
use research_platform.Decimal
use research_platform.Decimal.{Decimal, from_ℕ}
use research_platform.Domain.Signal.{Direction, long, short}
use research_platform.Domain.Order.{OrderState}

unfoldable pub r_multiple : OrderState → (risk_amount : Decimal) → Result Decimal
r_multiple state risk_amount =
    Decimal.div (Decimal.add (Decimal.sub state.realized_pnl state.costs) state.dividends)
      risk_amount

abbrev sign_of : Direction → Decimal
sign_of long = from_ℕ 1
sign_of short = record { int = negsuc 0; exp = pos 0 }

abbrev excursion_of :
    Decimal → (avg_entry risk : Decimal) → Option Decimal → Result (Option Decimal)
excursion_of sign avg_entry risk none = ok none
excursion_of sign avg_entry risk (some price) =
    Decimal.div (Decimal.mul sign (Decimal.sub price avg_entry)) risk >>= λ r. ok (some r)

abbrev excursions :
    OrderState
    → Direction
    → Option Decimal
    → Option Decimal
    → Result (Option Decimal × Option Decimal)
excursions state direction (some avg_entry) (some initial_stop) = do
  let risk = Decimal.abs (Decimal.sub avg_entry initial_stop)
  mfe ← excursion_of (sign_of direction) avg_entry risk state.best_price
  mae ← excursion_of (sign_of direction) avg_entry risk state.worst_price
  ok (mfe, mae)
excursions state direction _ _ = ok (none, none)

-- The best and the worst excursion.
unfoldable pub excursion_r : OrderState → Direction → Result (Option Decimal × Option Decimal)
excursion_r state direction = excursions state direction state.avg_entry state.initial_stop
