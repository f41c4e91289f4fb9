-- ===== src/Tests/Windows.antt =====
-- src/core/fills/v1/engine.py: a batch of bars that an order has seen comes again.
use mathlib.Core.List.{Memᴰ}
use research_platform.Prelude.{◌≡◌, refl, List, [], ◌∷◌}
use research_platform.Prelude.Int.{◌*ℤ◌, ◌-ℤ◌}
use research_platform.Prelude.Sort.{sort_by}
use research_platform.Result.{ok}
use research_platform.Fills.Engine.{step, advance, process, phase, close_validity}
use research_platform.Calendar.{
  is_expected_minute, bisect_left, bisect_right, last_expected_minute_before, session_at,
  session_containing,
}
use research_platform.Fills.Moves.{eligible, adverse_buy, execution_cost, fill, max_opt, min_opt}
use research_platform.Fills.Entry.{
  zone_price, wait_for_entry, lose_zone, reclaim_zone, hit_trigger, entry_phase, enter,
}
use research_platform.Domain.Order.{make_event}
use research_platform.Domain.Values.{ends_with}
use research_platform.Fills.Exit.{exit_phase, take_targets}
use research_platform.Prelude.Int.{◌+ℤ◌}
use research_platform.Decimal
use research_platform.Domain.Signal.{Bar}
use research_platform.Fills.Moves.{Outcome}
use research_platform.Fills.Engine.{run_bars, run_ordered}
use research_platform.Fills.Replay.Window.{run_bars-redelivered}
use research_platform.Tests.Setups.{from_ok}
use research_platform.Tests.Orders.{above, touch, waiting, ctx_long}

abbrev batch : List Bar
batch = touch ∷ above ∷ []

-- The second bar fills the order.
abbrev filled : Outcome
filled = from_ok (waiting, []) (run_bars waiting batch ctx_long)

batch_run : run_bars waiting batch ctx_long ≡ ok (filled.0, filled.1)
unfolding run_bars run_ordered sort_by step advance process phase close_validity is_expected_minute
    bisect_left bisect_right last_expected_minute_before session_at session_containing eligible
    adverse_buy execution_cost fill max_opt min_opt zone_price wait_for_entry lose_zone reclaim_zone
    hit_trigger entry_phase enter make_event ends_with exit_phase take_targets ◌+ℤ◌ Decimal.lt
    Decimal.le Decimal.abs Decimal.add Decimal.div Decimal.excess Decimal.half_even Decimal.max
    Decimal.min Decimal.mul Decimal.neg Decimal.num_digits Decimal.quotient Decimal.round
    Decimal.round_nat Decimal.sub ◌*ℤ◌ ◌-ℤ◌
batch_run = refl

run_bars-redelivered_example :
    run_bars filled.0 (above ∷ touch ∷ above ∷ []) ctx_long ≡ ok (filled.0, [])
run_bars-redelivered_example =
    run_bars-redelivered waiting batch (above ∷ touch ∷ above ∷ []) ctx_long filled.0 filled.1
      batch_run (Memᴰ.tail (Memᴰ.head refl), (Memᴰ.head refl, (Memᴰ.tail (Memᴰ.head refl), tt)))
