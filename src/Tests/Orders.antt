-- ===== src/Tests/Orders.antt =====
-- src/core/fills/v1/engine.py at concrete orders and bars.
use research_platform.Prelude.{ℕ, ◌≡◌, refl, true, false, none, some, [], ◌∷◌, arith}
use research_platform.Prelude.Int.{pos, ◌*ℤ◌, ◌-ℤ◌}
use research_platform.Result.{ok, Ensures}
use research_platform.Decimal
use research_platform.Decimal.{Decimal, zero_decimal, from_ℕ}
use research_platform.Calendar.{Datetime, is_expected_minute, last_expected_minute_before}
use research_platform.Domain.Signal.{long, ZoneLostPolicy, Bar, SignalSpec, FillConfig}
use research_platform.Domain.Order.{OrderStatus, OrderContext, OrderState, default_state, iso_date}
use research_platform.Fills.Moves.{eligible}
use research_platform.Fills.Entry.{
  zone_price, wait_for_entry, lose_zone, reclaim_zone, hit_trigger, entry_phase,
}
use research_platform.Fills.Engine.{
  phase, close_validity, process, advance, step, run_bars, freeze, apply_validity_end,
}
use research_platform.Fills.Invariant.Shape.{IsWellFormed, Safe}
use research_platform.Fills.Invariant.Steps.{step-Safe, run_bars-Safe}
use research_platform.Fills.EventLog.View.{view}
use research_platform.Fills.EventLog.Exits.{Logged}
use research_platform.Fills.EventLog.Runs.{run_bars-Logged}
use mathlib.Core.List.Perm
use research_platform.Fills.Replay.Redelivery.{step_twice}
use research_platform.Fills.Replay.Order.{then_run}
use research_platform.Fills.Replay.Window.{run_bars-window}
use research_platform.Fills.Commands.Endings.{IsSettled, apply_validity_end-IsSettled}
use research_platform.Tests.Calendars.{two_days}

-- Enter between 100 and 101, stop at 99, targets at 103 and 105.
abbrev pub buy : SignalSpec
buy = record {
  ticker = "AAPL";
  direction = long;
  entry_zone_low = from_ℕ 100;
  entry_zone_high = from_ℕ 101;
  stop = from_ℕ 99;
  target1 = from_ℕ 103;
  target2 = some (from_ℕ 105);
  trigger_price = none;
  valid_sessions = pos 2;
}

abbrev pub plain : FillConfig
plain = record {
  risk_amount = from_ℕ 100;
  entry_slippage_bps = from_ℕ 5;
  stop_slippage_bps = from_ℕ 10;
  commission_per_execution = from_ℕ 1;
  sec_taf_fees_enabled = false;
  sec_fee_rate = zero_decimal;
  taf_fee_per_share = zero_decimal;
  taf_fee_max = zero_decimal;
  zone_lost_policy = ZoneLostPolicy.reclaim;
  target1_scale_out_pct = from_ℕ 50;
  data_gap_minutes = 5;
  crosscheck_tolerance_pct = from_ℕ 1;
  dividend_tolerance = from_ℕ 1;
}

abbrev pub ctx_long : OrderContext
ctx_long = record {
  signal = buy;
  config = plain;
  calendar = two_days;
  evaluation_start_ts = 600_000_000;
  valid_until_ts = 840_000_000;
}

abbrev pub waiting : OrderState
waiting = record default_state { stop_current = some (from_ℕ 99) }

waiting-IsWellFormed : IsWellFormed waiting
waiting-IsWellFormed = record { shape = (refl, refl, refl, refl); has_stop = tt; stop_pair = tt }

abbrev pub bar_of : (ts open_price high low close : ℕ) → Bar
bar_of ts open_price high low close = record {
  ts = ts;
  open_price = from_ℕ open_price;
  high = from_ℕ high;
  low = from_ℕ low;
  close = from_ℕ close;
  volume = from_ℕ 1000;
  batch_id = none;
}

-- Above the zone, then into it, then down to the stop.
abbrev pub above : Bar
above = bar_of 600_000_000 104 105 103 104

abbrev pub touch : Bar
touch = bar_of 660_000_000 102 102 100 101

abbrev pub drop : Bar
drop = bar_of 720_000_000 100 100 97 98

step-Safe_example : Safe IsWellFormed (step waiting touch ctx_long)
step-Safe_example = step-Safe waiting touch ctx_long waiting-IsWellFormed

run_bars-Safe_example : Safe IsWellFormed (run_bars waiting (drop ∷ touch ∷ above ∷ []) ctx_long)
run_bars-Safe_example =
    run_bars-Safe waiting (drop ∷ touch ∷ above ∷ []) ctx_long waiting-IsWellFormed

run_bars-Logged_example :
    Ensures (Logged (view waiting)) (run_bars waiting (above ∷ touch ∷ drop ∷ []) ctx_long)
run_bars-Logged_example = run_bars-Logged waiting (above ∷ touch ∷ drop ∷ []) ctx_long

-- The whole window again, its bars in another order, after the first two.
run_bars-window_example :
    run_bars waiting (drop ∷ above ∷ touch ∷ []) ctx_long
    ≡ then_run
        (run_bars waiting (above ∷ touch ∷ []) ctx_long)
        (λ t. run_bars t (drop ∷ above ∷ touch ∷ []) ctx_long)
run_bars-window_example =
    run_bars-window waiting (above ∷ touch ∷ []) (drop ∷ []) (drop ∷ above ∷ touch ∷ []) ctx_long
      ((omega arith, tt), ((omega arith, tt), tt))
      ((omega arith, (omega arith, tt)), ((omega arith, tt), (tt, tt)))
      (Perm.trans (Perm.cons above (Perm.swap drop touch [])) (Perm.swap drop above (touch ∷ [])))

-- The bar above the zone changes nothing but the last bar.
above_seen :
    step waiting above ctx_long ≡ ok (record waiting { last_bar_ts = some 600_000_000 }, [])
unfolding step advance process phase entry_phase close_validity is_expected_minute
    last_expected_minute_before Decimal.lt Decimal.le eligible zone_price wait_for_entry lose_zone
    reclaim_zone hit_trigger ◌*ℤ◌ ◌-ℤ◌
above_seen = refl

step_twice_example :
    step (record waiting { last_bar_ts = some 600_000_000 }) above ctx_long
    ≡ ok (record waiting { last_bar_ts = some 600_000_000 }, [])
step_twice_example =
    step_twice waiting above ctx_long (record waiting { last_bar_ts = some 600_000_000 }) []
      above_seen

-- A frozen order with the reason of the freeze.
abbrev halted : OrderState
halted = record waiting {
  frozen = true;
  frozen_reasons = "SPLIT" ∷ [];
  review_reasons = "SPLIT" ∷ [];
}

halted_again : freeze halted "SPLIT" (iso_date 1) ≡ ok (halted, [])
unfolding freeze
halted_again = refl

abbrev holding : OrderState
holding = record waiting {
  status = OrderStatus.opened;
  avg_entry = some (from_ℕ 101);
  opened_at = some 660_000_000;
  qty_open = from_ℕ 50;
}

apply_validity_end-IsSettled_example :
    Ensures IsSettled (apply_validity_end holding ctx_long none (Datetime.aware 900_000_000))
apply_validity_end-IsSettled_example =
    apply_validity_end-IsSettled holding ctx_long none 900_000_000 (omega arith) refl
