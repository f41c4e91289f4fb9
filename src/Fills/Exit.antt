-- ===== src/Fills/Exit.antt =====
-- src/core/fills/v1/engine.py: `_exit_phase` and `_validity_end`, over the prices of a LONG order.
use research_platform.Prelude.{
  Bool, true, false, not, ◌&&◌, ◌||◌, Option, none, some, String, List, [], ◌∷◌, ◌++◌,
  if◌then◌else◌,
}
use research_platform.Result.{Result, ok, err, type_error, assertion_error, ◌>>=◌, or_raise}
use research_platform.Decimal
use research_platform.Decimal.{Decimal, from_ℕ}
use research_platform.Calendar.{next_expected_minute}
use research_platform.Domain.Values.{Value, Fields, field, end}
use research_platform.Domain.Signal.{Bar, SignalSpec}
use research_platform.Domain.Order.{
  OrderStatus, EventType, CloseReason, OrderContext, OrderState, Event, named, make_event,
}
use research_platform.Fills.Moves.{
  Outcome, adverse_sell, min_opt, max_opt, exit, execution_cost, before_opt, close_order,
}

-- The stop that a bar is tested against: the previous one until the new one is active.
abbrev pub effective_stop : OrderState → Bar → Option Decimal
effective_stop state bar =
    if before_opt bar.ts state.stop_active_from then state.stop_previous else state.stop_current

-- The excursion fields after a bar.
abbrev pub with_extremes : OrderState → Bar → Bool → OrderState
with_extremes state bar keep_best = record state {
  best_price = if keep_best then state.best_price else some (max_opt state.best_price bar.high);
  worst_price = some (min_opt state.worst_price bar.low);
}

abbrev stop_kind : Bool → String
stop_kind t1_done = if t1_done then "BREAKEVEN" else "INITIAL"

-- The branch `if stop_triggered`.
unfoldable pub stop_out : OrderState → Bar → OrderContext → Decimal → Result Outcome
stop_out state bar ctx stop_level =
    let raw_price = Decimal.min bar.open_price stop_level in
    close_order state bar ctx EventType.stopped
      (adverse_sell raw_price ctx.config.stop_slippage_bps) CloseReason.stopped
      (field "stop_kind" (Value.str (stop_kind state.t1_done)) (
        field "stop_level" (Value.decimal stop_level)
          (field "raw_price" (Value.decimal raw_price) end)))

abbrev pub final_flag : Fields
final_flag = field "final" (Value.flag true) end

-- TARGET1 with a second target: part of the position is sold and the stop moves to the entry.
unfoldable pub scale_out : OrderState → Bar → SignalSpec → OrderContext → Result Outcome
unfolding make_event
scale_out state bar signal ctx = do
  let qty =
      Decimal.quotient (Decimal.mul state.qty_total ctx.config.target1_scale_out_pct) (from_ℕ 100)
  avg_entry ← or_raise state.avg_entry type_error
  let pnl = Decimal.mul (Decimal.sub signal.target1 avg_entry) qty
  let cost = execution_cost ctx signal.target1 qty exit
  active_from ← next_expected_minute ctx.calendar bar.ts
  event ← make_event (record {
    type = EventType.target1_hit;
    event_key = named EventType.target1_hit;
    bar_ts = some bar.ts;
    price = some signal.target1;
    qty = some qty;
    bar_batch_id = bar.batch_id;
    payload = field "final" (Value.flag false) (
        field "pnl" (Value.decimal pnl) (
          field "cost" (Value.decimal cost) (
            field "new_stop_level" (Value.decimal avg_entry)
              (field "stop_active_from" (Value.instant active_from) end))));
  })
  ok (
    record state {
      status = OrderStatus.partial;
      t1_done = true;
      qty_open = Decimal.sub state.qty_open qty;
      realized_pnl = Decimal.add state.realized_pnl pnl;
      costs = Decimal.add state.costs cost;
      stop_previous = state.stop_current;
      stop_current = some avg_entry;
      stop_active_from = some active_from;
    },
    event ∷ [],
  )

-- TARGET2 closes what is left, after TARGET1 on an earlier bar or on this one.
unfoldable pub second_target :
    OrderState → List Event → Bar → OrderContext → Option Decimal → Result Outcome
second_target state events bar ctx none = ok (state, events)
second_target state events bar ctx (some target2) =
    if state.t1_done && Decimal.le target2 bar.high
    then (close_order state bar ctx EventType.target2_hit target2 CloseReason.target_final
          final_flag
        >>= λ o. ok (o.0, events ++ o.1))
    else ok (state, events)

-- TARGET1: the whole position without a second target, else a part of it.
unfoldable pub first_target :
    OrderState → Bar → SignalSpec → OrderContext → Option Decimal → Result Outcome
first_target state bar signal ctx none =
    close_order state bar ctx EventType.target1_hit signal.target1 CloseReason.target_final
      final_flag
first_target state bar signal ctx (some target2) =
    scale_out state bar signal ctx >>= λ o. second_target o.0 o.1 bar ctx (some target2)

unfoldable pub take_targets : OrderState → Bar → SignalSpec → OrderContext → Result Outcome
take_targets state bar signal ctx =
    if not state.t1_done && Decimal.le signal.target1 bar.high
    then first_target state bar signal ctx signal.target2
    else second_target state [] bar ctx signal.target2

-- `_exit_phase`: stop first, then the targets; the entry bar tests the stop alone.
unfoldable pub exit_phase : OrderState → Bar → SignalSpec → OrderContext → Bool → Result Outcome
exit_phase state bar signal ctx entry_bar = do
  stop_level ← or_raise (effective_stop state bar) type_error
  let stop_triggered = Decimal.le bar.low stop_level
  let after = with_extremes state bar (entry_bar || stop_triggered)
  if stop_triggered
      then stop_out after bar ctx stop_level
      else if entry_bar
      then ok (after, [])
      else take_targets after bar signal ctx

-- `_validity_end` of an order that is not filled.
unfoldable pub expire : OrderState → OrderContext → Result Outcome
unfolding make_event
expire state ctx = do
  event ← make_event (record {
    type = EventType.expired;
    event_key = named EventType.expired;
    bar_ts = none;
    price = none;
    qty = none;
    bar_batch_id = none;
    payload = field "valid_until_ts" (Value.instant ctx.valid_until_ts) end;
  })
  ok (
    record state { status = OrderStatus.expired; final_event_ts = some ctx.valid_until_ts },
    event ∷ [],
  )

-- `_validity_end` of a position: it is closed at the bar's close.
unfoldable pub time_exit : OrderState → Option Bar → OrderContext → Result Outcome
time_exit state none ctx = err assertion_error
time_exit state (some bar) ctx =
    close_order state bar ctx EventType.time_exit
      (adverse_sell bar.close ctx.config.stop_slippage_bps) CloseReason.time_exit
      (field "raw_price" (Value.decimal bar.close) end)

abbrev pub is_pending : OrderStatus → Bool
is_pending OrderStatus.pending = true
is_pending _ = false

-- `_validity_end`
unfoldable pub validity_end : OrderState → Option Bar → OrderContext → Result Outcome
validity_end state bar ctx =
    if is_pending state.status then expire state ctx else time_exit state bar ctx
