-- ===== src/Fills/Moves.antt =====
-- src/core/fills/v1/engine.py: prices, costs and the three ways in and out of a position (`_fill`,
-- `_invalidate`, `_close`), over the prices of a LONG order. `decimal` arithmetic runs under `V1_CONTEXT` (`Decimal`).
use research_platform.Prelude.{
  ℕ, Bool, true, false, not, ◌&&◌, Option, none, some, String, List, [], ◌∷◌, ltb, if◌then◌else◌,
}
use research_platform.Result.{Result, ok, type_error, ◌>>=◌, or_raise}
use research_platform.Decimal
use research_platform.Decimal.{Decimal, zero_decimal, from_ℕ}
use research_platform.Calendar.{next_expected_minute}
use research_platform.Domain.Values.{Value, Fields, field, end}
use research_platform.Domain.Signal.{Direction, long, short, Bar, SignalSpec}
use research_platform.Domain.Order.{
  OrderStatus, EventType, CloseReason, EntryPath, OrderContext, OrderState, Event, named,
  make_event,
}

-- A state with the events that led to it.
abbrev pub Outcome : Type 0
Outcome = OrderState × List Event

-- `bps_base`
abbrev bps_base : Decimal
bps_base = from_ℕ 10000

unfoldable pub adverse_buy : Decimal → Decimal → Decimal
adverse_buy price bps =
    Decimal.add price (Decimal.quotient (Decimal.mul (Decimal.abs price) bps) bps_base)

unfoldable pub adverse_sell : Decimal → Decimal → Decimal
adverse_sell price bps =
    Decimal.sub price (Decimal.quotient (Decimal.mul (Decimal.abs price) bps) bps_base)

-- `_min` and `_max`
unfoldable pub min_opt : Option Decimal → Decimal → Decimal
min_opt none value = value
min_opt (some current) value = Decimal.min current value

unfoldable pub max_opt : Option Decimal → Decimal → Decimal
max_opt none value = value
max_opt (some current) value = Decimal.max current value

-- The argument `leg` of `_execution_cost`.
pub data Leg : Type 0 where
  entry exit : Leg

-- A LONG order sells on exit, a SHORT order on entry.
abbrev pub is_sell : Direction → Leg → Bool
is_sell long exit = true
is_sell long entry = false
is_sell short entry = true
is_sell short exit = false

unfoldable pub execution_cost : OrderContext → (price qty : Decimal) → Leg → Decimal
execution_cost ctx price qty leg =
    let c = ctx.config in
    let commission = c.commission_per_execution in
    let with_sec =
      Decimal.add commission (Decimal.mul (Decimal.mul (Decimal.abs price) qty) c.sec_fee_rate) in
    let with_taf =
      Decimal.add with_sec (Decimal.min (Decimal.mul qty c.taf_fee_per_share) c.taf_fee_max) in
    if c.sec_taf_fees_enabled && is_sell ctx.signal.direction leg then with_taf else commission

abbrev pub before_opt : ℕ → Option ℕ → Bool
before_opt t none = false
before_opt t (some from) = ltb t from

-- `_eligible`, from the trigger test on.
abbrev pub trigger_effective : Option Decimal → Option ℕ → Bar → OrderContext → Result Bool
trigger_effective none hit_at bar ctx = ok true
trigger_effective (some _) none bar ctx = ok false
trigger_effective (some _) (some hit_at) bar ctx =
    next_expected_minute ctx.calendar hit_at >>= λ from. ok (not (ltb bar.ts from))

unfoldable pub eligible : OrderState → Bar → SignalSpec → OrderContext → Result Bool
eligible state bar signal ctx =
    if state.zone_lost
    then ok false
    else if before_opt bar.ts state.entry_eligible_from
    then ok false
    else trigger_effective signal.trigger_price state.trigger_hit_at bar ctx

-- `_invalidate`
unfoldable pub invalidate : OrderState → Bar → String → Result Outcome
unfolding make_event
invalidate state bar reason = do
  event ← make_event (record {
    type = EventType.invalidated;
    event_key = named EventType.invalidated;
    bar_ts = some bar.ts;
    price = none;
    qty = none;
    bar_batch_id = bar.batch_id;
    payload = field "reason" (Value.str reason) end;
  })
  ok (record state { status = OrderStatus.invalidated; final_event_ts = some bar.ts }, event ∷ [])

abbrev pub entry_path_name : EntryPath → String
entry_path_name EntryPath.direct = "DIRECT"
entry_path_name EntryPath.reclaimed = "RECLAIMED"

-- `_fill`
unfoldable pub fill :
    OrderState → Bar → SignalSpec → OrderContext → Decimal → String → Result Outcome
unfolding make_event
fill state bar signal ctx raw_price rule = do
  let price = adverse_buy raw_price ctx.config.entry_slippage_bps
  qty ← Decimal.div ctx.config.risk_amount (Decimal.sub price signal.stop)
  let cost = execution_cost ctx price qty entry
  let path = if state.zone_ever_lost then EntryPath.reclaimed else EntryPath.direct
  event ← make_event (record {
    type = EventType.filled;
    event_key = named EventType.filled;
    bar_ts = some bar.ts;
    price = some price;
    qty = some qty;
    bar_batch_id = bar.batch_id;
    payload = field "rule" (Value.str rule) (
        field "entry_path" (Value.enum (entry_path_name path))
          (field "raw_price" (Value.decimal raw_price) (field "cost" (Value.decimal cost) end)));
  })
  ok (
    record state {
      status = OrderStatus.opened;
      avg_entry = some price;
      initial_stop = some signal.stop;
      stop_current = some signal.stop;
      qty_total = qty;
      qty_open = qty;
      costs = Decimal.add state.costs cost;
      entry_path = some path;
      opened_at = some bar.ts;
      best_price = some price;
    },
    event ∷ [],
  )

-- `{**extra, "pnl": pnl, "cost": cost}`
abbrev pub with_result : Fields → Decimal → Decimal → Fields
with_result end pnl cost = field "pnl" (Value.decimal pnl) (field "cost" (Value.decimal cost) end)
with_result (field k v rest) pnl cost = field k v (with_result rest pnl cost)

-- `_close`
unfoldable pub close_order :
    OrderState → Bar → OrderContext → EventType → Decimal → CloseReason → Fields → Result Outcome
unfolding make_event
close_order state bar ctx event_type price reason extra = do
  let qty = state.qty_open
  avg_entry ← or_raise state.avg_entry type_error
  let pnl = Decimal.mul (Decimal.sub price avg_entry) qty
  let cost = execution_cost ctx price qty exit
  event ← make_event (record {
    type = event_type;
    event_key = named event_type;
    bar_ts = some bar.ts;
    price = some price;
    qty = some qty;
    bar_batch_id = bar.batch_id;
    payload = with_result extra pnl cost;
  })
  ok (
    record state {
      status = OrderStatus.closed;
      qty_open = zero_decimal;
      realized_pnl = Decimal.add state.realized_pnl pnl;
      costs = Decimal.add state.costs cost;
      close_reason = some reason;
      closed_at = some bar.ts;
      final_event_ts = some bar.ts;
    },
    event ∷ [],
  )
