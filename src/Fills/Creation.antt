-- ===== src/Fills/Creation.antt =====
-- src/core/fills/v1/engine.py: `new_order_state`, with the payloads of src/core/domain/models.py and the
-- window hash of src/core/domain/calendar.py. `digest` is `sha256_hex`.
use text.Mathlib.Text.{◌==◌ as str_eq}
use research_platform.Prelude.{
  ℕ, Bool, true, false, ◌||◌, Option, none, some, String, List, [], ◌∷◌,
}
use research_platform.Prelude.Int.{pos}
use research_platform.Result.{Result, ok, value_error, ◌>>=◌, ◌>>◌, guard, raise_if}
use research_platform.Calendar.{SessionCalendar, Session, calendar_window}
use research_platform.Domain.Values.{Value, Items, nil, cons, Fields, field, end, optional}
use research_platform.Domain.Signal.{Direction, long, short, ZoneLostPolicy, SignalSpec, FillConfig}
use research_platform.Domain.Order.{
  OrderStatus, EventType, GatingState, OrderContext, OrderState, default_state, named, make_event,
}
use research_platform.Fills.Moves.{Outcome}

abbrev pub direction_name : Direction → String
direction_name long = "LONG"
direction_name short = "SHORT"

abbrev status_name : OrderStatus → String
status_name OrderStatus.pending = "PENDING"
status_name OrderStatus.opened = "OPEN"
status_name OrderStatus.partial = "PARTIAL"
status_name OrderStatus.closed = "CLOSED"
status_name OrderStatus.expired = "EXPIRED"
status_name OrderStatus.invalidated = "INVALIDATED"
status_name OrderStatus.canceled = "CANCELED"

abbrev policy_name : ZoneLostPolicy → String
policy_name ZoneLostPolicy.reclaim = "RECLAIM"
policy_name ZoneLostPolicy.cancel = "CANCEL"

-- `GatingState.as_payload`
unfoldable pub gating_payload : GatingState → Fields
gating_payload g = field "status" (Value.enum (status_name g.status)) (
    field "zone_lost" (Value.flag g.zone_lost) (
      field "entry_eligible_from" (optional Value.instant g.entry_eligible_from)
        (field "trigger_hit_at" (optional Value.instant g.trigger_hit_at) end)))

-- `SignalSpec.as_payload`
unfoldable pub signal_payload : SignalSpec → Fields
signal_payload s = field "ticker" (Value.str s.ticker) (
    field "direction" (Value.enum (direction_name s.direction)) (
      field "entry_zone_low" (Value.decimal s.entry_zone_low) (
        field "entry_zone_high" (Value.decimal s.entry_zone_high) (
          field "stop" (Value.decimal s.stop) (
            field "target1" (Value.decimal s.target1) (
              field "target2" (optional Value.decimal s.target2) (
                field "trigger_price" (optional Value.decimal s.trigger_price)
                  (field "valid_sessions" (Value.int s.valid_sessions) end))))))))

-- `FillConfig.snapshot`
unfoldable pub config_payload : FillConfig → Fields
config_payload c = field "risk_amount" (Value.decimal c.risk_amount) (
    field "entry_slippage_bps" (Value.decimal c.entry_slippage_bps) (
      field "stop_slippage_bps" (Value.decimal c.stop_slippage_bps) (
        field "commission_per_execution" (Value.decimal c.commission_per_execution) (
          field "sec_taf_fees_enabled" (Value.flag c.sec_taf_fees_enabled) (
            field "sec_fee_rate" (Value.decimal c.sec_fee_rate) (
              field "taf_fee_per_share" (Value.decimal c.taf_fee_per_share) (
                field "taf_fee_max" (Value.decimal c.taf_fee_max) (
                  field "zone_lost_policy" (Value.enum (policy_name c.zone_lost_policy)) (
                    field "target1_scale_out_pct" (Value.decimal c.target1_scale_out_pct) (
                      field "data_gap_minutes" (Value.int (pos c.data_gap_minutes)) (
                        field "crosscheck_tolerance_pct" (Value.decimal c.crosscheck_tolerance_pct)
                          (field "dividend_tolerance" (Value.decimal c.dividend_tolerance)
                            end))))))))))))

abbrev session_items : List Session → Items
session_items [] = nil
session_items (s ∷ ss) =
    cons
      (Value.dict (
        field "day" (Value.date s.day) (
          field "open_utc" (Value.instant s.open_utc)
            (field "close_utc" (Value.instant s.close_utc) end))))
      (session_items ss)

unfoldable pub calendar_window_hash :
    (Value → String) → SessionCalendar → (start until : ℕ) → Result String
calendar_window_hash digest cal start until =
    calendar_window cal start until >>= λ window. ok (digest (Value.items (session_items window)))

abbrev pub has_key : String → Fields → Bool
has_key key end = false
has_key key (field k v rest) = str_eq k key || has_key key rest

-- `set(extra_payload) & set(payload)` is not empty.
unfoldable pub share_key : Fields → Fields → Bool
share_key end payload = false
share_key (field k v rest) payload = has_key k payload || share_key rest payload

-- `payload.update(extra)` where the two share no key.
abbrev pub extend : Fields → Fields → Fields
extend end extra = extra
extend (field k v rest) extra = field k v (extend rest extra)

abbrev is_pending_status : OrderStatus → Bool
is_pending_status OrderStatus.pending = true
is_pending_status _ = false

abbrev pub initial_state : OrderContext → OrderState
initial_state ctx = record default_state {
  initial_stop = some ctx.signal.stop;
  stop_current = some ctx.signal.stop;
}

abbrev is_present : Option ℕ → Bool
is_present none = false
is_present (some _) = true

-- The state after the gating of a signal is taken over.
unfoldable pub inherit : OrderContext → Option GatingState → Result OrderState
inherit ctx none = ok (initial_state ctx)
inherit ctx (some g) = do
  guard (is_pending_status g.status) value_error
  ok (record (initial_state ctx) {
    zone_lost = g.zone_lost;
    zone_ever_lost = g.zone_lost || is_present g.entry_eligible_from;
    entry_eligible_from = g.entry_eligible_from;
    trigger_hit_at = g.trigger_hit_at;
  })

abbrev inherited_payload : Option GatingState → Value
inherited_payload none = Value.null
inherited_payload (some g) = Value.dict (gating_payload g)

abbrev inherited_hash : (Value → String) → Option GatingState → Value
inherited_hash digest none = Value.null
inherited_hash digest (some g) = Value.str (digest (Value.dict (gating_payload g)))

unfoldable pub creation_payload :
    (Value → String) → OrderContext → Option GatingState → String → Fields
creation_payload digest ctx inherited window_hash = field "fill_model_version" (Value.str "v1") (
    field "signal" (Value.dict (signal_payload ctx.signal)) (
      field "config" (Value.dict (config_payload ctx.config)) (
        field "evaluation_start_ts" (Value.instant ctx.evaluation_start_ts) (
          field "valid_until_ts" (Value.instant ctx.valid_until_ts) (
            field "calendar_sessions_hash" (Value.str window_hash) (
              field "inherited_signal_state" (inherited_payload inherited)
                (field "inherited_signal_state_hash" (inherited_hash digest inherited) end)))))))

-- `extra` is `end` for `None`.
unfoldable pub new_order_state :
    (Value → String) → OrderContext → Option GatingState → (extra : Fields) → Result Outcome
unfolding make_event
new_order_state digest ctx inherited extra = do
  state ← inherit ctx inherited
  window_hash ← calendar_window_hash digest ctx.calendar ctx.evaluation_start_ts ctx.valid_until_ts
  let payload = creation_payload digest ctx inherited window_hash
  raise_if (share_key extra payload) value_error
  event ← make_event (record {
    type = EventType.order_created;
    event_key = named EventType.order_created;
    bar_ts = none;
    price = none;
    qty = none;
    bar_batch_id = none;
    payload = extend payload extra;
  })
  ok (state, event ∷ [])
