-- ===== src/Fills/Entry.antt =====
-- src/core/fills/v1/engine.py: `_entry_phase`, over the prices of a LONG order.
use research_platform.Prelude.{
  true, false, not, ◌&&◌, ◌||◌, Option, none, some, String, List, [], ◌∷◌, ◌++◌, if◌then◌else◌,
}
use research_platform.Result.{Result, ok, ◌>>=◌}
use research_platform.Decimal
use research_platform.Decimal.{Decimal}
use research_platform.Calendar.{next_expected_minute}
use research_platform.Domain.Values.{Value, field, end}
use research_platform.Domain.Signal.{ZoneLostPolicy, Bar, SignalSpec}
use research_platform.Domain.Order.{
  EventType, OrderContext, OrderState, Event, at_bar, named, make_event,
}
use research_platform.Fills.Moves.{Outcome, eligible, invalidate, fill}
use research_platform.Fills.Exit.{exit_phase}

-- The raw entry price and its rule, if the bar reaches the zone (rules 2 and 3).
unfoldable pub zone_price : Bar → SignalSpec → Option (Decimal × String)
zone_price bar signal =
    if Decimal.le signal.entry_zone_low bar.open_price
      && Decimal.le bar.open_price signal.entry_zone_high
    then some (bar.open_price, "ZONE_OPEN")
    else if Decimal.lt signal.entry_zone_high bar.open_price
        && Decimal.lt bar.low signal.entry_zone_high
    then some (signal.entry_zone_high, "ZONE_CROSS")
    else none

-- The trigger is effective from the next expected minute.
abbrev pub trigger_reached : OrderState → Bar → Option Decimal → Option Decimal
trigger_reached state bar none = none
trigger_reached state bar (some trigger) = elim state.trigger_hit_at [
  | none ↦ if Decimal.le trigger bar.high then some trigger else none
  | some _ ↦ none
]

abbrev pub record_hit : OrderState → List Event → Bar → Option Decimal → Result Outcome
record_hit state events bar none = ok (state, events)
record_hit state events bar (some trigger) = do
  event ← make_event (record {
    type = EventType.trigger_hit;
    event_key = named EventType.trigger_hit;
    bar_ts = some bar.ts;
    price = some trigger;
    qty = none;
    bar_batch_id = bar.batch_id;
    payload = end;
  })
  ok (record state { trigger_hit_at = some bar.ts }, events ++ event ∷ [])

unfoldable pub hit_trigger : OrderState → List Event → Bar → SignalSpec → Result Outcome
unfolding make_event
hit_trigger state events bar signal =
    record_hit state events bar (trigger_reached state bar signal.trigger_price)

-- Rule 6: the zone is reclaimed by a close at or above it.
unfoldable pub reclaim_zone :
    OrderState → List Event → Bar → SignalSpec → OrderContext → Result Outcome
unfolding make_event
reclaim_zone state events bar signal ctx =
    if state.zone_lost && Decimal.le signal.entry_zone_low bar.close
    then (do
      eligible_from ← next_expected_minute ctx.calendar bar.ts
      event ← make_event (record {
        type = EventType.zone_reclaimed;
        event_key = at_bar EventType.zone_reclaimed bar.ts;
        bar_ts = some bar.ts;
        price = none;
        qty = none;
        bar_batch_id = bar.batch_id;
        payload = field "entry_eligible_from" (Value.instant eligible_from) end;
      })
      hit_trigger (record state { zone_lost = false; entry_eligible_from = some eligible_from })
          (events ++ event ∷ []) bar signal)
    else hit_trigger state events bar signal

abbrev pub by_policy : ZoneLostPolicy → Result Outcome → Result Outcome → Result Outcome
by_policy ZoneLostPolicy.cancel canceled continued = canceled
by_policy ZoneLostPolicy.reclaim canceled continued = continued

-- Rule 5: the zone is lost only by an open or a close below it.
unfoldable pub lose_zone : OrderState → Bar → SignalSpec → OrderContext → Result Outcome
unfolding make_event
lose_zone state bar signal ctx =
    if not state.zone_lost
      && (Decimal.lt bar.open_price signal.entry_zone_low
          || Decimal.lt bar.close signal.entry_zone_low)
    then (do
      event ← make_event (record {
        type = EventType.zone_lost;
        event_key = at_bar EventType.zone_lost bar.ts;
        bar_ts = some bar.ts;
        price = none;
        qty = none;
        bar_batch_id = bar.batch_id;
        payload = field "zone_boundary_level" (Value.decimal signal.entry_zone_low) end;
      })
      let lost = record state { zone_lost = true; zone_ever_lost = true }
      by_policy ctx.config.zone_lost_policy
          (invalidate lost bar "ZONE_LOST_CANCEL" >>= λ o. ok (o.0, event ∷ o.1))
          (reclaim_zone lost (event ∷ []) bar signal ctx))
    else reclaim_zone state [] bar signal ctx

-- Rules 4 to 6 and the trigger.
unfoldable pub wait_for_entry : OrderState → Bar → SignalSpec → OrderContext → Result Outcome
wait_for_entry state bar signal ctx =
    if Decimal.le bar.low signal.stop
    then invalidate state bar "STOP_TOUCHED_WITHOUT_POSITION"
    else lose_zone state bar signal ctx

-- A fill, and the stop on the same bar.
unfoldable pub enter :
    OrderState → Bar → SignalSpec → OrderContext → Decimal × String → Result Outcome
enter state bar signal ctx (raw_price, rule) = do
  filled ← fill state bar signal ctx raw_price rule
  exited ← exit_phase filled.0 bar signal ctx true
  ok (exited.0, filled.1 ++ exited.1)

abbrev pub enter_or_wait :
    OrderState → Bar → SignalSpec → OrderContext → Option (Decimal × String) → Result Outcome
enter_or_wait state bar signal ctx none = wait_for_entry state bar signal ctx
enter_or_wait state bar signal ctx (some priced) = enter state bar signal ctx priced

-- `_entry_phase`
unfoldable pub entry_phase : OrderState → Bar → SignalSpec → OrderContext → Result Outcome
entry_phase state bar signal ctx =
    if Decimal.le bar.open_price signal.stop
    then invalidate state bar "OPEN_AT_OR_THROUGH_STOP"
    else eligible state bar signal ctx >>= λ allowed.
        enter_or_wait state bar signal ctx (if allowed then zone_price bar signal else none)
