-- ===== src/Tests/Decisions.antt =====
-- Validation, creation, actionability, data quality and the ledger at concrete inputs.
use research_platform.Prelude.{
  ℕ, ◌+◌, ◌≡◌, refl, none, some, String, List, [], ◌∷◌, ◌++◌, length, arith,
}
use research_platform.Prelude.Int.{◌*ℤ◌, ◌-ℤ◌}
use research_platform.Prelude.Sort.{sort_by}
use research_platform.Result.{ok, Ensures}
use research_platform.Decimal
use research_platform.Calendar.{
  Datetime, is_expected_minute, is_session_close, last_expected_minute_before, next_expected_minute,
  evaluation_start_ts, calendar_window, expected_minutes,
}
use research_platform.Domain.Values.{Value, end}
use research_platform.Domain.Order.{
  EventType, OrderStatus, Event, named, make_context, gating_state,
}
use research_platform.Decimal.{from_ℕ}
use research_platform.Domain.Signal.{SignalSpec, short}
use research_platform.Domain.Validation.{validate_signal}
use mathlib.Core.Logic.{◌↔◌}
use research_platform.Domain.Validation.Tradable.{IsTradable, validate_signal-IsTradable}
use research_platform.Fills.Engine.{run_bars}
use research_platform.Fills.Creation.{
  new_order_state, inherit, initial_state, calendar_window_hash, creation_payload, extend,
  share_key,
}
use research_platform.Fills.Invariant.Shape.{IsWellFormed, Safe}
use research_platform.Fills.Invariant.Creation.{new_order_state-run_bars}
use research_platform.Actionability.{
  FillModel, fill_v1, ActionabilityReason, ManualOrder, Manual, signal_actionability,
  build_manual_order, open_manual, partial_bar_audit,
}
use research_platform.Actionability.Bars.{signal_actionability-append}
use research_platform.Actionability.Orders.{IsTimely, build_manual_order-IsTimely}
use research_platform.Quality.{SessionQuality, session_quality, find_gaps}
use research_platform.Quality.Gaps.{total_minutes, find_gaps-total_minutes}
use research_platform.Quality.Sessions.{
  total_expected, total_missing, count_absent, session_quality-count_absent,
}
use research_platform.Ledger.{
  PreparedEvent, EventItem, done, dedupe_events, dedupe_prepared, append_events, insert_events,
}
use research_platform.Ledger.Idempotent.{append_events_twice}
use research_platform.Tests.Calendars.{two_days, two_days-IsValid}
use research_platform.Domain.Order.Context.{IsCovered, make_context-IsCovered}
use research_platform.Tests.Orders.{plain, buy, ctx_long, waiting, above, touch, drop}

abbrev pub same_text : String → String
same_text s = s

buy_valid : validate_signal same_text buy ≡ []
unfolding validate_signal Decimal.le Decimal.lt ◌*ℤ◌ ◌-ℤ◌
buy_valid = refl

-- The mirror image: stop at 103, targets at 99 and 97.
abbrev sell : SignalSpec
sell = record buy {
  direction = short;
  stop = from_ℕ 103;
  target1 = from_ℕ 99;
  target2 = some (from_ℕ 97);
}

sell_valid : validate_signal same_text sell ≡ []
unfolding validate_signal Decimal.le Decimal.lt ◌*ℤ◌ ◌-ℤ◌
sell_valid = refl

validate_signal-IsTradable_example :
    (validate_signal same_text sell ≡ []) ↔ IsTradable same_text sell
validate_signal-IsTradable_example = validate_signal-IsTradable same_text sell

abbrev digest : Value → String
digest _ = "digest"

abbrev created : Event
created = record {
  type = EventType.order_created;
  event_key = named EventType.order_created;
  bar_ts = none;
  price = none;
  qty = none;
  bar_batch_id = none;
  payload = extend (creation_payload digest ctx_long none "digest") end;
}

order_created : new_order_state digest ctx_long none end ≡ ok (initial_state ctx_long, created ∷ [])
unfolding new_order_state inherit calendar_window_hash calendar_window share_key creation_payload
order_created = refl

new_order_state-run_bars_example :
    Safe IsWellFormed (run_bars (initial_state ctx_long) (above ∷ touch ∷ drop ∷ []) ctx_long)
new_order_state-run_bars_example =
    new_order_state-run_bars digest ctx_long none end (initial_state ctx_long) (created ∷ [])
      (above ∷ touch ∷ drop ∷ []) order_created

signal_actionability-append_example :
    signal_actionability
      (fill_v1 digest)
      ctx_long
      ((above ∷ []) ++ touch ∷ drop ∷ [])
      (Datetime.aware 700_000_000)
    ≡ signal_actionability (fill_v1 digest) ctx_long (above ∷ []) (Datetime.aware 700_000_000)
signal_actionability-append_example =
    signal_actionability-append (fill_v1 digest) ctx_long (above ∷ []) (touch ∷ drop ∷ [])
      700_000_000 ((omega arith, (omega arith, tt)), tt) (omega arith, (omega arith, tt))

-- A fill model in which nothing happens.
abbrev quiet : FillModel
quiet = record {
  create = λ ctx inherited extra. ok (waiting, []);
  advance = λ s bar ctx. ok (s, []);
}

abbrev manual : ManualOrder
manual = record {
  context = ctx_long;
  created = (waiting, []);
  decision = record {
    reason = ActionabilityReason.is_actionable;
    hypothetical_status = OrderStatus.pending;
    gating = some (gating_state waiting);
  };
}

manual_built :
    build_manual_order quiet ctx_long (above ∷ []) (Datetime.aware 600_000_000) end
    ≡ ok (Manual.accepted manual)
unfolding build_manual_order signal_actionability open_manual partial_bar_audit evaluation_start_ts
    make_context is_expected_minute sort_by
manual_built = refl

build_manual_order-IsTimely_example : IsTimely ctx_long 600_000_000 manual
build_manual_order-IsTimely_example =
    build_manual_order-IsTimely quiet ctx_long (above ∷ []) 600_000_000 end manual two_days-IsValid
      manual_built

find_gaps-total_minutes_example :
    Ensures
      (λ gs. total_minutes gs ≡ 3)
      (find_gaps two_days (660_000_000 ∷ 600_000_000 ∷ 780_000_000 ∷ []) 1)
find_gaps-total_minutes_example =
    find_gaps-total_minutes two_days (660_000_000 ∷ 600_000_000 ∷ 780_000_000 ∷ [])

session_quality-count_absent_example :
    (ms : List ℕ) × (table : List SessionQuality) × (expected_minutes two_days 600_000_000
        1_260_000_000
      ≡ ok ms)
    × (session_quality two_days 600_000_000 1_260_000_000 (660_000_000 ∷ []) ≡ ok table)
    × (total_expected table ≡ length ms)
    × (total_missing table ≡ count_absent (660_000_000 ∷ []) ms)
session_quality-count_absent_example =
    session_quality-count_absent two_days 600_000_000 1_260_000_000 (660_000_000 ∷ [])
      two_days-IsValid (omega arith) (omega arith)

abbrev note : PreparedEvent
note = record {
  type = EventType.needs_review;
  event_key = "NEEDS_REVIEW";
  bar_ts = none;
  price = none;
  qty = none;
  bar_batch_id = none;
  payload = end;
  hash_material = "{}";
  payload_hash = "44";
}

abbrev as_note : Event → PreparedEvent
as_note _ = note

note_fresh :
    dedupe_events as_note [] (EventItem.ready note ∷ []) 0
    ≡ done (note ∷ [], ("NEEDS_REVIEW", "44") ∷ [])
unfolding dedupe_events dedupe_prepared
note_fresh = refl

note_appended :
    append_events as_note [] 0 (EventItem.ready note ∷ []) 7
    ≡ done (
      record { inserted = note ∷ []; first_seq = 7; next_seq = 8 },
      record { seq = 7; prepared = note } ∷ [],
    )
unfolding append_events dedupe_events dedupe_prepared insert_events
note_appended = refl

append_events_twice_example :
    append_events as_note (record { seq = 7; prepared = note } ∷ []) 0 (EventItem.ready note ∷ []) 8
    ≡ done (
      record { inserted = []; first_seq = 8; next_seq = 8 + 0 },
      record { seq = 7; prepared = note } ∷ [],
    )
append_events_twice_example =
    append_events_twice as_note [] 0 7 8 (EventItem.ready note ∷ [])
      (record { inserted = note ∷ []; first_seq = 7; next_seq = 8 })
      (record { seq = 7; prepared = note } ∷ []) note_appended

context_made : make_context buy plain two_days 600_000_000 840_000_000 ≡ ok ctx_long
unfolding make_context is_expected_minute is_session_close last_expected_minute_before
    next_expected_minute
context_made = refl

make_context-IsCovered_example : IsCovered two_days ctx_long
make_context-IsCovered_example =
    make_context-IsCovered buy plain two_days 600_000_000 840_000_000 ctx_long two_days-IsValid
      context_made
