-- ===== src/Tests/Alerts.antt =====
-- src/virtual_orders/alerts at a concrete outbox.
use research_platform.Prelude.{
  ℕ, ◌+◌, ◌-◌, ◌*◌, ◌≤◌, ◌≡◌, refl, ◌==◌, ◌/◌, if◌then◌else◌, true, false, none, some, String, List,
  [], ◌∷◌, ◌++◌, length, arith,
}
use text.Mathlib.Text.{◌==◌ as str_eq}
use research_platform.Calendar.{one_minute}
use research_platform.Domain.Values.{Fields, end}
use research_platform.Alerts.Outbox.{
  Outbox, Alert, AlertKind, Attempt, DeliveryRun, refused, overdue, expiries, backoff, alert_expiry,
  alert_envelope, enqueue_alert, deliver_pending_alerts,
}
use research_platform.Alerts.Outbox.Delivery.{
  attempts_id, backoff-bounds, deliver_pending_alerts-attempts, deliver_pending_alerts-counted,
}
use research_platform.Alerts.Outbox.Once.{
  IsWellFormed, Steps, done, next, enqueued, ran, empty_outbox, Steps-IsWellFormed,
}
use research_platform.Alerts.Scan.{Formats, EventRow, IncidentRow, enqueue_event_alerts}
use research_platform.Alerts.Scan.Twice.{enqueue_event_alerts_twice}

abbrev same_fields : Fields → Fields
same_fields d = d

-- A sink that refuses its first call, and a clock that stands still.
abbrev first_send : ℕ → Alert
first_send n = record {
  id = n;
  alert_key = "HEALTH:1";
  kind = AlertKind.health;
  subject = none;
  subject_ts = none;
  document = end;
  created_at = 0;
}

abbrev run : DeliveryRun
run = record {
  send = λ turn a. refused (some 503) "AlertDeliveryFailed";
  started = 0;
  monotonic = λ turn. 0;
  budget = 20_000_000;
}

abbrev one_alert : Outbox
one_alert = record { alerts = first_send 1 ∷ []; attempts = []; marks = []; next_id = 2 }

one_alert_added :
    (enqueue_alert same_fields 0 "HEALTH:1" AlertKind.health end none none empty_outbox).0
    ≡ record one_alert {
      alerts = record (first_send 1) { document = alert_envelope "HEALTH:1" "HEALTH" end } ∷ [];
    }
unfolding enqueue_alert
one_alert_added = refl

two_calls :
    Steps empty_outbox
      (deliver_pending_alerts run 50 one_minute
        (enqueue_alert same_fields 0 "HEALTH:1" AlertKind.health end none none empty_outbox).0).0
two_calls =
    next (enqueued same_fields 0 "HEALTH:1" AlertKind.health end none none)
      (next (ran run 50 one_minute) done)

Steps-IsWellFormed_example :
    IsWellFormed
      (deliver_pending_alerts run 50 one_minute
        (enqueue_alert same_fields 0 "HEALTH:1" AlertKind.health end none none empty_outbox).0).0
Steps-IsWellFormed_example =
    Steps-IsWellFormed
      (deliver_pending_alerts run 50 one_minute
        (enqueue_alert same_fields 0 "HEALTH:1" AlertKind.health end none none empty_outbox).0).0
      two_calls

id_once : (id : ℕ) → (if 1 == id then 1 else 0) ≤ 1
id_once id = ground arith

key_once : (key : String) → (if str_eq "HEALTH:1" key then 1 else 0) ≤ 1
key_once key = ground arith

one_alert-IsWellFormed : IsWellFormed one_alert
one_alert-IsWellFormed = record {
  ids_unique = id_once;
  ids_below = (omega arith, tt);
  keys_unique = key_once;
  settled_once = λ id. omega arith;
}

deliver_pending_alerts-attempts_example :
    (made : List Attempt) × ((deliver_pending_alerts run 50 (90 * one_minute) one_alert).0.attempts
      ≡ ([] ++ expiries (90 * one_minute) (overdue (90 * one_minute - alert_expiry) one_alert))
        ++ made)
    × (attempts_id 1 made ≡ true)
deliver_pending_alerts-attempts_example =
    deliver_pending_alerts-attempts run 50 (90 * one_minute) one_alert [] [] (first_send 1)
      one_alert-IsWellFormed refl (omega arith) (λ turn. omega arith) refl (omega arith) tt

deliver_pending_alerts-counted_example :
    (made : List Attempt) × ((deliver_pending_alerts run 50 (90 * one_minute) one_alert).0.attempts
      ≡ ([] ++ expiries (90 * one_minute) (overdue (90 * one_minute - alert_expiry) one_alert))
        ++ made)
    × ((deliver_pending_alerts run 50 (90 * one_minute) one_alert).1.delivered
          + (deliver_pending_alerts run 50 (90 * one_minute) one_alert).1.failed
        ≡ length made)
    × (length made ≤ 50)
    × ((deliver_pending_alerts run 50 (90 * one_minute) one_alert).1.expired
        ≡ length (overdue (90 * one_minute - alert_expiry) one_alert))
deliver_pending_alerts-counted_example =
    deliver_pending_alerts-counted run 50 (90 * one_minute) one_alert

backoff-bounds_example : (backoff 5 ≤ 30 * one_minute) × (backoff 2 ≤ backoff 5)
backoff-bounds_example = backoff-bounds 2 5 (omega arith)

backoff_test : backoff 3 ≡ 4 * one_minute
unfolding backoff
backoff_test = refl

abbrev formats : Formats
formats = record {
  date_of = λ s. none;
  datetime_of = λ s. none;
  market_date = λ t. t / 86_400_000_000;
  date_text = λ d. "2026-01-02";
  number_text = λ n. "7";
  value_text = λ v. "DATA_GAP";
  to_document = same_fields;
}

abbrev stopped_row : EventRow
stopped_row = record {
  event_id = 4;
  order_id = "order";
  seq = 3;
  event_key = "STOPPED";
  type = "STOPPED";
  bar_ts = none;
  price = none;
  qty = none;
  payload = end;
  recorded_at = one_minute;
  origin = "SYSTEM";
  price_source = "alpaca";
  ticker = "AAPL";
  strategy = "S";
  direction = "LONG";
  replay = false;
}

abbrev incident_row : IncidentRow
incident_row = record {
  id = 7;
  kind = "EVENT_HASH_CONFLICT";
  order_id = none;
  event_key = none;
  recorded_at = one_minute;
}

enqueue_event_alerts_twice_example :
    enqueue_event_alerts formats 500
      (2 * one_minute)
      (stopped_row ∷ [])
      (incident_row ∷ [])
      (enqueue_event_alerts formats 500
        (2 * one_minute)
        (stopped_row ∷ [])
        (incident_row ∷ [])
        empty_outbox).0
    ≡ (
      (enqueue_event_alerts formats 500
          (2 * one_minute)
          (stopped_row ∷ [])
          (incident_row ∷ [])
          empty_outbox).0,
      0,
    )
enqueue_event_alerts_twice_example =
    enqueue_event_alerts_twice formats 500 (2 * one_minute) (stopped_row ∷ []) (incident_row ∷ [])
      empty_outbox (omega arith) (omega arith)
