-- ===== src/Alerts/Outbox.antt =====
-- src/virtual_orders/alerts/outbox.py: the tables of the outbox as lists, the enqueue step and the delivery run. An
-- instant is a number of microseconds, as in `Calendar`; the monotonic clock counts microseconds too.
-- `to_document` (storage/codec.py) and the parsers of `datetime` are parameters.
pub mod Delivery
pub mod Once
pub mod Enqueue
use text.Mathlib.Text.{◌==◌ as str_eq}
use Prim.Native.String.{◌++◌ as text_append}
use research_platform.Prelude.{
  ℕ, zero, suc, ◌+◌, ◌-◌, ◌*◌, ◌^◌, min, Bool, true, false, not, ◌&&◌, ◌||◌, Option, none, some,
  String, List, [], ◌∷◌, ◌++◌, map, any, filter, length, take, ltb, leb, ◌==◌, if◌then◌else◌,
}
use research_platform.Prelude.Int.{pos}
use research_platform.Calendar.{one_minute}
use research_platform.Domain.Values.{Value, Fields, field, end, lookup, optional}

pub data AlertKind : Type 0 where
  order_event order_review integrity_incident price_cross : AlertKind
  pressure health end_of_day_summary observation_daily : AlertKind

abbrev pub kind_name : AlertKind → String
kind_name AlertKind.order_event = "ORDER_EVENT"
kind_name AlertKind.order_review = "ORDER_REVIEW"
kind_name AlertKind.integrity_incident = "INTEGRITY_INCIDENT"
kind_name AlertKind.price_cross = "PRICE_CROSS"
kind_name AlertKind.pressure = "PRESSURE"
kind_name AlertKind.health = "HEALTH"
kind_name AlertKind.end_of_day_summary = "END_OF_DAY_SUMMARY"
kind_name AlertKind.observation_daily = "OBSERVATION_DAILY"

pub record DeliveryReport : Type 0 where
  pub delivered : ℕ
  pub failed : ℕ
  pub expired : ℕ
  pub budget_exhausted : Bool

-- `{**document, key: value}`: a key that is there keeps its place.
unfoldable pub set_field : String → Value → Fields → Fields
set_field key value end = field key value end
set_field key value (field k v rest) =
    let later = field k v (set_field key value rest) in
    if str_eq k key then field k value rest else later

unfoldable pub alert_envelope : (alert_key kind : String) → Fields → Fields
unfolding set_field
alert_envelope alert_key kind document = set_field "kind" (Value.str kind) (
    set_field "alert_key" (Value.str alert_key)
      (set_field "schema_version" (Value.int (pos 1)) document))

-- A row of `alert_outbox`.
pub record Alert : Type 0 where
  pub id : ℕ
  pub alert_key : String
  pub kind : AlertKind
  pub subject : Option String
  pub subject_ts : Option ℕ
  pub document : Fields
  pub created_at : ℕ

pub data AttemptOutcome : Type 0 where
  delivered failed expired : AttemptOutcome

-- A row of `alert_delivery_attempts`.
pub record Attempt : Type 0 where
  pub alert_id : ℕ
  pub outcome : AttemptOutcome
  pub status_code : Option ℕ
  pub error_type : Option String
  pub attempted_at : ℕ

-- A row of `alert_event_marks`.
pub record Mark : Type 0 where
  pub order_event_id : ℕ
  pub alert_key : String

-- The three tables, and the next number of the sequence of `alert_outbox.id`.
pub record Outbox : Type 0 where
  pub alerts : List Alert
  pub attempts : List Attempt
  pub marks : List Mark
  pub next_id : ℕ

abbrev pub has_key : String → List Alert → Bool
has_key key alerts = any (λ a. str_eq a.alert_key key) alerts

-- `enqueue_alert`, at the database's time `at`: the new outbox, and whether the alert is new. An id is drawn
-- from the sequence either way.
unfoldable pub enqueue_alert :
    (to_document : Fields → Fields)
    → (at : ℕ) → (alert_key : String) → AlertKind
    → (document : Fields) → (subject : Option String) → (subject_ts : Option ℕ) → Outbox
    → Outbox × Bool
unfolding alert_envelope
enqueue_alert to_document at alert_key kind document subject subject_ts o =
    let fresh : Alert = record {
      id = o.next_id;
      alert_key = alert_key;
      kind = kind;
      subject = subject;
      subject_ts = subject_ts;
      document = to_document (alert_envelope alert_key (kind_name kind) document);
      created_at = at;
    } in
    let drawn : Outbox = record o { next_id = suc o.next_id } in
    if has_key alert_key o.alerts
    then (drawn, false)
    else (record drawn { alerts = o.alerts ++ fresh ∷ [] }, true)

-- `backoff`, in microseconds.
unfoldable pub backoff : ℕ → ℕ
backoff zero = 0
backoff (suc failures) = min (2 ^ min failures 10) 30 * one_minute

-- `ALERT_EXPIRY`
abbrev pub alert_expiry : ℕ
alert_expiry = 24 * 60 * one_minute

abbrev pub is_settled : AttemptOutcome → Bool
is_settled AttemptOutcome.failed = false
is_settled _ = true

-- How many attempts of the alert are `DELIVERED` or `EXPIRED`.
abbrev pub settled_count : ℕ → List Attempt → ℕ
settled_count id [] = 0
settled_count id (t ∷ ts) =
    if t.alert_id == id && is_settled t.outcome
    then suc (settled_count id ts)
    else settled_count id ts

-- How many are `FAILED`.
abbrev pub failure_count : ℕ → List Attempt → ℕ
failure_count id [] = 0
failure_count id (t ∷ ts) =
    if t.alert_id == id && not (is_settled t.outcome)
    then suc (failure_count id ts)
    else failure_count id ts

abbrev later_of : ℕ → Option ℕ → ℕ
later_of at none = at
later_of at (some other) = if ltb at other then other else at

-- The latest `FAILED` attempt.
abbrev pub last_failed_at : ℕ → List Attempt → Option ℕ
last_failed_at id [] = none
last_failed_at id (t ∷ ts) =
    let earlier = last_failed_at id ts in
    if t.alert_id == id && not (is_settled t.outcome)
    then some (later_of t.attempted_at earlier)
    else earlier

abbrev pub unsettled : List Attempt → Alert → Bool
unsettled attempts a = settled_count a.id attempts == 0

-- The alerts that `_EXPIRE` inserts an attempt for.
abbrev pub overdue : (cutoff : ℕ) → Outbox → List Alert
overdue cutoff o = filter (λ a. ltb a.created_at cutoff && unsettled o.attempts a) o.alerts

abbrev expiry_of : ℕ → Alert → Attempt
expiry_of now a = record {
  alert_id = a.id;
  outcome = AttemptOutcome.expired;
  status_code = none;
  error_type = none;
  attempted_at = now;
}

abbrev pub expiries : ℕ → List Alert → List Attempt
expiries now [] = []
expiries now (a ∷ rest) = expiry_of now a ∷ expiries now rest

-- `instant >= last_failed_at + backoff(failures)`
abbrev pub backed_off : ℕ → Option ℕ → (failures : ℕ) → Bool
backed_off now none failures = true
backed_off now (some at) failures = leb (at + backoff failures) now

-- The rows of `_CANDIDATES` whose backoff is over.
abbrev pub is_due : (cutoff now : ℕ) → List Attempt → Alert → Bool
is_due cutoff now attempts a =
    leb cutoff a.created_at
    && (unsettled attempts a
        && backed_off now (last_failed_at a.id attempts) (failure_count a.id attempts))

-- What `sink.deliver` ends with: it returns, or it raises.
pub data Sent : Type 0 where
  accepted : Sent
  refused : (status_code : Option ℕ) → (error_type : String) → Sent

abbrev pub outcome_of : Sent → AttemptOutcome
outcome_of accepted = AttemptOutcome.delivered
outcome_of (refused _ _) = AttemptOutcome.failed

abbrev status_of : Sent → Option ℕ
status_of accepted = none
status_of (refused status_code _) = status_code

abbrev error_of : Sent → Option String
error_of accepted = none
error_of (refused _ error_type) = some error_type

-- The row that is inserted after a call of the sink.
abbrev pub attempt_of : ℕ → Alert → Sent → Attempt
attempt_of now a sent = record {
  alert_id = a.id;
  outcome = outcome_of sent;
  status_code = status_of sent;
  error_type = error_of sent;
  attempted_at = now;
}

-- What the run depends on: the sink and the monotonic clock, at the turns of the loop, and the budget.
pub record DeliveryRun : Type 0 where
  pub send : ℕ → Alert → Sent
  pub started : ℕ
  pub monotonic : ℕ → ℕ
  pub budget : ℕ

abbrev pub counted : Sent → DeliveryReport → DeliveryReport
counted accepted r = record r { delivered = suc r.delivered }
counted (refused _ _) r = record r { failed = suc r.failed }

-- The loop over the due alerts: the attempts that it inserts, and the report.
unfoldable pub deliver_loop :
    DeliveryRun → (now turn : ℕ) → List Alert → DeliveryReport → List Attempt × DeliveryReport
deliver_loop d now turn [] r = ([], r)
deliver_loop d now turn (a ∷ rest) r =
    let sent = d.send turn a in
    let (attempts, report) = deliver_loop d now (suc turn) rest (counted sent r) in
    if leb d.budget (d.monotonic turn - d.started)
    then ([], record r { budget_exhausted = true })
    else (attempt_of now a sent ∷ attempts, report)

-- `deliver_pending_alerts` at the instant `now`. The instant is later than the first day of the
-- calendar, so that the cutoff is one.
unfoldable pub deliver_pending_alerts :
    DeliveryRun → (limit now : ℕ) → Outbox → Outbox × DeliveryReport
unfolding deliver_loop
deliver_pending_alerts d limit now o =
    let cutoff = now - alert_expiry in
    let lapsed = overdue cutoff o in
    let attempts = o.attempts ++ expiries now lapsed in
    let due = take limit (filter (is_due cutoff now attempts) o.alerts) in
    let (made, report) =
      deliver_loop d now 0 due
        (record { delivered = 0; failed = 0; expired = length lapsed; budget_exhausted = false }) in
    (record o { attempts = attempts ++ made }, report)
