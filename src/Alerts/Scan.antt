-- ===== src/Alerts/Scan.antt =====
-- src/virtual_orders/alerts/outbox.py: the enqueue steps, which turn recorded events and incidents into alerts. Rows
-- of the other tables are an argument; the parsers of `datetime` and the time zone are parameters.
pub mod Twice
use Prim.Native.String.{◌++◌ as text_append, count}
use text.Mathlib.Text.{◌==◌ as str_eq}
use research_platform.Prelude.{
  ℕ, suc, ◌+◌, ◌-◌, ◌*◌, Bool, true, false, not, ◌&&◌, ◌||◌, Option, none, some, String, List, [],
  ◌∷◌, any, take, filter, ltb, leb, ◌==◌, if◌then◌else◌,
}
use research_platform.Prelude.Int.{pos}
use research_platform.Prelude.Sort.{sort_by}
use research_platform.Calendar.{Datetime, naive, aware, one_minute}
use research_platform.Decimal.{Decimal}
use research_platform.Domain.Values.{Value, Fields, field, end, lookup, optional}
use research_platform.Alerts.Outbox.{Outbox, Mark, Alert, AlertKind, has_key, enqueue_alert}

-- `date.fromisoformat`, `datetime.fromisoformat` (none where they raise), the date of an instant in
-- the market's time zone, `date.isoformat`, `str` of a number and of a payload's value, and `to_document`.
pub record Formats : Type 0 where
  pub date_of : String → Option ℕ
  pub datetime_of : String → Option Datetime
  pub market_date : ℕ → ℕ
  pub date_text : ℕ → String
  pub number_text : ℕ → String
  pub value_text : Value → String
  pub to_document : Fields → Fields

abbrev date_or : ℕ → Option ℕ → ℕ
date_or fallback none = fallback
date_or fallback (some day) = day

abbrev zoned_date : Formats → ℕ → Option Datetime → ℕ
zoned_date f fallback none = fallback
zoned_date f fallback (some (naive _)) = fallback
zoned_date f fallback (some (aware t)) = f.market_date t

-- `review_session_day`
unfoldable pub review_session_day : Formats → (ref : String) → (recorded_at : ℕ) → ℕ
review_session_day f ref recorded_at =
    if count ref == 10
    then date_or (f.market_date recorded_at) (f.date_of ref)
    else zoned_date f (f.market_date recorded_at) (f.datetime_of ref)

-- A row of `_NEW_ORDER_EVENTS`, with `o.replay`.
pub record EventRow : Type 0 where
  pub event_id : ℕ
  pub order_id : String
  pub seq : ℕ
  pub event_key : String
  pub type : String
  pub bar_ts : Option ℕ
  pub price : Option Decimal
  pub qty : Option Decimal
  pub payload : Fields
  pub recorded_at : ℕ
  pub origin : String
  pub price_source : String
  pub ticker : String
  pub strategy : String
  pub direction : String
  pub replay : Bool

-- `ORDER_EVENT_ALERT_TYPES`
abbrev pub alert_types : List String
alert_types =
    "FILLED" ∷ "TARGET1_HIT" ∷ "TARGET2_HIT" ∷ "STOPPED" ∷ "TIME_EXIT" ∷ "EXPIRED" ∷ "INVALIDATED"
    ∷ "NEEDS_REVIEW" ∷ []

-- `ORDER_EVENT_LOOKBACK`
abbrev lookback : ℕ
lookback = 4 * 24 * 60 * one_minute

abbrev text_or : Formats → String → Option Value → String
text_or f fallback none = fallback
text_or f fallback (some v) = f.value_text v

abbrev colon : String → String → String
colon s t = text_append s (text_append ":" t)

-- `_order_event_alert`: the key, the kind and the extra fields.
unfoldable pub order_event_alert : Formats → EventRow → String × AlertKind × Fields
unfolding lookup review_session_day
order_event_alert f row =
    let reason = text_or f "UNSPECIFIED" (lookup "reason" row.payload) in
    let ref = text_or f "" (lookup "ref" row.payload) in
    let day = review_session_day f ref row.recorded_at in
    if str_eq row.type "NEEDS_REVIEW"
    then (
      colon "ORDER_REVIEW" (colon row.order_id (colon reason (f.date_text day))),
      AlertKind.order_review,
      field "review"
          (Value.dict (
            field "reason" (Value.str reason)
              (field "session_day" (Value.date day) (field "first_ref" (Value.str ref) end))))
          end,
    )
    else (colon "ORDER_EVENT" (colon row.order_id row.event_key), AlertKind.order_event, end)

abbrev event_fields : EventRow → Fields
event_fields row = field "seq" (Value.int (pos row.seq)) (
    field "type" (Value.str row.type) (
      field "event_key" (Value.str row.event_key) (
        field "bar_ts" (optional Value.instant row.bar_ts) (
          field "price" (optional Value.decimal row.price) (
            field "qty" (optional Value.decimal row.qty)
              (field "payload" (Value.dict row.payload) end))))))

abbrev order_document : EventRow → (extra : Fields) → Fields
order_document row extra = field "order_id" (Value.str row.order_id) (
    field "ticker" (Value.str row.ticker) (
      field "strategy" (Value.str row.strategy) (
        field "direction" (Value.str row.direction) (
          field "origin" (Value.str row.origin) (
            field "price_source" (Value.str row.price_source) (
              field "recorded_at" (Value.instant row.recorded_at)
                (field "event" (Value.dict (event_fields row)) extra)))))))

abbrev pub has_mark : ℕ → List Mark → Bool
has_mark id marks = any (λ m. m.order_event_id == id) marks

-- The insert into `alert_event_marks`, `ON CONFLICT DO NOTHING`.
unfoldable pub mark_event : ℕ → String → Outbox → Outbox
mark_event id key o =
    if has_mark id o.marks
    then o
    else record o { marks = record { order_event_id = id; alert_key = key } ∷ o.marks }

-- One turn of the loop of `enqueue_order_event_alerts`.
abbrev pub enqueue_row : Formats → (now : ℕ) → EventRow → Outbox → Outbox × Bool
enqueue_row f now row o =
    let (key, kind, extra) = order_event_alert f row in
    let (with_alert, created) =
      enqueue_alert f.to_document now key kind (order_document row extra) (some row.order_id) none
        o in
    (mark_event row.event_id key with_alert, created)

abbrev pub tally : Bool → ℕ → ℕ
tally true n = suc n
tally false n = n

unfoldable pub enqueue_rows : Formats → (now : ℕ) → List EventRow → Outbox × ℕ → Outbox × ℕ
enqueue_rows f now [] (o, created) = (o, created)
enqueue_rows f now (row ∷ rows) (o, created) =
    let (next, fresh) = enqueue_row f now row o in
    enqueue_rows f now rows (next, tally fresh created)

-- The conditions of `_NEW_ORDER_EVENTS`, but for the mark.
abbrev pub alertable : (now : ℕ) → EventRow → Bool
alertable now row =
    not row.replay
    && (any (λ t. str_eq t row.type) alert_types && leb (now - lookback) row.recorded_at)

abbrev pub event_key_of : EventRow → ℕ
event_key_of row = row.event_id

-- The rows of `_NEW_ORDER_EVENTS`, without the limit.
abbrev pub new_events : (now : ℕ) → List EventRow → Outbox → List EventRow
new_events now events o =
    filter (λ row. alertable now row && not (has_mark row.event_id o.marks))
      (sort_by event_key_of events)

-- `enqueue_order_event_alerts`: the new outbox, and how many alerts are new.
unfoldable pub enqueue_order_event_alerts :
    Formats → (limit now : ℕ) → List EventRow → Outbox → Outbox × ℕ
unfolding enqueue_rows
enqueue_order_event_alerts f limit now events o =
    enqueue_rows f now (take limit (new_events now events o)) (o, 0)

-- A row of `_NEW_INCIDENTS`.
pub record IncidentRow : Type 0 where
  pub id : ℕ
  pub kind : String
  pub order_id : Option String
  pub event_key : Option String
  pub recorded_at : ℕ

abbrev pub incident_alert_key : Formats → IncidentRow → String
incident_alert_key f row = colon "INTEGRITY_INCIDENT" (f.number_text row.id)

abbrev incident_document : IncidentRow → Fields
incident_document row = field "incident_id" (Value.int (pos row.id)) (
    field "incident_kind" (Value.str row.kind) (
      field "order_id" (optional Value.str row.order_id) (
        field "event_key" (optional Value.str row.event_key)
          (field "recorded_at" (Value.instant row.recorded_at) end))))

abbrev pub enqueue_incident : Formats → (now : ℕ) → IncidentRow → Outbox → Outbox × Bool
enqueue_incident f now row o =
    enqueue_alert f.to_document now (incident_alert_key f row) AlertKind.integrity_incident
      (incident_document row) row.order_id none o

unfoldable pub enqueue_incidents : Formats → (now : ℕ) → List IncidentRow → Outbox × ℕ → Outbox × ℕ
enqueue_incidents f now [] (o, created) = (o, created)
enqueue_incidents f now (row ∷ rows) (o, created) =
    let (next, fresh) = enqueue_incident f now row o in
    enqueue_incidents f now rows (next, tally fresh created)

abbrev pub is_recent : (now : ℕ) → IncidentRow → Bool
is_recent now row = leb (now - lookback) row.recorded_at

abbrev pub incident_id_of : IncidentRow → ℕ
incident_id_of row = row.id

-- The rows of `_NEW_INCIDENTS`, without the limit.
abbrev pub new_incidents : Formats → (now : ℕ) → List IncidentRow → Outbox → List IncidentRow
new_incidents f now incidents o =
    filter (λ row. is_recent now row && not (has_key (incident_alert_key f row) o.alerts))
      (sort_by incident_id_of incidents)

unfoldable pub enqueue_incident_alerts :
    Formats → (limit now : ℕ) → List IncidentRow → Outbox → Outbox × ℕ
unfolding enqueue_incidents
enqueue_incident_alerts f limit now incidents o =
    enqueue_incidents f now (take limit (new_incidents f now incidents o)) (o, 0)

-- `enqueue_event_alerts`, both steps at the database's time `now`.
unfoldable pub enqueue_event_alerts :
    Formats → (limit now : ℕ) → List EventRow → List IncidentRow → Outbox → Outbox × ℕ
unfolding enqueue_order_event_alerts enqueue_incident_alerts
enqueue_event_alerts f limit now events incidents o =
    let (with_events, m) = enqueue_order_event_alerts f limit now events o in
    let (with_incidents, n) = enqueue_incident_alerts f limit now incidents with_events in
    (with_incidents, m + n)
