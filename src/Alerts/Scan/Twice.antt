-- ===== src/Alerts/Scan/Twice.antt =====
-- The enqueue steps on rows that they have seen.
use mathlib.Core.Path.{subst}
use text.Mathlib.TextPositions.{eq_refl}
use text.Mathlib.Text.{◌==◌ as str_eq}
use research_platform.Prelude.{
  ℕ, zero, suc, ◌≤◌, ◌≡◌, refl, sym, ap, ◌∙◌, Bool, true, Bool-cases, not, ◌&&◌, ◌||◌, or_true, inl,
  inr, Option, none, String, List, [], ◌∷◌, ◌++◌, All, any, length, take, take_all, filter,
  length-filter, ◌==◌, arith,
}
use research_platform.Prelude.Sort.{sort_by, length-sort_by}
use research_platform.Domain.Values.{Fields}
use research_platform.Alerts.Outbox.{Outbox, Mark, Alert, AlertKind, has_key, enqueue_alert}
use research_platform.Alerts.Scan.{
  Formats, EventRow, IncidentRow, has_mark, mark_event, enqueue_row, enqueue_rows, alertable,
  event_key_of, new_events, enqueue_order_event_alerts, incident_alert_key, enqueue_incidents,
  is_recent, incident_id_of, new_incidents, enqueue_incident_alerts, enqueue_event_alerts,
}

-- What is new by a test is not new any more once it all passes a wider one.
filter_done :
    {A : Type 0} (base old new : A → Bool)
    → ((x : A) → old x ≡ true → new x ≡ true)
    → (xs : List A) → All (λ x. new x ≡ true) (filter (λ x. base x && not (old x)) xs)
    → filter (λ x. base x && not (new x)) xs ≡ []
filter_done base old new mono [] h = refl
filter_done base old new mono (x ∷ xs) h = elim (Bool-cases (base x)) [
  | inr out ↦ rw out (filter_done base old new mono xs (rw out at h))
  | inl wanted ↦ elim (Bool-cases (old x)) [
    | inl seen ↦
        rw (wanted, mono x seen) (filter_done base old new mono xs (rw (wanted, seen) at h))
    | inr fresh ↦
        let h' = rw (wanted, fresh) at h in
        rw (wanted, h'.0) (filter_done base old new mono xs h'.1)
  ]
]

enqueue_alert-marks :
    (encode : Fields → Fields) (at : ℕ) (key : String) (kind : AlertKind) (document : Fields)
    (subject : Option String) (o : Outbox)
    → (enqueue_alert encode at key kind document subject none o).0.marks ≡ o.marks
unfolding enqueue_alert
enqueue_alert-marks encode at key kind document subject o = ground arith

any-append :
    {A : Type 0} (test : A → Bool) (xs ys : List A)
    → any test (xs ++ ys) ≡ any test xs || any test ys
any-append test [] ys = refl
any-append test (x ∷ xs) ys = elim (Bool-cases (test x)) [
  | inl t ↦ rw t refl
  | inr f ↦ rw f (any-append test xs ys)
]

enqueue_alert-keeps :
    (encode : Fields → Fields) (at : ℕ) (key : String) (kind : AlertKind) (document : Fields)
    (subject : Option String) (o : Outbox) (k : String)
    → has_key k o.alerts ≡ true
    → has_key k (enqueue_alert encode at key kind document subject none o).0.alerts ≡ true
unfolding enqueue_alert
enqueue_alert-keeps encode at key kind document subject o k h =
    elim (Bool-cases (has_key key o.alerts)) [
      | inl there ↦ rw there h
      | inr fresh ↦ rw (fresh, any-append (λ a. str_eq a.alert_key k) o.alerts _, h) refl
    ]

enqueue_alert-has_key :
    (encode : Fields → Fields) (at : ℕ) (key : String) (kind : AlertKind) (document : Fields)
    (subject : Option String) (o : Outbox)
    → has_key key (enqueue_alert encode at key kind document subject none o).0.alerts ≡ true
unfolding enqueue_alert
enqueue_alert-has_key encode at key kind document subject o =
    elim (Bool-cases (has_key key o.alerts)) [
      | inl there ↦ rw there there
      | inr fresh ↦
          rw (fresh, any-append (λ a. str_eq a.alert_key key) o.alerts _, fresh, eq_refl key) refl
    ]

mark_event-keeps :
    (id : ℕ) (key : String) (o : Outbox) (k : ℕ)
    → has_mark k o.marks ≡ true
    → has_mark k (mark_event id key o).marks ≡ true
unfolding mark_event
mark_event-keeps id key o k h = elim (Bool-cases (has_mark id o.marks)) [
  | inl there ↦ rw there h
  | inr fresh ↦ rw (fresh, h) (or_true (id == k))
]

mark_event-marks :
    (id : ℕ) (key : String) (o : Outbox) → has_mark id (mark_event id key o).marks ≡ true
unfolding mark_event
mark_event-marks id key o = elim (Bool-cases (has_mark id o.marks)) [
  | inl there ↦ rw there there
  | inr fresh ↦ let same : (id == id) ≡ true = ground arith in rw (fresh, same) refl
]

enqueue_row-keeps :
    (f : Formats) (now : ℕ) (row : EventRow) (o : Outbox) (k : ℕ)
    → has_mark k o.marks ≡ true
    → has_mark k (enqueue_row f now row o).0.marks ≡ true
enqueue_row-keeps f now row o k h =
    mark_event-keeps row.event_id _ _ k
      (subst (λ ms. has_mark k ms ≡ true) (sym (enqueue_alert-marks f.to_document now _ _ _ _ o)) h)

enqueue_rows-keeps :
    (f : Formats) (now : ℕ) (rows : List EventRow) (acc : Outbox × ℕ) (k : ℕ)
    → has_mark k acc.0.marks ≡ true
    → has_mark k (enqueue_rows f now rows acc).0.marks ≡ true
unfolding enqueue_rows
enqueue_rows-keeps f now [] acc k h = h
enqueue_rows-keeps f now (row ∷ rows) acc k h =
    enqueue_rows-keeps f now rows _ k (enqueue_row-keeps f now row acc.0 k h)

enqueue_rows-marks :
    (f : Formats) (now : ℕ) (rows : List EventRow) (acc : Outbox × ℕ)
    → All (λ r. has_mark r.event_id (enqueue_rows f now rows acc).0.marks ≡ true) rows
unfolding enqueue_rows
enqueue_rows-marks f now [] acc = tt
enqueue_rows-marks f now (row ∷ rows) acc = (
  enqueue_rows-keeps f now rows _ row.event_id (mark_event-marks row.event_id _ _),
  enqueue_rows-marks f now rows _,
)

enqueue_incidents-keeps :
    (f : Formats) (now : ℕ) (rows : List IncidentRow) (acc : Outbox × ℕ) (k : String)
    → has_key k acc.0.alerts ≡ true
    → has_key k (enqueue_incidents f now rows acc).0.alerts ≡ true
unfolding enqueue_incidents
enqueue_incidents-keeps f now [] acc k h = h
enqueue_incidents-keeps f now (row ∷ rows) acc k h =
    enqueue_incidents-keeps f now rows _ k (enqueue_alert-keeps f.to_document now _ _ _ _ acc.0 k h)

enqueue_incidents-has_key :
    (f : Formats) (now : ℕ) (rows : List IncidentRow) (acc : Outbox × ℕ)
    → All
        (λ r. has_key (incident_alert_key f r) (enqueue_incidents f now rows acc).0.alerts ≡ true)
        rows
unfolding enqueue_incidents
enqueue_incidents-has_key f now [] acc = tt
enqueue_incidents-has_key f now (row ∷ rows) acc = (
  enqueue_incidents-keeps f now rows _ (incident_alert_key f row)
      (enqueue_alert-has_key f.to_document now (incident_alert_key f row) _ _ _ acc.0),
  enqueue_incidents-has_key f now rows _,
)

-- Incidents leave the marks alone.
enqueue_incidents-marks :
    (f : Formats) (now : ℕ) (rows : List IncidentRow) (acc : Outbox × ℕ)
    → (enqueue_incidents f now rows acc).0.marks ≡ acc.0.marks
unfolding enqueue_incidents
enqueue_incidents-marks f now [] acc = refl
enqueue_incidents-marks f now (row ∷ rows) acc =
    enqueue_incidents-marks f now rows _ ∙ enqueue_alert-marks f.to_document now _ _ _ _ acc.0

-- Within the limit, no row is new after the step.
new_events-done :
    (f : Formats) (limit now : ℕ) (events : List EventRow) (o p : Outbox)
    → length events ≤ limit
    → p.marks ≡ (enqueue_order_event_alerts f limit now events o).0.marks
    → new_events now events p ≡ []
unfolding enqueue_order_event_alerts
new_events-done f limit now events o p room e =
    let rows : List EventRow = new_events now events o in
    let all : take limit rows ≡ rows = take_all limit rows (
      omega (
        arith,
        room,
        length-sort_by event_key_of events,
        length-filter _ (sort_by event_key_of events),
      )) in
    let marks : List Mark = (enqueue_rows f now (take limit rows) (o, 0)).0.marks in
    let seen : All (λ r. has_mark r.event_id marks ≡ true) rows =
      subst (λ rs. All (λ r. has_mark r.event_id marks ≡ true) rs) all
        (enqueue_rows-marks f now (take limit rows) (o, 0)) in
    subst
      (λ ms.
        filter (λ row. alertable now row && not (has_mark row.event_id ms))
          (sort_by event_key_of events)
        ≡ [])
      (sym e)
      (filter_done (alertable now) (λ r. has_mark r.event_id o.marks)
        (λ r. has_mark r.event_id marks)
        (λ r h. enqueue_rows-keeps f now (take limit rows) (o, 0) r.event_id h)
        (sort_by event_key_of events) seen)

new_incidents-done :
    (f : Formats) (limit now : ℕ) (incidents : List IncidentRow) (o : Outbox)
    → length incidents ≤ limit
    → new_incidents f now incidents (enqueue_incident_alerts f limit now incidents o).0 ≡ []
unfolding enqueue_incident_alerts
new_incidents-done f limit now incidents o room =
    let rows : List IncidentRow = new_incidents f now incidents o in
    let all : take limit rows ≡ rows = take_all limit rows (
      omega (
        arith,
        room,
        length-sort_by incident_id_of incidents,
        length-filter _ (sort_by incident_id_of incidents),
      )) in
    let alerts : List Alert = (enqueue_incidents f now (take limit rows) (o, 0)).0.alerts in
    let seen =
      subst (λ rs. All (λ r. has_key (incident_alert_key f r) alerts ≡ true) rs) all
        (enqueue_incidents-has_key f now (take limit rows) (o, 0)) in
    filter_done (is_recent now) (λ r. has_key (incident_alert_key f r) o.alerts)
      (λ r. has_key (incident_alert_key f r) alerts)
      (λ r h. enqueue_incidents-keeps f now (take limit rows) (o, 0) (incident_alert_key f r) h)
      (sort_by incident_id_of incidents) seen

take_none : {A : Type 0} (n : ℕ) → let xs : List A = [] in take n xs ≡ xs
take_none zero = refl
take_none (suc n) = refl

enqueue_order_event_alerts-nothing :
    (f : Formats) (limit now : ℕ) (events : List EventRow) (o : Outbox)
    → new_events now events o ≡ []
    → enqueue_order_event_alerts f limit now events o ≡ (o, 0)
unfolding enqueue_order_event_alerts enqueue_rows
enqueue_order_event_alerts-nothing f limit now events o h =
    ap (λ rows. enqueue_rows f now rows (o, 0)) (ap (take limit) h ∙ take_none limit)

enqueue_incident_alerts-nothing :
    (f : Formats) (limit now : ℕ) (incidents : List IncidentRow) (o : Outbox)
    → new_incidents f now incidents o ≡ []
    → enqueue_incident_alerts f limit now incidents o ≡ (o, 0)
unfolding enqueue_incident_alerts enqueue_incidents
enqueue_incident_alerts-nothing f limit now incidents o h =
    ap (λ rows. enqueue_incidents f now rows (o, 0)) (ap (take limit) h ∙ take_none limit)

enqueue_incident_alerts-marks :
    (f : Formats) (limit now : ℕ) (incidents : List IncidentRow) (o : Outbox)
    → (enqueue_incident_alerts f limit now incidents o).0.marks ≡ o.marks
unfolding enqueue_incident_alerts
enqueue_incident_alerts-marks f limit now incidents o =
    enqueue_incidents-marks f now (take limit (new_incidents f now incidents o)) (o, 0)

-- If the limit has room for all events and incidents, running the enqueue step again at the same
-- time adds no alert and leaves the outbox as it is.
pub enqueue_event_alerts_twice :
    (f : Formats) (limit now : ℕ) (events : List EventRow) (incidents : List IncidentRow)
    (o : Outbox)
    → length events ≤ limit
    → length incidents ≤ limit
    → enqueue_event_alerts f limit now events incidents
        (enqueue_event_alerts f limit now events incidents o).0
      ≡ ((enqueue_event_alerts f limit now events incidents o).0, 0)
unfolding enqueue_event_alerts
enqueue_event_alerts_twice f limit now events incidents o few few' =
    let first : Outbox = (enqueue_order_event_alerts f limit now events o).0 in
    let second : Outbox = (enqueue_incident_alerts f limit now incidents first).0 in
    rw
      (
        enqueue_order_event_alerts-nothing f limit now events second (
            new_events-done f limit now events o second few
              (enqueue_incident_alerts-marks f limit now incidents first)),
        enqueue_incident_alerts-nothing f limit now incidents second
            (new_incidents-done f limit now incidents first few'),
      )
      refl
