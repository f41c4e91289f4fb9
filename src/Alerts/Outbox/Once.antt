-- ===== src/Alerts/Outbox/Once.antt =====
-- The outbox through any sequence of its operations.
use mathlib.Core.Path.{subst}
use text.Mathlib.Text.{◌==◌ as str_eq}
use text.Mathlib.TextEquality.{eq_iff}
use research_platform.Prelude.{
  ℕ, zero, suc, ◌+◌, ◌-◌, ◌≤◌, ◌<◌, ◌≡◌, refl, Bool, true, false, Bool-cases, ◌&&◌, inl, inr,
  Option, String, List, [], ◌∷◌, ◌++◌, All, take, filter, ltb, leb, ◌==◌, ==_iff, ==→ne,
  if◌then◌else◌, arith, and-eq-true, or-eq-false,
}
use research_platform.Domain.Values.{Fields}
use research_platform.Alerts.Outbox.{
  Outbox, Alert, AlertKind, Attempt, DeliveryRun, DeliveryReport, has_key, enqueue_alert,
  settled_count, unsettled, overdue, expiries, is_due, alert_expiry, deliver_loop,
  deliver_pending_alerts, counted,
}

-- How many alerts have the id, and how many the key.
abbrev pub id_count : ℕ → List Alert → ℕ
id_count id [] = 0
id_count id (a ∷ rest) = if a.id == id then suc (id_count id rest) else id_count id rest

abbrev pub key_count : String → List Alert → ℕ
key_count key [] = 0
key_count key (a ∷ rest) =
    if str_eq a.alert_key key then suc (key_count key rest) else key_count key rest

-- Ids and keys are unique, the sequence is ahead of the ids, and no alert is settled twice.
pub record IsWellFormed (o : Outbox) : Type 0 where
  pub ids_unique : (id : ℕ) → id_count id o.alerts ≤ 1
  pub ids_below : All (λ a. a.id < o.next_id) o.alerts
  pub keys_unique : (key : String) → key_count key o.alerts ≤ 1
  pub settled_once : (id : ℕ) → settled_count id o.attempts ≤ 1

pub settled_count-append :
    (id : ℕ) (ts us : List Attempt)
    → settled_count id (ts ++ us) ≡ settled_count id ts + settled_count id us
settled_count-append id [] us = omega arith
settled_count-append id (t ∷ ts) us = ground (arith, settled_count-append id ts us)

pub settled_count-expiries :
    (id now : ℕ) (bs : List Alert) → settled_count id (expiries now bs) ≡ id_count id bs
settled_count-expiries id now [] = refl
settled_count-expiries id now (a ∷ bs) = ground (arith, settled_count-expiries id now bs)

settled_count-deliver_loop :
    (id : ℕ) (d : DeliveryRun) (now turn : ℕ) (bs : List Alert) (r : DeliveryReport)
    → settled_count id (deliver_loop d now turn bs r).0 ≤ id_count id bs
unfolding deliver_loop
settled_count-deliver_loop id d now turn [] r = omega arith
settled_count-deliver_loop id d now turn (a ∷ bs) r =
    let rest = settled_count-deliver_loop id d now (suc turn) bs (counted (d.send turn a) r) in
    ground (arith, rest)

id_count-take : (id n : ℕ) (bs : List Alert) → id_count id (take n bs) ≤ id_count id bs
id_count-take id zero bs = omega arith
id_count-take id (suc n) [] = omega arith
id_count-take id (suc n) (a ∷ bs) = ground (arith, id_count-take id n bs)

pub id_count-filter :
    (id : ℕ) (test : Alert → Bool) (bs : List Alert) → id_count id (filter test bs) ≤ id_count id bs
id_count-filter id test [] = omega arith
id_count-filter id test (a ∷ bs) = ground (arith, id_count-filter id test bs)

module _ (ts : List Attempt) (test : Alert → Bool)
    (implied : (a : Alert) → test a ≡ true → unsettled ts a ≡ true) where
  -- A filter that asks for alerts that are not settled keeps none that is.
  id_count-settled :
      (id : ℕ) (bs : List Alert) → 1 ≤ settled_count id ts → id_count id (filter test bs) ≡ 0
  id_count-settled id [] h = refl
  id_count-settled id (a ∷ bs) h =
      let rest = id_count-settled id bs h in
      elim (Bool-cases (test a)) [
        | inr out ↦ rw out rest
        | inl kept ↦ elim (Bool-cases (a.id == id)) [
          | inr other ↦ rw (kept, other) rest
          | inl same ↦
              let none : settled_count id ts ≡ 0 =
                subst (λ n. settled_count n ts ≡ 0) ((==_iff _ _).0 same)
                  ((==_iff _ _).0 (implied a kept)) in
              absurd (omega (arith, none, h))
        ]
      ]

  settled_once-filter :
      (id : ℕ) (bs : List Alert)
      → settled_count id ts ≤ 1
      → id_count id bs ≤ 1
      → settled_count id ts + id_count id (filter test bs) ≤ 1
  settled_once-filter id bs once unique = elim (Bool-cases (settled_count id ts == 0)) [
    | inl none ↦ omega (arith, (==_iff _ _).0 none, id_count-filter id test bs, unique)
    | inr some ↦
        omega (arith, ==→ne _ _ some, once, id_count-settled id bs (omega (arith, ==→ne _ _ some)))
  ]

overdue_implied :
    (cutoff : ℕ) (ts : List Attempt) (a : Alert)
    → ltb a.created_at cutoff && unsettled ts a ≡ true
    → unsettled ts a ≡ true
overdue_implied cutoff ts a h = (and-eq-true _ _ h).1

is_due_implied :
    (cutoff now : ℕ) (ts : List Attempt) (a : Alert)
    → is_due cutoff now ts a ≡ true
    → unsettled ts a ≡ true
is_due_implied cutoff now ts a h =
    (and-eq-true (unsettled ts a) _ (and-eq-true (leb cutoff a.created_at) _ h).1).0

deliver_pending_alerts-IsWellFormed :
    (d : DeliveryRun) (limit now : ℕ) (o : Outbox)
    → IsWellFormed o
    → IsWellFormed (deliver_pending_alerts d limit now o).0
unfolding deliver_pending_alerts
deliver_pending_alerts-IsWellFormed d limit now o h =
    let cutoff : ℕ = now - alert_expiry in
    let lapsed : List Alert = overdue cutoff o in
    let ts : List Attempt = o.attempts ++ expiries now lapsed in
    record {
      ids_unique = h.ids_unique;
      ids_below = h.ids_below;
      keys_unique = h.keys_unique;
      settled_once = λ id.
          let first =
            settled_once-filter o.attempts (λ a. ltb a.created_at cutoff && unsettled o.attempts a)
              (overdue_implied cutoff o.attempts) id o.alerts (h.settled_once id)
              (h.ids_unique id) in
          let lapsing = settled_count-append id o.attempts (expiries now lapsed) in
          let lapses = settled_count-expiries id now lapsed in
          let once : settled_count id ts ≤ 1 = omega (arith, first, lapsing, lapses) in
          let second =
            settled_once-filter ts (is_due cutoff now ts) (is_due_implied cutoff now ts) id o.alerts
              once (h.ids_unique id) in
          omega (
            arith,
            second,
            settled_count-append id ts
                (deliver_loop d now 0 (take limit (filter (is_due cutoff now ts) o.alerts)) _).0,
            settled_count-deliver_loop id d now 0
                (take limit (filter (is_due cutoff now ts) o.alerts)) _,
            id_count-take id limit (filter (is_due cutoff now ts) o.alerts),
          );
    }

id_count-append :
    (id : ℕ) (bs : List Alert) (a : Alert)
    → id_count id (bs ++ a ∷ []) ≡ id_count id bs + (if a.id == id then 1 else 0)
id_count-append id [] a = omega arith
id_count-append id (b ∷ bs) a = ground (arith, id_count-append id bs a)

key_count-append :
    (key : String) (bs : List Alert) (a : Alert)
    → key_count key (bs ++ a ∷ []) ≡ key_count key bs + (if str_eq a.alert_key key then 1 else 0)
key_count-append key [] a = omega arith
key_count-append key (b ∷ bs) a = ground (arith, key_count-append key bs a)

-- No alert has an id that the sequence has not reached.
id_count-below : (id n : ℕ) (bs : List Alert) → All (λ a. a.id < n) bs → n ≤ id → id_count id bs ≡ 0
id_count-below id n [] h k = refl
id_count-below id n (b ∷ bs) h k = ground (arith, h.0, id_count-below id n bs h.1 k)

has_key-key_count : (key : String) (bs : List Alert) → has_key key bs ≡ false → key_count key bs ≡ 0
has_key-key_count key [] h = refl
has_key-key_count key (b ∷ bs) h =
    let (other, rest) = or-eq-false (str_eq b.alert_key key) (has_key key bs) h in
    rw other (has_key-key_count key bs rest)

below-suc : (n : ℕ) (bs : List Alert) → All (λ a. a.id < n) bs → All (λ a. a.id < suc n) bs
below-suc n [] h = tt
below-suc n (b ∷ bs) h = (omega (arith, h.0), below-suc n bs h.1)

below-append :
    (n : ℕ) (bs : List Alert) (a : Alert)
    → All (λ b. b.id < n) bs
    → a.id < n
    → All (λ b. b.id < n) (bs ++ a ∷ [])
below-append n [] a h k = (k, tt)
below-append n (b ∷ bs) a h k = (h.0, below-append n bs a h.1 k)

keys_unique-append :
    (bs : List Alert) (a : Alert)
    → has_key a.alert_key bs ≡ false
    → ((key : String) → key_count key bs ≤ 1)
    → (key : String) → key_count key (bs ++ a ∷ []) ≤ 1
keys_unique-append bs a fresh once key = elim (Bool-cases (str_eq a.alert_key key)) [
  | inr other ↦ rw (key_count-append key bs a, other) (omega (arith, once key))
  | inl same ↦
      let none : key_count key bs ≡ 0 =
        subst (λ k. key_count k bs ≡ 0) ((eq_iff a.alert_key key).0 same)
          (has_key-key_count a.alert_key bs fresh) in
      rw (key_count-append key bs a, same, none) (omega arith)
]

ids_unique-append :
    (n : ℕ) (bs : List Alert) (a : Alert)
    → a.id ≡ n
    → All (λ b. b.id < n) bs
    → ((id : ℕ) → id_count id bs ≤ 1)
    → (id : ℕ) → id_count id (bs ++ a ∷ []) ≤ 1
ids_unique-append n bs a e below once id = elim (Bool-cases (a.id == id)) [
  | inr other ↦ rw (id_count-append id bs a, other) (omega (arith, once id))
  | inl same ↦
      let none : id_count id bs ≡ 0 =
        id_count-below id n bs below (omega (arith, e, (==_iff _ _).0 same)) in
      rw (id_count-append id bs a, same, none) (omega arith)
]

enqueue_alert-IsWellFormed :
    (encode : Fields → Fields) (at : ℕ) (key : String) (kind : AlertKind) (document : Fields)
    (subject : Option String) (subject_ts : Option ℕ) (o : Outbox)
    → IsWellFormed o
    → IsWellFormed (enqueue_alert encode at key kind document subject subject_ts o).0
unfolding enqueue_alert
enqueue_alert-IsWellFormed encode at key kind document subject subject_ts o h =
    elim (Bool-cases (has_key key o.alerts)) [
      | inl there ↦ rw there (record {
        ids_unique = h.ids_unique;
        ids_below = below-suc o.next_id o.alerts h.ids_below;
        keys_unique = h.keys_unique;
        settled_once = h.settled_once;
      })
      | inr fresh ↦ rw fresh (record {
        ids_unique = ids_unique-append o.next_id o.alerts _ refl h.ids_below h.ids_unique;
        ids_below =
            below-append (suc o.next_id) o.alerts _ (below-suc o.next_id o.alerts h.ids_below)
              (omega arith);
        keys_unique = keys_unique-append o.alerts _ fresh h.keys_unique;
        settled_once = h.settled_once;
      })
    ]

-- One call on the outbox: an alert is enqueued, or a delivery run takes place.
pub data Step : Outbox → Outbox → Type 0 where
  enqueued :
      (encode : Fields → Fields) (at : ℕ) (key : String) (kind : AlertKind) (document : Fields)
      (subject : Option String) (subject_ts : Option ℕ) {o : Outbox}
      → Step o (enqueue_alert encode at key kind document subject subject_ts o).0
  ran :
      (d : DeliveryRun) (limit now : ℕ) {o : Outbox}
      → Step o (deliver_pending_alerts d limit now o).0

-- Any number of calls, with any sinks, clocks and limits, one after the other.
pub data Steps : Outbox → Outbox → Type 0 where
  done : {o : Outbox} → Steps o o
  next : {o p q : Outbox} → Step o p → Steps p q → Steps o q

-- `Table` contents when the database is created.
abbrev pub empty_outbox : Outbox
empty_outbox = record { alerts = []; attempts = []; marks = []; next_id = 1 }

Step-IsWellFormed : {o p : Outbox} → Step o p → IsWellFormed o → IsWellFormed p
Step-IsWellFormed (enqueued encode at key kind document subject subject_ts) h =
    enqueue_alert-IsWellFormed encode at key kind document subject subject_ts _ h
Step-IsWellFormed (ran d limit now) h = deliver_pending_alerts-IsWellFormed d limit now _ h

Steps-invariant : {o p : Outbox} → Steps o p → IsWellFormed o → IsWellFormed p
Steps-invariant done h = h
Steps-invariant (next s ss) h = Steps-invariant ss (Step-IsWellFormed s h)

-- Whatever alerts are enqueued and whatever delivery runs take place, with any sinks, clocks and
-- limits: from the empty outbox on, no two alerts share an id or a key, and no alert is delivered
-- or expired more than once.
pub Steps-IsWellFormed : (o : Outbox) → Steps empty_outbox o → IsWellFormed o
Steps-IsWellFormed o ss = Steps-invariant ss (record {
  ids_unique = λ id. omega arith;
  ids_below = tt;
  keys_unique = λ key. omega arith;
  settled_once = λ id. omega arith;
})
