-- ===== src/Ledger.antt =====
-- src/virtual_orders/ledger/events.py: the append-only events of an order. `prepare` is
-- `prepare_event` of storage/codec.py, whose text and digest come from libraries.
pub mod Idempotent
use text.Mathlib.Text.{◌==◌ as str_eq}
use research_platform.Prelude.{
  ℕ, suc, ◌+◌, Bool, true, false, ◌&&◌, ◌||◌, Option, none, some, String, List, [], ◌∷◌, ◌++◌, ltb,
  if◌then◌else◌, length, ◌==◌,
}
use research_platform.Decimal.{Decimal}
use research_platform.Domain.Values.{Fields}
use research_platform.Domain.Order.{EventType, market_event, Event}

-- storage/codec.py
pub record PreparedEvent : Type 0 where
  pub type : EventType
  pub event_key : String
  pub bar_ts : Option ℕ
  pub price : Option Decimal
  pub qty : Option Decimal
  pub bar_batch_id : Option ℕ
  pub payload : Fields
  pub hash_material : String
  pub payload_hash : String

-- An item of `events`.
pub data EventItem : Type 0 where
  raw : Event → EventItem
  ready : PreparedEvent → EventItem

-- The `LedgerIntegrityError`s of this file, by their kind and the key of the event.
pub data IntegrityError : Type 0 where
  event_before_evaluation_start event_hash_conflict stored_hash_mismatch : String → IntegrityError

pub data Ledger (A : Type 0) : Type 0 where
  done : A → Ledger A
  failed : IntegrityError → Ledger A

-- The dictionary from event keys to hashes.
abbrev pub Known : Type 0
Known = List (String × String)

abbrev pub find : String → Known → Option String
find key [] = none
find key (entry ∷ known) = if str_eq entry.0 key then some entry.1 else find key known

abbrev early : ℕ → Option ℕ → Bool
early start none = true
early start (some ts) = ltb ts start

-- A market event without a bar, or with a bar before the evaluation starts.
abbrev pub before_start : ℕ → PreparedEvent → Bool
before_start start e = market_event e.type && early start e.bar_ts

unfoldable pub as_prepared : (Event → PreparedEvent) → EventItem → PreparedEvent
as_prepared prepare (EventItem.raw e) = prepare e
as_prepared prepare (EventItem.ready e) = e

abbrev pub with_fresh :
    PreparedEvent → Ledger (List PreparedEvent × Known) → Ledger (List PreparedEvent × Known)
with_fresh e (failed x) = failed x
with_fresh e (done (fresh, known)) = done (e ∷ fresh, known)

-- What happens to an event whose key has the hash, if any.
abbrev pub admit :
    PreparedEvent
    → Option String
    → (skipped added : Ledger (List PreparedEvent × Known)) → Ledger (List PreparedEvent × Known)
admit e none skipped added = with_fresh e added
admit e (some existing) skipped added =
    if str_eq existing e.payload_hash then skipped else failed (event_hash_conflict e.event_key)

-- `dedupe_events` over prepared events: the events to insert, and the dictionary as it is left.
unfoldable pub dedupe_prepared :
    (evaluation_start_ts : ℕ) → Known → List PreparedEvent → Ledger (List PreparedEvent × Known)
dedupe_prepared start known [] = done ([], known)
dedupe_prepared start known (e ∷ es) =
    let skipped = dedupe_prepared start known es in
    let added = dedupe_prepared start ((e.event_key, e.payload_hash) ∷ known) es in
    if before_start start e
    then failed (event_before_evaluation_start e.event_key)
    else admit e (find e.event_key known) skipped added

abbrev pub prepare_all : (Event → PreparedEvent) → List EventItem → List PreparedEvent
prepare_all prepare [] = []
prepare_all prepare (i ∷ is) = as_prepared prepare i ∷ prepare_all prepare is

unfoldable pub dedupe_events :
    (Event → PreparedEvent)
    → Known
    → List EventItem
    → (evaluation_start_ts : ℕ) → Ledger (List PreparedEvent × Known)
unfolding as_prepared
dedupe_events prepare known events start = dedupe_prepared start known (prepare_all prepare events)

pub record StoredEvent : Type 0 where
  pub seq : ℕ
  pub prepared : PreparedEvent

-- The rows of one order in `order_events`, the newest first.
abbrev pub Rows : Type 0
Rows = List StoredEvent

-- `known_hashes`
abbrev pub known_hashes : Rows → Known
known_hashes [] = []
known_hashes (row ∷ rows) = (row.prepared.event_key, row.prepared.payload_hash) ∷ known_hashes rows

-- The loop of `insert_event` over the fresh events.
unfoldable pub insert_events : Rows → (seq : ℕ) → List PreparedEvent → Rows
insert_events rows seq [] = rows
insert_events rows seq (e ∷ es) =
    insert_events (record { seq = seq; prepared = e } ∷ rows) (seq + 1) es

pub record AppendResult : Type 0 where
  pub inserted : List PreparedEvent
  pub first_seq : ℕ
  pub next_seq : ℕ

abbrev pub appended : Rows → ℕ → Ledger (List PreparedEvent × Known) → Ledger (AppendResult × Rows)
appended rows next_seq (failed x) = failed x
appended rows next_seq (done (fresh, known)) = done (
  record { inserted = fresh; first_seq = next_seq; next_seq = next_seq + length fresh },
  insert_events rows next_seq fresh,
)

-- `append_events`, with the rows that it leaves.
unfoldable pub append_events :
    (Event → PreparedEvent)
    → Rows
    → (evaluation_start_ts : ℕ) → List EventItem
    → (next_seq : ℕ) → Ledger (AppendResult × Rows)
append_events prepare rows start events next_seq =
    appended rows next_seq (dedupe_events prepare (known_hashes rows) events start)

-- The row joins the rows before it, if its hash is the hash of its material.
abbrev add_verified : (matches : Bool) → StoredEvent → Ledger Rows → Ledger Rows
add_verified matches row (failed x) = failed x
add_verified true row (done checked) = done (checked ++ row ∷ [])
add_verified false row (done checked) = failed (stored_hash_mismatch row.prepared.event_key)

-- The loop of `stored_events`, from the oldest row on; `hash` is `material_hash`.
unfoldable pub verify_rows : (String → String) → Rows → Ledger Rows
verify_rows hash [] = done []
verify_rows hash (row ∷ rows) =
    add_verified (str_eq (hash row.prepared.hash_material) row.prepared.payload_hash) row
      (verify_rows hash rows)
