-- ===== src/Ledger/Idempotent.antt =====
-- `dedupe_events` and `append_events` on events that were recorded before.
use mathlib.Core.Path.{subst}
use text.Mathlib.Text.{◌==◌ as str_eq}
use text.Mathlib.TextEquality.{eq_iff}
use text.Mathlib.TextPositions.{eq_refl}
use research_platform.Prelude.{
  ℕ, ◌+◌, ◌≡◌, refl, ap, sym, ◌∙◌, false, none, some, String, List, [], ◌∷◌, Bool-cases,
  Option-cases, inl, inr, All,
}
use research_platform.Domain.Order.{Event}
use research_platform.Ledger.{
  PreparedEvent, EventItem, Ledger, done, failed, Known, find, before_start, with_fresh,
  dedupe_prepared, dedupe_events, prepare_all, Rows, known_hashes, insert_events, append_events,
  AppendResult, appended,
}

-- The dictionary has the event, under its hash.
abbrev pub Recorded : Known → PreparedEvent → Type 0
Recorded known e = find e.event_key known ≡ some e.payload_hash

-- Every entry of the first is found in the second.
abbrev Extends : Known → Known → Type 0
Extends known later = (key hash : String) → find key known ≡ some hash → find key later ≡ some hash

-- What a successful `dedupe_prepared` says: nothing that was known is lost, every event is
-- recorded, and none came before the start.
abbrev Admitted : ℕ → Known → List PreparedEvent → Ledger (List PreparedEvent × Known) → Type 0
Admitted start known es (failed _) = Unit
Admitted start known es (done (fresh, later)) =
    Extends known later × All (λ e. (before_start start e ≡ false) × Recorded later e) es

Extends-cons :
    (e : PreparedEvent) (known : Known)
    → find e.event_key known ≡ none
    → Extends known ((e.event_key, e.payload_hash) ∷ known)
Extends-cons e known h key hash k = elim (Bool-cases (str_eq e.event_key key)) [
  | inr other ↦ rw other k
  | inl same ↦ (cc (h, k, ap (λ x. find x known) ((eq_iff e.event_key key).0 same)))
]

with_fresh-Admitted :
    (start : ℕ) (known : Known) (e : PreparedEvent) (es : List PreparedEvent)
    (r : Ledger (List PreparedEvent × Known))
    → find e.event_key known ≡ none
    → before_start start e ≡ false
    → Admitted start ((e.event_key, e.payload_hash) ∷ known) es r
    → Admitted start known (e ∷ es) (with_fresh e r)
with_fresh-Admitted start known e es (failed x) h b k = tt
with_fresh-Admitted start known e es (done (fresh, later)) h b k = (
  (λ key hash found. k.0 key hash (Extends-cons e known h key hash found)),
  ((b, k.0 e.event_key e.payload_hash (rw (eq_refl e.event_key) refl)), k.1),
)

skipped-Admitted :
    (start : ℕ) (known : Known) (e : PreparedEvent) (es : List PreparedEvent)
    (r : Ledger (List PreparedEvent × Known))
    → Recorded known e
    → before_start start e ≡ false
    → Admitted start known es r
    → Admitted start known (e ∷ es) r
skipped-Admitted start known e es (failed x) h b k = tt
skipped-Admitted start known e es (done (fresh, later)) h b k =
    (k.0, ((b, k.0 e.event_key e.payload_hash h), k.1))

dedupe_prepared-Admitted :
    (start : ℕ) (known : Known) (es : List PreparedEvent)
    → Admitted start known es (dedupe_prepared start known es)
unfolding dedupe_prepared
dedupe_prepared-Admitted start known [] = ((λ key hash h. h), tt)
dedupe_prepared-Admitted start known (e ∷ es) = elim (Bool-cases (before_start start e)) [
  | inl early ↦ rw early tt
  | inr on_time ↦ rw on_time (elim (Option-cases (find e.event_key known)) [
    | inl new ↦ rw new (
        with_fresh-Admitted start known e es _ new on_time
          (dedupe_prepared-Admitted start ((e.event_key, e.payload_hash) ∷ known) es))
    | inr (hash, found) ↦ rw found (elim (Bool-cases (str_eq hash e.payload_hash)) [
      | inr conflict ↦ rw conflict tt
      | inl same ↦ rw same (
          skipped-Admitted start known e es _
            (found ∙ ap some ((eq_iff hash e.payload_hash).0 same)) on_time
            (dedupe_prepared-Admitted start known es))
    ])
  ])
]

-- Events that are recorded are skipped.
dedupe_prepared-Recorded :
    (start : ℕ) (known : Known) (es : List PreparedEvent)
    → All (λ e. (before_start start e ≡ false) × Recorded known e) es
    → dedupe_prepared start known es ≡ done ([], known)
unfolding dedupe_prepared
dedupe_prepared-Recorded start known [] h = refl
dedupe_prepared-Recorded start known (e ∷ es) h =
    rw (h.0.0, h.0.1, eq_refl e.payload_hash) (dedupe_prepared-Recorded start known es h.1)

-- If `dedupe_events` returns, going through the same events again with the dictionary that it
-- leaves yields no fresh event.
pub dedupe_events_twice :
    (prepare : Event → PreparedEvent) (known : Known) (items : List EventItem) (start : ℕ)
    (fresh : List PreparedEvent) (later : Known)
    → dedupe_events prepare known items start ≡ done (fresh, later)
    → dedupe_events prepare later items start ≡ done ([], later)
unfolding dedupe_events
dedupe_events_twice prepare known items start fresh later e =
    dedupe_prepared-Recorded start later (prepare_all prepare items)
      (subst (Admitted start known (prepare_all prepare items)) e
        (dedupe_prepared-Admitted start known (prepare_all prepare items))).1

-- The rows that the fresh events leave have the dictionary that `dedupe_events` leaves.
abbrev Matches : Rows → Ledger (List PreparedEvent × Known) → Type 0
Matches rows (failed _) = Unit
Matches rows (done (fresh, later)) = (seq : ℕ) → known_hashes (insert_events rows seq fresh) ≡ later

with_fresh-Matches :
    (rows : Rows) (e : PreparedEvent) (r : Ledger (List PreparedEvent × Known))
    → ((seq : ℕ) → Matches (record { seq = seq; prepared = e } ∷ rows) r)
    → Matches rows (with_fresh e r)
unfolding insert_events
with_fresh-Matches rows e (failed _) h = tt
with_fresh-Matches rows e (done (fresh, later)) h = λ seq. h seq (seq + 1)

dedupe_prepared-Matches :
    (start : ℕ) (rows : Rows) (es : List PreparedEvent)
    → Matches rows (dedupe_prepared start (known_hashes rows) es)
unfolding dedupe_prepared insert_events
dedupe_prepared-Matches start rows [] = λ seq. refl
dedupe_prepared-Matches start rows (e ∷ es) = elim (Bool-cases (before_start start e)) [
  | inl early ↦ rw early tt
  | inr on_time ↦ rw on_time (elim (Option-cases (find e.event_key (known_hashes rows))) [
    | inl new ↦ rw new (
        with_fresh-Matches rows e _
          (λ seq. dedupe_prepared-Matches start (record { seq = seq; prepared = e } ∷ rows) es))
    | inr (hash, found) ↦ rw found (elim (Bool-cases (str_eq hash e.payload_hash)) [
      | inr conflict ↦ rw conflict tt
      | inl same ↦ rw same (dedupe_prepared-Matches start rows es)
    ])
  ])
]

-- What `append_events` leaves, so that a second call finds nothing new.
abbrev Repeats :
    (Event → PreparedEvent) → ℕ → List EventItem → Ledger (AppendResult × Rows) → Type 0
Repeats prepare start items (failed _) = Unit
Repeats prepare start items (done (result, rows)) =
    (next_seq : ℕ)
    → append_events prepare rows start items next_seq
      ≡ done (record { inserted = []; first_seq = next_seq; next_seq = next_seq + 0 }, rows)

appended-Repeats :
    (prepare : Event → PreparedEvent) (rows : Rows) (start n : ℕ) (items : List EventItem)
    (r : Ledger (List PreparedEvent × Known))
    → Admitted start (known_hashes rows) (prepare_all prepare items) r
    → Matches rows r
    → Repeats prepare start items (appended rows n r)
unfolding append_events dedupe_events insert_events
appended-Repeats prepare rows start n items (failed _) h k = tt
appended-Repeats prepare rows start n items (done (fresh, later)) h k = λ next_seq.
    ap (appended (insert_events rows n fresh) next_seq) (
      dedupe_prepared-Recorded start (known_hashes (insert_events rows n fresh))
        (prepare_all prepare items)
        (subst
          (λ d.
            All (λ e. (before_start start e ≡ false) × Recorded d e) (prepare_all prepare items))
          (sym (k n)) h.1))

append_events-Repeats :
    (prepare : Event → PreparedEvent) (rows : Rows) (start n : ℕ) (items : List EventItem)
    → Repeats prepare start items (append_events prepare rows start items n)
unfolding append_events dedupe_events
append_events-Repeats prepare rows start n items =
    appended-Repeats prepare rows start n items _
      (dedupe_prepared-Admitted start (known_hashes rows) (prepare_all prepare items))
      (dedupe_prepared-Matches start rows (prepare_all prepare items))

-- If `append_events` returns, recording the same events again, from any sequence number on, inserts
-- nothing and leaves the rows as they are.
pub append_events_twice :
    (prepare : Event → PreparedEvent) (rows : Rows) (start n next_seq : ℕ) (items : List EventItem)
    (result : AppendResult) (rows' : Rows)
    → append_events prepare rows start items n ≡ done (result, rows')
    → append_events prepare rows' start items next_seq
      ≡ done (record { inserted = []; first_seq = next_seq; next_seq = next_seq + 0 }, rows')
append_events_twice prepare rows start n next_seq items result rows' e =
    subst (Repeats prepare start items) e (append_events-Repeats prepare rows start n items)
      next_seq
