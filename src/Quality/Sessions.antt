-- ===== src/Quality/Sessions.antt =====
-- The table of `session_quality`, against the expected minutes.
use research_platform.Prelude.{
  ℕ, ◌+◌, ◌≤◌, ◌≡◌, refl, ap, ◌∙◌, Bool, true, false, Option, none, some, List, [], ◌∷◌, ◌++◌,
  length, length-append, arith, if◌then◌else◌, Bool-cases, inl, inr, ◌==◌,
}
use research_platform.Result.{ok}
use research_platform.Calendar.{
  SessionCalendar, Session, last_session, expected_minutes, session_containing, is_some,
}
use research_platform.Calendar.Lookup.{IsValid, session_containing_lem}
use research_platform.Calendar.Next.{IsExpected}
use research_platform.Calendar.Minutes.{
  Enumerates, expected_minutes-Enumerates, IsExpected-lt-last, first-le-IsExpected,
}
use research_platform.Quality.{
  SessionQuality, count_minute, count_minutes, is_absent, session_quality,
}

abbrev pub total_expected : List SessionQuality → ℕ
total_expected [] = 0
total_expected (q ∷ qs) = q.expected + total_expected qs

abbrev pub total_missing : List SessionQuality → ℕ
total_missing [] = 0
total_missing (q ∷ qs) = length q.missing + total_missing qs

-- How many of the minutes are absent.
abbrev pub count_absent : List ℕ → List ℕ → ℕ
count_absent present [] = 0
count_absent present (m ∷ ms) = (if is_absent present m then 1 else 0) + count_absent present ms

count_minute-total_expected :
    (day m : ℕ) (absent : Bool) (table : List SessionQuality)
    → total_expected (count_minute day m absent table) ≡ total_expected table + 1
unfolding count_minute
count_minute-total_expected day m absent [] = refl
count_minute-total_expected day m absent (q ∷ qs) =
    ground (arith, count_minute-total_expected day m absent qs)

added :
    (ms : List ℕ) (m : ℕ) (absent : Bool)
    → length (if absent then ms ++ m ∷ [] else ms) ≡ length ms + (if absent then 1 else 0)
added ms m true = length-append ms (m ∷ [])
added ms m false = omega arith

count_minute-total_missing :
    (day m : ℕ) (absent : Bool) (table : List SessionQuality)
    → total_missing (count_minute day m absent table)
      ≡ total_missing table + (if absent then 1 else 0)
unfolding count_minute
count_minute-total_missing day m true [] = refl
count_minute-total_missing day m false [] = refl
count_minute-total_missing day m absent (q ∷ qs) = elim (Bool-cases (q.day == day)) [
  | inl same ↦ rw same (omega (arith, added q.missing m absent))
  | inr other ↦ rw other (omega (arith, count_minute-total_missing day m absent qs))
]

some_found : (found : Option Session) → is_some found ≡ true → (s : Session) × (found ≡ some s)
some_found none h = cc
some_found (some s) h = (s, refl)

containing :
    (cal : SessionCalendar) (m : ℕ)
    → IsValid cal
    → IsExpected cal m
    → (s : Session) × (session_containing cal m ≡ ok (some s))
containing cal m v h =
    let (found, e, p) =
      session_containing_lem cal m v (first-le-IsExpected cal m v h)
        (IsExpected-lt-last cal m v h) in
    let (s, q) = some_found found (p ∙ h.1) in (s, e ∙ ap ok q)

abbrev Counts : List ℕ → List ℕ → List SessionQuality → List SessionQuality → Type 0
Counts present ms before after =
    (total_expected after ≡ total_expected before + length ms)
    × (total_missing after ≡ total_missing before + count_absent present ms)

count_minutes-Counts :
    (cal : SessionCalendar) (present : List ℕ) (lo until : ℕ) (ms : List ℕ)
    (table : List SessionQuality)
    → IsValid cal
    → Enumerates cal lo until ms
    → (t : List SessionQuality) × (count_minutes cal present ms table ≡ ok t)
      × Counts present ms table t
unfolding count_minutes
count_minutes-Counts cal present lo until [] table v h = (table, refl, (omega arith, omega arith))
count_minutes-Counts cal present lo until (m ∷ ms) table v h =
    let (s, e) = containing cal m v h.0.expected in
    let next = count_minute s.day m (is_absent present m) table in
    let (t, r, c) = count_minutes-Counts cal present (m + 1) until ms next v h.2 in
    (
      t,
      rw e r,
      (
        omega (arith, c.0, count_minute-total_expected s.day m (is_absent present m) table),
        omega (arith, c.1, count_minute-total_missing s.day m (is_absent present m) table),
      ),
    )

-- On a valid calendar, from the first open on and up to the last close, `session_quality` returns:
-- its sessions expect as many minutes together as `expected_minutes` lists, and miss as many as of
-- these are not present.
pub session_quality-count_absent :
    (cal : SessionCalendar) (start until : ℕ) (present : List ℕ)
    → IsValid cal
    → cal.first.open_utc ≤ start
    → until ≤ (last_session cal).close_utc
    → (ms : List ℕ) × (table : List SessionQuality) × (expected_minutes cal start until ≡ ok ms)
      × (session_quality cal start until present ≡ ok table)
      × (total_expected table ≡ length ms)
      × (total_missing table ≡ count_absent present ms)
unfolding session_quality
session_quality-count_absent cal start until present v lo hi =
    let (ms, e, h) = expected_minutes-Enumerates cal start until v lo hi in
    let (table, r, c) = count_minutes-Counts cal present start until ms [] v h in
    (ms, table, e, rw e r, omega (arith, c.0), omega (arith, c.1))
