-- ===== src/Calendar.antt =====
-- src/core/domain/calendar.py: the expected-minute calendar and the evaluation clock. An aware `datetime` is the number of
-- microseconds of its UTC instant since year 1, so `astimezone(timezone.utc)` is the identity on
-- it; a `date` is its ordinal.
pub mod Lookup
pub mod Next
pub mod Last
pub mod Build
pub mod Minutes
pub mod Errors
use research_platform.Prelude.{
  ℕ, zero, suc, ◌+◌, ◌-◌, ◌%◌, ◌/◌, Bool, true, false, ◌&&◌, ◌||◌, not, Option, none, some, List,
  [], ◌∷◌, map, ltb, leb, ◌==◌, if◌then◌else◌, get_elem?, last_or, length, min, max,
}
use research_platform.Prelude.Sort.{sort_by}
use research_platform.Result.{
  Result, ok, err, value_error, calendar_range, out_of_fuel, ◌>>=◌, ◌>>◌, raise_if, guard, or_raise,
}

-- A `datetime`: naive, or aware at an instant.
pub data Datetime : Type 0 where
  naive : ℕ → Datetime
  aware : ℕ → Datetime

-- `timedelta(minutes=1)`, in microseconds.
abbrev pub one_minute : ℕ
one_minute = 60_000_000

-- `_require_utc`
unfoldable pub require_utc : Datetime → Result ℕ
require_utc (naive _) = err value_error
require_utc (aware t) = ok t

-- `_is_whole_minute`
abbrev pub is_whole_minute : ℕ → Bool
is_whole_minute t = t % one_minute == 0

-- `ts.replace(second=0, microsecond=0)`
abbrev pub floor_minute : ℕ → ℕ
floor_minute t = t - t % one_minute

pub record Session : Type 0 where
  pub day : ℕ
  pub open_utc : ℕ
  pub close_utc : ℕ

-- `Session.__post_init__`
unfoldable pub make_session : ℕ → Datetime → Datetime → Result Session
unfolding require_utc
make_session day opens closes = do
  open_utc ← require_utc opens
  guard (is_whole_minute open_utc) value_error
  close_utc ← require_utc closes
  guard (is_whole_minute close_utc) value_error
  raise_if (leb close_utc open_utc) value_error
  ok (record { day = day; open_utc = open_utc; close_utc = close_utc })

-- The sessions in order; the constructor refuses an empty list.
pub record SessionCalendar : Type 0 where
  pub first : Session
  pub rest : List Session

abbrev pub sessions : SessionCalendar → List Session
sessions cal = cal.first ∷ cal.rest

abbrev pub last_session : SessionCalendar → Session
last_session cal = last_or cal.first cal.rest

abbrev pub open_key : Session → ℕ
open_key s = s.open_utc

abbrev pub close_key : Session → ℕ
close_key s = s.close_utc

-- The loop of `__init__` over neighbours.
unfoldable pub overlaps : Session → List Session → Bool
overlaps _ [] = false
overlaps previous (current ∷ rest) =
    ltb current.open_utc previous.close_utc || overlaps current rest

abbrev pub build_calendar : List Session → Result SessionCalendar
build_calendar [] = err value_error
build_calendar (first ∷ rest) =
    if overlaps first rest then err value_error else ok (record { first = first; rest = rest })

-- `SessionCalendar.__init__`
unfoldable pub make_calendar : List Session → Result SessionCalendar
unfolding overlaps
make_calendar given = build_calendar (sort_by open_key given)

-- `bisect.bisect_right` on an ascending list.
unfoldable pub bisect_right : List ℕ → ℕ → ℕ
bisect_right [] _ = 0
bisect_right (x ∷ xs) t = if leb x t then suc (bisect_right xs t) else 0

-- `bisect.bisect_left` on an ascending list.
unfoldable pub bisect_left : List ℕ → ℕ → ℕ
bisect_left [] _ = 0
bisect_left (x ∷ xs) t = if ltb x t then suc (bisect_left xs t) else 0

-- `_check_lower`
abbrev pub check_lower : SessionCalendar → ℕ → Result (Unit {0})
check_lower cal ts = raise_if (ltb ts cal.first.open_utc) calendar_range

-- `self._sessions[bisect.bisect_right(self._closes, ts)]`, `none` past the end.
unfoldable pub session_at : SessionCalendar → ℕ → Option Session
unfolding bisect_right
session_at cal ts = get_elem? (sessions cal) (bisect_right (map close_key (sessions cal)) ts)

-- The three exits of `session_containing` once the index is found.
abbrev pub hit_or_gap : ℕ → Option Session → Result (Option Session)
hit_or_gap ts none = err calendar_range
hit_or_gap ts (some s) = ok (if leb s.open_utc ts then some s else none)

unfoldable pub session_containing : SessionCalendar → ℕ → Result (Option Session)
unfolding session_at
session_containing cal ts = do check_lower cal ts; hit_or_gap ts (session_at cal ts)

abbrev pub is_some {ℓ} : {A : Type ℓ} → Option A → Bool
is_some none = false
is_some (some _) = true

unfoldable pub is_expected_minute : SessionCalendar → ℕ → Result Bool
unfolding session_containing
is_expected_minute cal ts =
    if not (is_whole_minute ts)
    then ok false
    else if ltb (last_session cal).close_utc ts
    then err calendar_range
    else if ts == (last_session cal).close_utc
    then ok false
    else do found ← session_containing cal ts; ok (is_some found)

unfoldable pub first_expected_minute_at_or_after : SessionCalendar → ℕ → Result ℕ
unfolding session_at
first_expected_minute_at_or_after cal ts = do
  check_lower cal ts
  let minute = if ltb (floor_minute ts) ts then floor_minute ts + one_minute else floor_minute ts
  s ← or_raise (session_at cal minute) calendar_range
  ok (max minute s.open_utc)

unfoldable pub next_expected_minute : SessionCalendar → ℕ → Result ℕ
unfolding first_expected_minute_at_or_after
next_expected_minute cal ts = first_expected_minute_at_or_after cal (floor_minute ts + one_minute)

-- The `while` of `expected_minutes`, from `minute` on.
unfoldable pub minutes_from : ℕ → SessionCalendar → ℕ → ℕ → ℕ → Result (List ℕ)
minutes_from zero cal final_minute end minute = err out_of_fuel
minutes_from (suc fuel) cal final_minute end minute =
    let onward = next_expected_minute cal minute >>= minutes_from fuel cal final_minute end in
    if leb end minute
    then ok []
    else if minute == final_minute
    then ok (minute ∷ [])
    else onward >>= λ later. ok (minute ∷ later)

abbrev collect_minutes : Bool → Result (List ℕ) → Result (List ℕ)
collect_minutes empty loop = if empty then ok [] else loop

unfoldable pub expected_minutes : SessionCalendar → ℕ → ℕ → Result (List ℕ)
expected_minutes cal start end = do
  check_lower cal start
  let last_close = (last_session cal).close_utc
  let final_minute = last_close - one_minute
  let fuel = suc (end - start)
  raise_if (ltb last_close end) calendar_range
  collect_minutes (leb end start || ltb final_minute start)
      (first_expected_minute_at_or_after cal start >>= minutes_from fuel cal final_minute end)

-- Equality of the dataclass, field by field.
abbrev pub session_eq : Session → Session → Bool
session_eq s t = s.day == t.day && (s.open_utc == t.open_utc && s.close_utc == t.close_utc)

-- `sessions.index(first)`
unfoldable pub index_of : Session → List Session → Result ℕ
index_of s [] = err value_error
index_of s (t ∷ ts) =
    let later = index_of s ts in if session_eq s t then ok 0 else later >>= λ i. ok (suc i)

unfoldable pub nth_session_close : SessionCalendar → Session → ℕ → Result ℕ
unfolding index_of
nth_session_close cal s n = do
  raise_if (ltb n 1) value_error
  i ← index_of s (sessions cal)
  t ← or_raise (get_elem? (sessions cal) (i + n - 1)) calendar_range
  ok t.close_utc

abbrev pub is_at : ℕ → Option Session → Bool
is_at ts none = false
is_at ts (some s) = s.close_utc == ts

unfoldable pub is_session_close : SessionCalendar → ℕ → Bool
unfolding bisect_left
is_session_close cal ts =
    is_at ts (get_elem? (sessions cal) (bisect_left (map close_key (sessions cal)) ts))

-- The session that `bisect_left(self._opens, ts) - 1` names, where the index is not negative.
abbrev pub previous_session : SessionCalendar → ℕ → Option Session
previous_session cal zero = none
previous_session cal (suc i) = get_elem? (sessions cal) i

unfoldable pub last_expected_minute_before : SessionCalendar → ℕ → Result ℕ
unfolding bisect_left
last_expected_minute_before cal ts = do
  s ← or_raise (previous_session cal (bisect_left (map open_key (sessions cal)) ts)) calendar_range
  let candidate = min ts s.close_utc
  let floored = floor_minute candidate
  ok (if floored == candidate then floored - one_minute else floored)

-- First complete candle that starts at or after the decision time.
unfoldable pub evaluation_start_ts : SessionCalendar → ℕ → Result ℕ
unfolding first_expected_minute_at_or_after
evaluation_start_ts cal created_at = first_expected_minute_at_or_after cal created_at

-- Session 1 is the one that contains the signal's evaluation start.
unfoldable pub signal_valid_until_ts : SessionCalendar → ℕ → ℕ → Result ℕ
unfolding session_containing nth_session_close
signal_valid_until_ts cal start valid_sessions = do
  guard (leb 1 valid_sessions && leb valid_sessions 20) value_error
  found ← session_containing cal start
  s ← or_raise found value_error
  nth_session_close cal s valid_sessions

-- `sessions[start_index : end_index + 1]`
abbrev slice : ℕ → ℕ → List Session → List Session
slice zero zero ss = []
slice zero (suc n) [] = []
slice zero (suc n) (s ∷ ss) = s ∷ slice zero n ss
slice (suc i) n [] = []
slice (suc i) zero (s ∷ ss) = []
slice (suc i) (suc n) (s ∷ ss) = slice i n ss

-- The sessions that `calendar_window_hash` takes: from the one that contains `start` through the
-- first that opens after `until`.
unfoldable pub calendar_window : SessionCalendar → (start until : ℕ) → Result (List Session)
unfolding session_containing index_of bisect_right
calendar_window cal start until = do
  found ← session_containing cal start
  first ← or_raise found value_error
  start_index ← index_of first (sessions cal)
  let end_index = bisect_right (map open_key (sessions cal)) until
  raise_if (leb (length (sessions cal)) end_index) calendar_range
  ok (slice start_index (end_index + 1) (sessions cal))
