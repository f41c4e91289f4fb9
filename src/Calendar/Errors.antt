-- ===== src/Calendar/Errors.antt =====
-- The exceptions of the calendar's queries of an instant.
use research_platform.Prelude.{ℕ, ◌%◌, ◌≡◌, true, arith}
use research_platform.Result.{Result, ok, err, calendar_range}
use research_platform.Calendar.{
  SessionCalendar, one_minute, next_expected_minute, is_expected_minute,
  last_expected_minute_before,
}

-- The call returns or raises `CalendarRangeError`.
abbrev pub SafeQuery : {A : Type 0} → Result A → Type 0
SafeQuery (ok _) = Unit
SafeQuery (err calendar_range) = Unit
SafeQuery (err _) = ⊥

pub next_expected_minute-SafeQuery :
    (cal : SessionCalendar) (ts : ℕ) → SafeQuery (next_expected_minute cal ts)
unfolding next_expected_minute
next_expected_minute-SafeQuery cal ts = ground arith

pub is_expected_minute-SafeQuery :
    (cal : SessionCalendar) (ts : ℕ) → SafeQuery (is_expected_minute cal ts)
unfolding is_expected_minute
is_expected_minute-SafeQuery cal ts = ground arith

pub last_expected_minute_before-SafeQuery :
    (cal : SessionCalendar) (ts : ℕ) → SafeQuery (last_expected_minute_before cal ts)
unfolding last_expected_minute_before
last_expected_minute_before-SafeQuery cal ts = ground arith

-- Only whole minutes are expected.
pub is_expected_minute_whole :
    (cal : SessionCalendar) (ts : ℕ) → is_expected_minute cal ts ≡ ok true → ts % one_minute ≡ 0
unfolding is_expected_minute
is_expected_minute_whole cal ts h = ground arith
