-- ===== src/Tests/Calendars.antt =====
-- src/core/domain/calendar.py at concrete sessions.
use research_platform.Prelude.{ℕ, ◌≡◌, refl, List, [], ◌∷◌, ◌&&◌, arith}
use mathlib.Core.List.{Perm}
use research_platform.Prelude.Sort.{sort_by}
use research_platform.Result.{ok}
use research_platform.Calendar.{
  Datetime, Session, SessionCalendar, sessions, make_session, make_calendar, is_whole_minute,
  is_expected_minute, expected_minutes, next_expected_minute, last_expected_minute_before,
  first_expected_minute_at_or_after, minutes_from,
}
use research_platform.Calendar.Lookup.{IsValid, in_session, is_expected_minute-in_session}
use research_platform.Calendar.Next.{first_expected_minute_at_or_after_total}
use research_platform.Calendar.Last.{IsLastBefore, last_expected_minute_before-IsLastBefore}
use research_platform.Calendar.Build.{IsSession, make_calendar-IsValid}
use research_platform.Calendar.Minutes.{Enumerates, expected_minutes-Enumerates}

-- Minutes 10 to 14 of day 1 and 20 to 22 of day 2.
abbrev pub morning : Session
morning = record { day = 1; open_utc = 600_000_000; close_utc = 840_000_000 }

abbrev pub evening : Session
evening = record { day = 2; open_utc = 1_200_000_000; close_utc = 1_320_000_000 }

abbrev pub two_days : SessionCalendar
two_days = record { first = morning; rest = evening ∷ [] }

pub two_days-IsValid : IsValid two_days
two_days-IsValid = (omega arith, refl, refl, omega arith, (omega arith, refl, refl, tt, tt))

-- The last minute of day 1 is followed by the first of day 2.
next_after_close : next_expected_minute two_days 780_000_000 ≡ ok 1_200_000_000
unfolding next_expected_minute
next_after_close = refl

first_at_half_minute : first_expected_minute_at_or_after two_days 630_000_000 ≡ ok 660_000_000
unfolding first_expected_minute_at_or_after
first_at_half_minute = refl

last_before_evening : last_expected_minute_before two_days 1_200_000_000 ≡ ok 780_000_000
unfolding last_expected_minute_before
last_before_evening = refl

morning_made : make_session 1 (Datetime.aware 600_000_000) (Datetime.aware 840_000_000) ≡ ok morning
unfolding make_session
morning_made = refl

two_days_made : make_calendar (evening ∷ morning ∷ []) ≡ ok two_days
unfolding make_calendar sort_by
two_days_made = refl

minutes_across :
    expected_minutes two_days 720_000_000 1_260_000_000
    ≡ ok (720_000_000 ∷ 780_000_000 ∷ 1_200_000_000 ∷ [])
unfolding expected_minutes minutes_from first_expected_minute_at_or_after next_expected_minute
minutes_across = refl

is_expected_minute-in_session_example :
    is_expected_minute two_days 660_000_000
    ≡ ok (is_whole_minute 660_000_000 && in_session 660_000_000 (sessions two_days))
is_expected_minute-in_session_example =
    is_expected_minute-in_session two_days 660_000_000 two_days-IsValid (omega arith) (omega arith)

first_expected_minute_at_or_after_total_example :
    (r : ℕ) × (first_expected_minute_at_or_after two_days 630_000_000 ≡ ok r)
first_expected_minute_at_or_after_total_example =
    first_expected_minute_at_or_after_total two_days 630_000_000 (omega arith) (omega arith)

last_expected_minute_before-IsLastBefore_example : IsLastBefore two_days 1_200_000_000 780_000_000
last_expected_minute_before-IsLastBefore_example =
    last_expected_minute_before-IsLastBefore two_days 1_200_000_000 780_000_000 two_days-IsValid
      last_before_evening

morning-IsSession : IsSession morning
morning-IsSession = record { ordered = omega arith; opens_whole = refl; closes_whole = refl }

evening-IsSession : IsSession evening
evening-IsSession = record { ordered = omega arith; opens_whole = refl; closes_whole = refl }

make_calendar-IsValid_example : IsValid two_days × Perm (sessions two_days) (evening ∷ morning ∷ [])
make_calendar-IsValid_example =
    make_calendar-IsValid (evening ∷ morning ∷ []) two_days
      (evening-IsSession, (morning-IsSession, tt)) two_days_made

expected_minutes-Enumerates_example :
    (ms : List ℕ) × (expected_minutes two_days 720_000_000 1_260_000_000 ≡ ok ms)
    × Enumerates two_days 720_000_000 1_260_000_000 ms
expected_minutes-Enumerates_example =
    expected_minutes-Enumerates two_days 720_000_000 1_260_000_000 two_days-IsValid (omega arith)
      (omega arith)
