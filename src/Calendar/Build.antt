-- ===== src/Calendar/Build.antt =====
-- The constructors `Session` and `SessionCalendar`.
use mathlib.Core.List.{Perm}
use research_platform.Prelude.{
  ℕ, ◌%◌, ◌<◌, ◌≡◌, refl, false, List, [], ◌∷◌, arith, ltb, ltb→ge, Bool-cases, or-eq-false, inl,
  inr, All,
}
use research_platform.Prelude.Sort.{sort_by, sort_by-perm, sort_by-All}
use research_platform.Result.{ok, ok-injective}
use research_platform.Calendar.{
  Datetime, Session, SessionCalendar, sessions, one_minute, make_session, make_calendar,
  build_calendar, overlaps, open_key,
}
use research_platform.Calendar.Lookup.{IsChained, IsValid}

-- What `Session.__post_init__` leaves of a session.
pub record IsSession (s : Session) : Type 0 where
  pub ordered : s.open_utc < s.close_utc
  pub opens_whole : s.open_utc % one_minute ≡ 0
  pub closes_whole : s.close_utc % one_minute ≡ 0

-- A session that `make_session` returns opens before it closes, on whole minutes.
pub make_session-IsSession :
    (day : ℕ) (opens closes : Datetime) (s : Session)
    → make_session day opens closes ≡ ok s
    → IsSession s
unfolding make_session
make_session-IsSession day (Datetime.naive a) closes s e = cc
make_session-IsSession day (Datetime.aware a) (Datetime.naive b) s e = ground arith
make_session-IsSession day (Datetime.aware a) (Datetime.aware b) s e = ground arith

overlaps-IsChained :
    (s : Session) (ss : List Session)
    → IsSession s
    → All IsSession ss
    → overlaps s ss ≡ false
    → IsChained (s ∷ ss)
unfolding overlaps
overlaps-IsChained s [] h hs e = (h.ordered, h.opens_whole, h.closes_whole, tt, tt)
overlaps-IsChained s (t ∷ ts) h hs e =
    let (apart, rest) = or-eq-false (ltb t.open_utc s.close_utc) (overlaps t ts) e in
    (
      h.ordered,
      h.opens_whole,
      h.closes_whole,
      ltb→ge _ _ apart,
      overlaps-IsChained t ts hs.0 hs.1 rest,
    )

build_calendar-IsValid :
    (ss : List Session) (cal : SessionCalendar)
    → All IsSession ss
    → build_calendar ss ≡ ok cal
    → IsValid cal × (sessions cal ≡ ss)
build_calendar-IsValid [] cal h e = cc
build_calendar-IsValid (s ∷ ss) cal h e = elim (Bool-cases (overlaps s ss)) [
  | inl clash ↦ cc (rw clash at e)
  | inr apart ↦
      let made : record { first = s; rest = ss } ≡ cal = ok-injective (rw apart at e) in
      rw (← made) (overlaps-IsChained s ss h.0 h.1 apart, refl)
]

-- Given checked sessions, a calendar that `make_calendar` returns is valid (ordered, without
-- overlap) and holds exactly the given sessions.
pub make_calendar-IsValid :
    (given : List Session) (cal : SessionCalendar)
    → All IsSession given
    → make_calendar given ≡ ok cal
    → IsValid cal × Perm (sessions cal) given
unfolding make_calendar
make_calendar-IsValid given cal h e =
    let (valid, same) =
      build_calendar-IsValid (sort_by open_key given) cal (sort_by-All open_key IsSession given h)
        e in
    (valid, rw same (sort_by-perm open_key given))
