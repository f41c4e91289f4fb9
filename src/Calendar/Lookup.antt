-- ===== src/Calendar/Lookup.antt =====
-- What a bisection over the sessions finds: `session_containing` and `is_expected_minute` against
-- a plain search of all sessions.
use research_platform.Prelude.{
  ℕ, ◌%◌, ◌≤◌, ◌<◌, ◌≡◌, inl, inr, refl, Bool, true, false, ◌&&◌, ◌||◌, Option, none, some, List,
  [], ◌∷◌, map, arith, ltb, leb, leb→le, leb→gt, ==_iff, ==→ne, ◌==◌, if◌then◌else◌, get_elem?,
  last_or, Bool-cases,
}
use research_platform.Result.{ok}
use research_platform.Calendar.{
  Session, SessionCalendar, sessions, last_session, one_minute, is_whole_minute, close_key,
  bisect_right, session_at, session_containing, is_expected_minute, is_some,
}

-- `ts` lies in the half-open interval of the session.
abbrev pub covers : Session → ℕ → Bool
covers s ts = leb s.open_utc ts && ltb ts s.close_utc

-- Some session covers `ts`.
unfoldable pub in_session : ℕ → List Session → Bool
in_session ts [] = false
in_session ts (s ∷ ss) = covers s ts || in_session ts ss

pub covers_past : (s : Session) (ts : ℕ) → s.close_utc ≤ ts → covers s ts ≡ false
covers_past s ts h = ground arith

pub covers_before : (s : Session) (ts : ℕ) → ts < s.open_utc → covers s ts ≡ false
covers_before s ts h = ground arith

covers_ahead : (s : Session) (ts : ℕ) → ts < s.close_utc → covers s ts || false ≡ leb s.open_utc ts
covers_ahead s ts h = ground arith

abbrev pub StartsBy : ℕ → List Session → Type 0
StartsBy t [] = Unit
StartsBy t (s ∷ _) = t ≤ s.open_utc

-- Sessions of whole minutes, one after the other with no overlap.
abbrev pub IsChained : List Session → Type 0
IsChained [] = Unit
IsChained (s ∷ ss) =
    (s.open_utc < s.close_utc)
    × (s.open_utc % one_minute ≡ 0)
    × (s.close_utc % one_minute ≡ 0)
    × StartsBy s.close_utc ss
    × IsChained ss

abbrev pub IsValid : SessionCalendar → Type 0
IsValid cal = IsChained (sessions cal)

-- The first session that closes after `ts`.
unfoldable pub closing_after : ℕ → List Session → Option Session
closing_after ts [] = none
closing_after ts (s ∷ ss) = if leb s.close_utc ts then closing_after ts ss else some s

pub session_at-closing_after :
    (cal : SessionCalendar) (ts : ℕ) → session_at cal ts ≡ closing_after ts (sessions cal)
unfolding session_at closing_after
session_at-closing_after cal ts = find (sessions cal)
  where
    find :
        (ss : List Session)
        → get_elem? ss (bisect_right (map close_key ss) ts) ≡ closing_after ts ss
    find [] = refl
    find (s ∷ ss) = ground (arith, find ss)

is_some_if : (b : Bool) (s : Session) → is_some (if b then some s else none) ≡ b
is_some_if true s = refl
is_some_if false s = refl

-- No later session covers an instant before the close of this one.
pub in_session_early :
    (ts : ℕ) (c : ℕ) (ss : List Session)
    → StartsBy c ss
    → IsChained ss
    → ts < c
    → in_session ts ss ≡ false
unfolding in_session
in_session_early ts c [] b v h = refl
in_session_early ts c (s ∷ ss) b v h =
    rw (covers_before s ts (omega arith)) (in_session_early ts s.close_utc ss v.3 v.4 (omega arith))

-- The session that the bisection finds decides membership.
abbrev opened_by : ℕ → Option Session → Bool
opened_by ts none = false
opened_by ts (some s) = leb s.open_utc ts

pub in_session-closing_after :
    (ts : ℕ) (ss : List Session)
    → IsChained ss
    → in_session ts ss ≡ opened_by ts (closing_after ts ss)
unfolding closing_after in_session
in_session-closing_after ts [] v = refl
in_session-closing_after ts (s ∷ ss) v = elim (Bool-cases (leb s.close_utc ts)) [
  | inl past ↦ rw (past, covers_past s ts (leb→le _ _ past)) (in_session-closing_after ts ss v.4)
  | inr ahead ↦
      rw (ahead, in_session_early ts s.close_utc ss v.3 v.4 (leb→gt _ _ ahead))
        (covers_ahead s ts (leb→gt _ _ ahead))
]

-- Before the last close some session closes later.
pub closing_after-some :
    (ts : ℕ) (s : Session) (ss : List Session)
    → ts < (last_or s ss).close_utc
    → (r : Session) × (closing_after ts (s ∷ ss) ≡ some r)
unfolding closing_after
closing_after-some ts s [] h = (s, ground arith)
closing_after-some ts s (t ∷ ss) h = elim (Bool-cases (leb s.close_utc ts)) [
  | inl past ↦ rw past (closing_after-some ts t ss h)
  | inr ahead ↦ (s, rw ahead)
]

close-le-last :
    (s : Session) (ss : List Session) → IsChained (s ∷ ss) → s.close_utc ≤ (last_or s ss).close_utc
close-le-last s [] v = omega arith
close-le-last s (t ∷ ss) v = omega (arith, close-le-last t ss v.4)

pub in_session_last :
    (ts : ℕ) (s : Session) (ss : List Session)
    → IsChained (s ∷ ss)
    → (last_or s ss).close_utc ≤ ts
    → in_session ts (s ∷ ss) ≡ false
unfolding in_session
in_session_last ts s [] v h = rw (covers_past s ts h)
in_session_last ts s (t ∷ ss) v h =
    rw (covers_past s ts (omega (arith, close-le-last s (t ∷ ss) v)))
      (in_session_last ts t ss v.4 h)

-- On a valid calendar, from the first open on and before the last close, `session_containing`
-- returns, and finds a session just where a search of all sessions finds one that covers the
-- instant.
pub session_containing_lem :
    (cal : SessionCalendar) (ts : ℕ)
    → IsValid cal
    → cal.first.open_utc ≤ ts
    → ts < (last_session cal).close_utc
    → (found : Option Session) × (session_containing cal ts ≡ ok found)
      × (is_some found ≡ in_session ts (sessions cal))
unfolding session_containing
session_containing_lem cal ts v lo hi =
    let (s, e) = closing_after-some ts cal.first cal.rest hi in
    let low : ltb ts cal.first.open_utc ≡ false = ground arith in
    (
      if leb s.open_utc ts then some s else none,
      rw (low, session_at-closing_after, e),
      rw (in_session-closing_after ts (sessions cal) v, e) (is_some_if (leb s.open_utc ts) s),
    )

-- On a valid calendar, from the first open through the last close, `is_expected_minute` returns
-- whether the instant is a whole minute that some session covers.
pub is_expected_minute-in_session :
    (cal : SessionCalendar) (ts : ℕ)
    → IsValid cal
    → cal.first.open_utc ≤ ts
    → ts ≤ (last_session cal).close_utc
    → is_expected_minute cal ts ≡ ok (is_whole_minute ts && in_session ts (sessions cal))
unfolding is_expected_minute
is_expected_minute-in_session cal ts v lo hi = elim (Bool-cases (is_whole_minute ts)) [
  | inr partial ↦ rw partial
  | inl whole ↦
      let below : ltb (last_session cal).close_utc ts ≡ false = ground arith in
      elim (Bool-cases (ts == (last_session cal).close_utc)) [
        | inl closing ↦ rw (
          whole,
          below,
          closing,
          in_session_last ts cal.first cal.rest v (omega (arith, (==_iff _ _).0 closing)),
        )
        | inr inside ↦
            let (found, e, p) =
              session_containing_lem cal ts v lo (omega (arith, ==→ne _ _ inside)) in
            rw (whole, below, inside, e, p)
      ]
]
