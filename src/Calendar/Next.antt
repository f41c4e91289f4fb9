-- ===== src/Calendar/Next.antt =====
-- `first_expected_minute_at_or_after` and `next_expected_minute` against their specification.
use research_platform.Prelude.{
  ℕ, ◌+◌, ◌%◌, ◌≤◌, ◌<◌, ◌≡◌, sym, ◌∙◌, true, false, some, List, [], ◌∷◌, arith, ltb, leb, leb→le,
  leb→gt, if◌then◌else◌, max, Bool-cases, or_true, Option-cases, inl, inr,
}
use mathlib.Core.Path.{subst}
use research_platform.Result.{ok, ok-injective}
use research_platform.Calendar.{
  Session, SessionCalendar, sessions, last_session, one_minute, floor_minute, session_at,
  first_expected_minute_at_or_after, next_expected_minute,
}
use research_platform.Calendar.Lookup.{
  covers, in_session, IsChained, IsValid, closing_after, closing_after-some,
  session_at-closing_after, in_session_early, covers_past, covers_before,
}

-- A whole minute that some session covers: what `is_expected_minute` tells.
abbrev pub IsExpected : SessionCalendar → ℕ → Type 0
IsExpected cal t = (t % one_minute ≡ 0) × (in_session t (sessions cal) ≡ true)

-- `r` is the first expected minute from `t` on.
pub record IsFirstFrom (cal : SessionCalendar) (t r : ℕ) : Type 0 where
  pub expected : IsExpected cal r
  pub not_before : t ≤ r
  pub none_between : (u : ℕ) → t ≤ u → u < r → ¬ IsExpected cal u

-- The least whole minute from `t` on.
abbrev pub ceil_minute : ℕ → ℕ
ceil_minute t = if ltb (floor_minute t) t then floor_minute t + one_minute else floor_minute t

pub ceil_minute_le : (t u : ℕ) → t ≤ u → u % one_minute ≡ 0 → ceil_minute t ≤ u
ceil_minute_le t u h w = ground arith

ceil_minute-ge : (t : ℕ) → t ≤ ceil_minute t
ceil_minute-ge t = ground arith

ceil_minute_whole : (t : ℕ) → ceil_minute t % one_minute ≡ 0
ceil_minute_whole t = ground arith

max_whole : (m n : ℕ) → m % one_minute ≡ 0 → n % one_minute ≡ 0 → max m n % one_minute ≡ 0
max_whole m n p q = elim (Bool-cases (leb m n)) [
  | inl le ↦ let e : max m n ≡ n = omega (arith, leb→le m n le) in rw e q
  | inr gt ↦ let e : max m n ≡ m = omega (arith, leb→gt m n gt) in rw e p
]

-- The session that closes first after `m` opens on a whole minute, covers every later instant
-- before its close, and none before its open is covered from `m` on.
record Found (m : ℕ) (ss : List Session) (s : Session) : Type 0 where
  opens_whole : s.open_utc % one_minute ≡ 0
  ordered : s.open_utc < s.close_utc
  ahead : m < s.close_utc
  inside : (u : ℕ) → s.open_utc ≤ u → u < s.close_utc → in_session u ss ≡ true
  gap : (u : ℕ) → m ≤ u → u < s.open_utc → in_session u ss ≡ false

pub covers_inside : (s : Session) (u : ℕ) → s.open_utc ≤ u → u < s.close_utc → covers s u ≡ true
covers_inside s u lo hi = ground arith

head_Found :
    (m : ℕ) (t : Session) (ss : List Session) (s : Session)
    → IsChained (t ∷ ss)
    → m < t.close_utc
    → t ≡ s
    → Found m (t ∷ ss) s
unfolding in_session
head_Found m t ss s v ahead e =
    subst (λ x. Found m (t ∷ ss) x) e
      (record {
        opens_whole = v.1;
        ordered = v.0;
        ahead = ahead;
        inside = λ u lo hi. rw (covers_inside t u lo hi);
        gap = λ u lo hi.
            rw (covers_before t u hi)
              (in_session_early u t.close_utc ss v.3 v.4 (omega (arith, v.0)));
      })

closing_after-Found :
    (m : ℕ) (ss : List Session) (s : Session)
    → IsChained ss
    → closing_after m ss ≡ some s
    → Found m ss s
unfolding closing_after in_session
closing_after-Found m [] s v e = cc
closing_after-Found m (t ∷ ss) s v e = elim (Bool-cases (leb t.close_utc m)) [
  | inl past ↦
      let found = closing_after-Found m ss s v.4 (rw past at e) in
      record {
        opens_whole = found.opens_whole;
        ordered = found.ordered;
        ahead = found.ahead;
        inside = λ u lo hi. rw (found.inside u lo hi) (or_true (covers t u));
        gap = λ u lo hi. rw (covers_past t u (omega (arith, leb→le _ _ past))) (found.gap u lo hi);
      }
  | inr ahead ↦ head_Found m t ss s v (leb→gt _ _ ahead) (ground arith)
]

Found-IsFirstFrom :
    (cal : SessionCalendar) (ts : ℕ) (s : Session)
    → Found (ceil_minute ts) (sessions cal) s
    → IsFirstFrom cal ts (max (ceil_minute ts) s.open_utc)
Found-IsFirstFrom cal ts s found =
    let m : ℕ = ceil_minute ts in
    let whole = ceil_minute_whole ts in
    record {
      expected = (
        max_whole m s.open_utc whole found.opens_whole,
        found.inside (max m s.open_utc) (omega arith) (omega (arith, found.ahead, found.ordered)),
      );
      not_before = omega (arith, ceil_minute-ge ts);
      none_between = λ u lo hi h.
          let from : m ≤ u = ceil_minute_le ts u lo h.0 in
          (cc (found.gap u from (omega arith), h.1));
    }

-- On a valid calendar, what `first_expected_minute_at_or_after` returns is an expected minute from
-- `ts` on, with no expected minute between.
pub first_expected_minute_at_or_after-IsFirstFrom :
    (cal : SessionCalendar) (ts r : ℕ)
    → IsValid cal
    → first_expected_minute_at_or_after cal ts ≡ ok r
    → IsFirstFrom cal ts r
unfolding first_expected_minute_at_or_after
first_expected_minute_at_or_after-IsFirstFrom cal ts r v e =
    elim (Bool-cases (ltb ts cal.first.open_utc)) [
      | inl early ↦ cc
      | inr late ↦ elim (Option-cases (session_at cal (ceil_minute ts))) [
        | inl missing ↦ ground arith
        | inr (s, at) ↦
            subst (λ x. IsFirstFrom cal ts x) (ok-injective (rw (late, at) at e))
              (Found-IsFirstFrom cal ts s (
                closing_after-Found (ceil_minute ts) (sessions cal) s v
                  (sym (session_at-closing_after cal (ceil_minute ts)) ∙ at)))
      ]
    ]

-- From the first open on, if the least whole minute from `ts` on is before the last close,
-- `first_expected_minute_at_or_after` returns.
pub first_expected_minute_at_or_after_total :
    (cal : SessionCalendar) (ts : ℕ)
    → cal.first.open_utc ≤ ts
    → ceil_minute ts < (last_session cal).close_utc
    → (r : ℕ) × (first_expected_minute_at_or_after cal ts ≡ ok r)
unfolding first_expected_minute_at_or_after
first_expected_minute_at_or_after_total cal ts lo hi =
    let (s, e) = closing_after-some (ceil_minute ts) cal.first cal.rest hi in
    let low : ltb ts cal.first.open_utc ≡ false = ground arith in
    (max (ceil_minute ts) s.open_utc, rw (low, session_at-closing_after, e))

-- On a valid calendar, what `next_expected_minute` returns is the first expected minute after the
-- minute of `ts`.
pub next_expected_minute-IsFirstFrom :
    (cal : SessionCalendar) (ts r : ℕ)
    → IsValid cal
    → next_expected_minute cal ts ≡ ok r
    → IsFirstFrom cal (floor_minute ts + one_minute) r
unfolding next_expected_minute
next_expected_minute-IsFirstFrom cal ts r v e =
    first_expected_minute_at_or_after-IsFirstFrom cal (floor_minute ts + one_minute) r v e

pub next_expected_minute_total :
    (cal : SessionCalendar) (ts : ℕ)
    → cal.first.open_utc ≤ ts
    → floor_minute ts + one_minute < (last_session cal).close_utc
    → (r : ℕ) × (next_expected_minute cal ts ≡ ok r)
unfolding next_expected_minute
next_expected_minute_total cal ts lo hi =
    first_expected_minute_at_or_after_total cal (floor_minute ts + one_minute) (omega arith)
      (ground arith)
