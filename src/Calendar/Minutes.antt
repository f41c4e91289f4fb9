-- ===== src/Calendar/Minutes.antt =====
-- `expected_minutes` and its loop against the list of the expected minutes of the range.
use research_platform.Prelude.{
  ℕ, zero, suc, ◌+◌, ◌-◌, ◌%◌, ◌≤◌, ◌<◌, ◌≡◌, ◌≢◌, true, false, ◌||◌, ◌⊎◌, List, [], ◌∷◌, arith,
  ltb, leb, ltb→lt, ltb→ge, leb→le, leb→gt, ◌==◌, ==_iff, ==→ne, last_or, Bool-cases, or-eq-true,
  or-eq-false, inl, inr,
}
use research_platform.Result.{ok}
use research_platform.Calendar.{
  Session, SessionCalendar, sessions, last_session, one_minute, floor_minute, next_expected_minute,
  first_expected_minute_at_or_after, minutes_from, expected_minutes,
}
use research_platform.Calendar.Lookup.{in_session_early, in_session_last, IsChained, IsValid}
use research_platform.Calendar.Next.{
  IsExpected, IsFirstFrom, ceil_minute_le, next_expected_minute-IsFirstFrom,
  next_expected_minute_total, first_expected_minute_at_or_after-IsFirstFrom,
  first_expected_minute_at_or_after_total,
}

-- The list is exactly the expected minutes from `lo` up to `end`, in ascending order.
abbrev pub Enumerates : SessionCalendar → ℕ → ℕ → List ℕ → Type 0
Enumerates cal lo end [] = (u : ℕ) → lo ≤ u → u < end → ¬ IsExpected cal u
Enumerates cal lo end (m ∷ ms) = IsFirstFrom cal lo m × (m < end) × Enumerates cal (m + 1) end ms

last_whole :
    (s : Session) (ss : List Session)
    → IsChained (s ∷ ss)
    → (last_or s ss).close_utc % one_minute ≡ 0
last_whole s [] v = v.2
last_whole s (t ∷ ss) v = last_whole t ss v.4

pub IsExpected-lt-last :
    (cal : SessionCalendar) (u : ℕ)
    → IsValid cal
    → IsExpected cal u
    → u < (last_session cal).close_utc
IsExpected-lt-last cal u v h = elim (Bool-cases (ltb u (last_session cal).close_utc)) [
  | inl lt ↦ ltb→lt _ _ lt
  | inr ge ↦ (cc (h.1, in_session_last u cal.first cal.rest v (ltb→ge _ _ ge)))
]

pub first-le-IsExpected :
    (cal : SessionCalendar) (u : ℕ) → IsValid cal → IsExpected cal u → cal.first.open_utc ≤ u
first-le-IsExpected cal u v h = elim (Bool-cases (ltb u cal.first.open_utc)) [
  | inr ge ↦ ltb→ge _ _ ge
  | inl lt ↦
      (cc
        (h.1, in_session_early u cal.first.open_utc (sessions cal) (omega arith) v (ltb→lt _ _ lt)))
]

-- After an expected minute, the first one from the next minute on is the first one after it.
IsFirstFrom-suc :
    (cal : SessionCalendar) (m r : ℕ)
    → m % one_minute ≡ 0
    → IsFirstFrom cal (floor_minute m + one_minute) r
    → IsFirstFrom cal (m + 1) r
IsFirstFrom-suc cal m r w f = record {
  expected = f.expected;
  not_before = omega (arith, f.not_before);
  none_between = λ u lo hi h. f.none_between u (omega (arith, h.0)) hi h;
}

-- No expected minute follows the final one.
after_final :
    (cal : SessionCalendar) (m end : ℕ)
    → IsValid cal
    → end ≤ (last_session cal).close_utc
    → IsExpected cal m
    → m ≡ (last_session cal).close_utc - one_minute
    → (u : ℕ) → m + 1 ≤ u
    → u < end
    → ¬ IsExpected cal u
after_final cal m end v fits h e u from below h' =
    omega (arith, h.0, h'.0, last_whole cal.first cal.rest v, IsExpected-lt-last cal m v h)

-- Before the final minute the next one is found.
next_of :
    (cal : SessionCalendar) (m : ℕ)
    → IsValid cal
    → IsExpected cal m
    → m ≢ (last_session cal).close_utc - one_minute
    → (r : ℕ) × (next_expected_minute cal m ≡ ok r)
next_of cal m v h ne =
    next_expected_minute_total cal m (first-le-IsExpected cal m v h)
      (omega (arith, h.0, last_whole cal.first cal.rest v, IsExpected-lt-last cal m v h))

minutes_from-Enumerates :
    (fuel : ℕ) (cal : SessionCalendar) (end lo m : ℕ)
    → IsValid cal
    → end ≤ (last_session cal).close_utc
    → end - m < fuel
    → IsFirstFrom cal lo m
    → (ms : List ℕ) × (minutes_from fuel cal ((last_session cal).close_utc - one_minute) end m
        ≡ ok ms)
      × Enumerates cal lo end ms
unfolding minutes_from
minutes_from-Enumerates zero cal end lo m v fits f h = absurd (omega arith)
minutes_from-Enumerates (suc fuel) cal end lo m v fits f h = elim (Bool-cases (leb end m)) [
  | inl done ↦ ([], rw done, λ u from below. h.none_between u from (omega (arith, leb→le _ _ done)))
  | inr more ↦ elim (Bool-cases (m == (last_session cal).close_utc - one_minute)) [
    | inl final ↦ (
      m ∷ [],
      rw (more, final),
      (h, leb→gt _ _ more, after_final cal m end v fits h.expected ((==_iff _ _).0 final)),
    )
    | inr onward ↦
        let (r, e) = next_of cal m v h.expected (==→ne _ _ onward) in
        let first =
          IsFirstFrom-suc cal m r h.expected.0 (next_expected_minute-IsFirstFrom cal m r v e) in
        let (ms, e', all) =
          minutes_from-Enumerates fuel cal end (m + 1) r v fits
            (omega (arith, first.not_before, leb→gt _ _ more)) first in
        (m ∷ ms, rw (more, onward, e, e'), (h, leb→gt _ _ more, all))
  ]
]

range_empty :
    (cal : SessionCalendar) (start end : ℕ)
    → IsValid cal
    → end ≤ (last_session cal).close_utc
    → (leb end start ≡ true) ⊎ (ltb ((last_session cal).close_utc - one_minute) start ≡ true)
    → (u : ℕ) → start ≤ u
    → u < end
    → ¬ IsExpected cal u
range_empty cal start end v hi (inl none_left) u from below h = omega (arith, leb→le _ _ none_left)
range_empty cal start end v hi (inr past) u from below h =
    omega (arith, ltb→lt _ _ past, h.0, last_whole cal.first cal.rest v)

first_in_range :
    (cal : SessionCalendar) (start end : ℕ)
    → IsValid cal
    → cal.first.open_utc ≤ start
    → end ≤ (last_session cal).close_utc
    → start < end
    → start ≤ (last_session cal).close_utc - one_minute
    → (m : ℕ) × (first_expected_minute_at_or_after cal start ≡ ok m)
first_in_range cal start end v lo hi lt within =
    let close : ℕ = (last_session cal).close_utc in
    let whole : close % one_minute ≡ 0 = last_whole cal.first cal.rest v in
    first_expected_minute_at_or_after_total cal start lo
      (omega (arith, ceil_minute_le start (close - one_minute) within (omega arith)))

-- On a valid calendar, from the first open on and up to the last close, `expected_minutes` returns,
-- and its list is exactly the expected minutes from `start` up to `end`, in ascending order.
pub expected_minutes-Enumerates :
    (cal : SessionCalendar) (start end : ℕ)
    → IsValid cal
    → cal.first.open_utc ≤ start
    → end ≤ (last_session cal).close_utc
    → (ms : List ℕ) × (expected_minutes cal start end ≡ ok ms) × Enumerates cal start end ms
unfolding expected_minutes
expected_minutes-Enumerates cal start end v lo hi =
    let final : ℕ = (last_session cal).close_utc - one_minute in
    let low : ltb start cal.first.open_utc ≡ false = ground arith in
    let high : ltb (last_session cal).close_utc end ≡ false = ground arith in
    elim (Bool-cases (leb end start || ltb final start)) [
      | inl empty ↦
          ([], rw (low, high, empty), range_empty cal start end v hi (or-eq-true _ _ empty))
      | inr loop ↦
          let (later, within) = or-eq-false (leb end start) (ltb final start) loop in
          let (m, e) =
            first_in_range cal start end v lo hi (leb→gt _ _ later) (ltb→ge _ _ within) in
          let first = first_expected_minute_at_or_after-IsFirstFrom cal start m v e in
          let (ms, e', all) =
            minutes_from-Enumerates (suc (end - start)) cal end start m v hi
              (omega (arith, first.not_before)) first in
          (ms, rw (low, high, loop, e, e'), all)
    ]
