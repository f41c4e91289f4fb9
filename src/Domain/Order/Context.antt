-- ===== src/Domain/Order/Context.antt =====
-- The window of an order's context, as `OrderContext.__post_init__` checks it.
use research_platform.Prelude.{
  ℕ, ◌+◌, ◌≤◌, ◌<◌, ◌%◌, ◌≡◌, sym, ◌∙◌, Bool, true, arith, ◌&&◌, and-eq-true, Bool-cases, inl, inr,
  leb, leb→gt, ==_iff, ltb, ltb→ge, ltb→lt,
}
use research_platform.Result.{
  Result, ok, err, calendar_range, ◌>>=◌, Ensures, bind_ok-Ensures, Ensures-eq_ok, ok-injective,
  >>=-eq-ok,
}
use research_platform.Calendar.{
  SessionCalendar, sessions, one_minute, floor_minute, is_whole_minute, is_expected_minute,
  is_session_close, next_expected_minute, last_expected_minute_before, last_session,
}
use research_platform.Calendar.Lookup.{IsValid, in_session, is_expected_minute-in_session}
use research_platform.Calendar.Next.{IsExpected, IsFirstFrom, next_expected_minute-IsFirstFrom}
use research_platform.Calendar.Last.{IsLastBefore, last_expected_minute_before-IsLastBefore}
use research_platform.Domain.Signal.{SignalSpec, FillConfig}
use research_platform.Domain.Order.{OrderContext, make_context, expected_or_false, range_as_value}

expected_in_range :
    (cal : SessionCalendar) (ts : ℕ)
    → is_expected_minute cal ts ≡ ok true
    → (cal.first.open_utc ≤ ts) × (ts ≤ (last_session cal).close_utc)
unfolding is_expected_minute
expected_in_range cal ts h = ground arith

is_expected_minute-IsExpected :
    (cal : SessionCalendar) (ts : ℕ)
    → IsValid cal
    → is_expected_minute cal ts ≡ ok true
    → IsExpected cal ts
is_expected_minute-IsExpected cal ts v h =
    let (lo, hi) = expected_in_range cal ts h in
    let both : is_whole_minute ts && in_session ts (sessions cal) ≡ true =
      ok-injective (sym (is_expected_minute-in_session cal ts v lo hi) ∙ h) in
    let (whole, inside) = and-eq-true _ _ both in ((==_iff (ts % one_minute) 0).0 whole, inside)

after_last :
    (cal : SessionCalendar) (until last r : ℕ)
    → IsLastBefore cal until last
    → IsFirstFrom cal (floor_minute last + one_minute) r
    → until ≤ r
after_last cal until last r h k = elim (Bool-cases (ltb r until)) [
  | inr not_before ↦ ltb→ge _ _ not_before
  | inl before ↦
      let later : last < r = omega (arith, k.not_before) in
      absurd (h.none_between r later (ltb→lt _ _ before) k.expected)
]

expected_or_false-true : (r : Result Bool) → expected_or_false r ≡ ok true → r ≡ ok true
expected_or_false-true (ok b) h = h
expected_or_false-true (err calendar_range) h = cc
expected_or_false-true (err e) h = ground arith

range_as_value-ok : {A : Type 0} (r : Result A) (a : A) → range_as_value r ≡ ok a → r ≡ ok a
range_as_value-ok (ok b) a h = h
range_as_value-ok (err e) a h = ground arith

-- The evaluation starts on an expected minute before the end of the validity, that end is the close
-- of a session, and the calendar goes on to an expected minute from there.
pub record IsCovered (cal : SessionCalendar) (c : OrderContext) : Type 0 where
  pub starts : IsExpected cal c.evaluation_start_ts
  pub ordered : c.evaluation_start_ts < c.valid_until_ts
  pub closes : is_session_close cal c.valid_until_ts ≡ true
  pub last : ℕ
  pub last_before : IsLastBefore cal c.valid_until_ts last
  pub next : ℕ
  pub next_from : (c.valid_until_ts ≤ next) × IsExpected cal next

covering :
    (cal : SessionCalendar) (until r : ℕ)
    → IsValid cal
    → (last_expected_minute_before cal until >>= next_expected_minute cal) ≡ ok r
    → (last : ℕ) × IsLastBefore cal until last × (until ≤ r) × IsExpected cal r
covering cal until r v h =
    let (last, e, f) =
      >>=-eq-ok (last_expected_minute_before cal until) (next_expected_minute cal) h in
    let before : IsLastBefore cal until last =
      last_expected_minute_before-IsLastBefore cal until last v e in
    let first : IsFirstFrom cal (floor_minute last + one_minute) r =
      next_expected_minute-IsFirstFrom cal last r v f in
    (last, before, after_last cal until last r before first, first.expected)

make_context-Covered :
    (signal : SignalSpec) (config : FillConfig) (cal : SessionCalendar) (start until : ℕ)
    → IsValid cal
    → Ensures (IsCovered cal) (make_context signal config cal start until)
unfolding make_context
make_context-Covered signal config cal start until v = elim (Bool-cases (leb until start)) [
  | inl over ↦ rw over tt
  | inr ordered ↦ rw ordered (
      bind_ok-Ensures (IsCovered cal) (expected_or_false (is_expected_minute cal start)) _
        λ expected e. elim (Bool-cases expected) [
          | inr off ↦ rw off tt
          | inl on ↦ rw on (elim (Bool-cases (is_session_close cal until)) [
            | inr elsewhere ↦ rw elsewhere tt
            | inl closing ↦ rw closing (
                bind_ok-Ensures (IsCovered cal)
                  (range_as_value
                    (last_expected_minute_before cal until >>= next_expected_minute cal))
                  _
                  λ r f.
                    let (last, before, from, later) =
                      covering cal until r v (range_as_value-ok _ r f) in
                    record {
                      starts =
                          is_expected_minute-IsExpected cal start v
                            (expected_or_false-true _ (rw on at e));
                      ordered = leb→gt _ _ ordered;
                      closes = closing;
                      last = last;
                      last_before = before;
                      next = r;
                      next_from = (from, later);
                    })
          ])
        ])
]

-- On a valid calendar, a context that `make_context` returns starts on an expected minute before
-- its end, ends at the close of a session, with a last expected minute before it, and the calendar
-- has an expected minute from that end on.
pub make_context-IsCovered :
    (signal : SignalSpec) (config : FillConfig) (cal : SessionCalendar) (start until : ℕ)
    (c : OrderContext)
    → IsValid cal
    → make_context signal config cal start until ≡ ok c
    → IsCovered cal c
make_context-IsCovered signal config cal start until c v e =
    Ensures-eq_ok (IsCovered cal) _ (make_context-Covered signal config cal start until v) e
