-- ===== src/Calendar/Last.antt =====
-- `last_expected_minute_before` against its specification.
use research_platform.Prelude.{
  ℕ, zero, suc, ◌-◌, ◌%◌, ◌≤◌, ◌<◌, ◌≡◌, refl, ◌∙◌, true, false, Option, none, some, List, [], ◌∷◌,
  map, arith, ltb, ltb→lt, ltb→ge, ◌==◌, if◌then◌else◌, min, Bool-cases, or_true, Option-cases,
  some-injective, inl, inr, get_elem?,
}
use mathlib.Core.Path.{subst}
use research_platform.Result.{ok, ok-injective}
use research_platform.Calendar.{
  Session, SessionCalendar, sessions, one_minute, floor_minute, bisect_left, open_key,
  previous_session, last_expected_minute_before,
}
use research_platform.Calendar.Lookup.{
  covers, in_session, IsChained, IsValid, StartsBy, in_session_early, covers_past,
}
use research_platform.Calendar.Next.{IsExpected, covers_inside}

-- `r` is the last expected minute before `t`.
pub record IsLastBefore (cal : SessionCalendar) (t r : ℕ) : Type 0 where
  pub expected : IsExpected cal r
  pub before : r < t
  pub none_between : (u : ℕ) → r < u → u < t → ¬ IsExpected cal u

abbrev or_else {ℓ} : {A : Type ℓ} → Option A → A → Option A
or_else none a = some a
or_else (some b) _ = some b

or_else_some {ℓ} : {A : Type ℓ} (o : Option A) (a : A) → or_else o a ≡ none → ⊥
or_else_some none a e = cc
or_else_some (some b) a e = cc

-- The last session that opens before `ts`.
last_opened : ℕ → List Session → Option Session
last_opened ts [] = none
last_opened ts (s ∷ ss) = if ltb s.open_utc ts then or_else (last_opened ts ss) s else none

abbrev elem_before : ℕ → List Session → Option Session
elem_before zero ss = none
elem_before (suc i) ss = get_elem? ss i

previous_session-elem_before :
    (cal : SessionCalendar) (i : ℕ) → previous_session cal i ≡ elem_before i (sessions cal)
previous_session-elem_before cal zero = refl
previous_session-elem_before cal (suc i) = refl

-- The index before the bisection is in range.
elem_before_some :
    (ts : ℕ) (ss : List Session) (i : ℕ)
    → bisect_left (map open_key ss) ts ≡ suc i
    → (r : Session) × (get_elem? ss i ≡ some r)
unfolding bisect_left
elem_before_some ts [] i e = cc
elem_before_some ts (s ∷ ss) zero e = (s, refl)
elem_before_some ts (s ∷ ss) (suc i) e = elem_before_some ts ss i (ground arith)

elem_before_cons :
    (i : ℕ) (s : Session) (ss : List Session)
    → ((j : ℕ) → i ≡ suc j → (r : Session) × (get_elem? ss j ≡ some r))
    → get_elem? (s ∷ ss) i ≡ or_else (elem_before i ss) s
elem_before_cons zero s ss found = refl
elem_before_cons (suc i) s ss found = let (r, e) = found i refl in rw (e)

elem_before-last_opened :
    (ts : ℕ) (ss : List Session)
    → elem_before (bisect_left (map open_key ss) ts) ss ≡ last_opened ts ss
unfolding bisect_left last_opened
elem_before-last_opened ts [] = refl
elem_before-last_opened ts (s ∷ ss) = elim (Bool-cases (ltb s.open_utc ts)) [
  | inr later ↦ rw later
  | inl opened ↦
      rw (opened, ← elem_before-last_opened ts ss)
        (elem_before_cons (bisect_left (map open_key ss) ts) s ss (elem_before_some ts ss))
]

previous_session-last_opened :
    (cal : SessionCalendar) (ts : ℕ)
    → previous_session cal (bisect_left (map open_key (sessions cal)) ts)
      ≡ last_opened ts (sessions cal)
previous_session-last_opened cal ts =
    previous_session-elem_before cal (bisect_left (map open_key (sessions cal)) ts)
    ∙ elem_before-last_opened ts (sessions cal)

last_opened-none : (ts : ℕ) (ss : List Session) → last_opened ts ss ≡ none → StartsBy ts ss
unfolding last_opened
last_opened-none ts [] e = tt
last_opened-none ts (s ∷ ss) e = elim (Bool-cases (ltb s.open_utc ts)) [
  | inr later ↦ ltb→ge _ _ later
  | inl opened ↦ absurd (or_else_some (last_opened ts ss) s (rw opened at e))
]

record Opened (ts : ℕ) (ss : List Session) (s : Session) : Type 0 where
  opens_whole : s.open_utc % one_minute ≡ 0
  closes_whole : s.close_utc % one_minute ≡ 0
  ordered : s.open_utc < s.close_utc
  opened : s.open_utc < ts
  inside : (u : ℕ) → s.open_utc ≤ u → u < s.close_utc → in_session u ss ≡ true
  gap : (u : ℕ) → s.close_utc ≤ u → u < ts → in_session u ss ≡ false
  follows : (c : ℕ) → StartsBy c ss → c ≤ s.open_utc

head_Opened :
    (ts : ℕ) (t : Session) (ss : List Session) (s : Session)
    → IsChained (t ∷ ss)
    → t.open_utc < ts
    → StartsBy ts ss
    → t ≡ s
    → Opened ts (t ∷ ss) s
unfolding in_session
head_Opened ts t ss s v opened b e =
    subst (λ x. Opened ts (t ∷ ss) x) e
      (record {
        opens_whole = v.1;
        closes_whole = v.2;
        ordered = v.0;
        opened = opened;
        inside = λ u lo hi. rw (covers_inside t u lo hi);
        gap = λ u lo hi. rw (covers_past t u lo) (in_session_early u ts ss b v.4 hi);
        follows = λ c h. h;
      })

later_Opened :
    (ts : ℕ) (t : Session) (ss : List Session) (s : Session)
    → IsChained (t ∷ ss)
    → Opened ts ss s
    → Opened ts (t ∷ ss) s
unfolding in_session
later_Opened ts t ss s v found = record {
  opens_whole = found.opens_whole;
  closes_whole = found.closes_whole;
  ordered = found.ordered;
  opened = found.opened;
  inside = λ u lo hi. rw (found.inside u lo hi) (or_true (covers t u));
  gap = λ u lo hi.
      rw (covers_past t u (omega (arith, found.ordered, found.follows t.close_utc v.3)))
        (found.gap u lo hi);
  follows = λ c h. omega (arith, v.0, found.follows t.close_utc v.3);
}

last_opened-Opened :
    (ts : ℕ) (ss : List Session) (s : Session)
    → IsChained ss
    → last_opened ts ss ≡ some s
    → Opened ts ss s
unfolding last_opened in_session
last_opened-Opened ts [] s v e = cc
last_opened-Opened ts (t ∷ ss) s v e = elim (Bool-cases (ltb t.open_utc ts)) [
  | inr later ↦ cc
  | inl opened ↦ elim (Option-cases (last_opened ts ss)) [
    | inl only ↦
        head_Opened ts t ss s v (ltb→lt _ _ opened) (last_opened-none ts ss only)
          (some-injective (rw (opened, only) at e))
    | inr (r, later) ↦ later_Opened ts t ss s v (last_opened-Opened ts ss s v.4 (ground arith))
  ]
]

-- The minute that starts last before `c`.
abbrev minute_before : ℕ → ℕ
minute_before c = if floor_minute c == c then floor_minute c - one_minute else floor_minute c

minute_before_whole : (o c : ℕ) → o % one_minute ≡ 0 → o < c → minute_before c % one_minute ≡ 0
minute_before_whole o c w h = ground arith

minute_before_bounds :
    (o c : ℕ) → o % one_minute ≡ 0 → o < c → (o ≤ minute_before c) × (minute_before c < c)
minute_before_bounds o c w h = ground arith

minute_before_latest : (c u : ℕ) → u % one_minute ≡ 0 → minute_before c < u → c ≤ u
minute_before_latest c u w h = ground arith

Opened-IsLastBefore :
    (cal : SessionCalendar) (ts : ℕ) (s : Session)
    → Opened ts (sessions cal) s
    → IsLastBefore cal ts (minute_before (min ts s.close_utc))
Opened-IsLastBefore cal ts s found =
    let c : ℕ = min ts s.close_utc in
    let above : s.open_utc < c = omega (arith, found.opened, found.ordered) in
    let (lo, hi) = minute_before_bounds s.open_utc c found.opens_whole above in
    record {
      expected = (
        minute_before_whole s.open_utc c found.opens_whole above,
        found.inside (minute_before c) lo (omega arith),
      );
      before = omega arith;
      none_between = λ u after lt h.
          let from : c ≤ u = minute_before_latest c u h.0 after in
          (cc (found.gap u (omega arith) lt, h.1));
    }

-- On a valid calendar, what `last_expected_minute_before` returns is an expected minute before
-- `ts`, with no expected minute between.
pub last_expected_minute_before-IsLastBefore :
    (cal : SessionCalendar) (ts r : ℕ)
    → IsValid cal
    → last_expected_minute_before cal ts ≡ ok r
    → IsLastBefore cal ts r
unfolding last_expected_minute_before
last_expected_minute_before-IsLastBefore cal ts r v e =
    elim (Option-cases (last_opened ts (sessions cal))) [
      | inl nothing ↦ cc (rw (previous_session-last_opened cal ts, nothing) at e)
      | inr (s, found) ↦
          subst (λ x. IsLastBefore cal ts x)
            (ok-injective (rw (previous_session-last_opened cal ts, found) at e))
            (Opened-IsLastBefore cal ts s (last_opened-Opened ts (sessions cal) s v found))
    ]
