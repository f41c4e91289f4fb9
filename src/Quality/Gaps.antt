-- ===== src/Quality/Gaps.antt =====
-- The gaps that `find_gaps` lists, against the missing minutes.
use research_platform.Prelude.{
  ℕ, ◌+◌, ◌≤◌, ◌≡◌, refl, ◌∙◌, Option, none, some, List, [], ◌∷◌, ◌++◌, All, length, arith, leb,
  Bool-cases, inl, inr, leb→le,
}
use research_platform.Prelude.Sort.{sort_by}
use research_platform.Prelude.Sort.{length-sort_by}
use research_platform.Result.{Ensures, bind-Ensures, Ensures-any, Ensures-map}
use research_platform.Calendar.{SessionCalendar}
use research_platform.Quality.{Gap, close_run, follows, gaps_from, find_gaps, itself}

-- How many minutes the gaps have together.
abbrev pub total_minutes : List Gap → ℕ
total_minutes [] = 0
total_minutes (g ∷ gs) = g.1 + total_minutes gs

abbrev AllLong : ℕ → List Gap → Type 0
AllLong n gs = All (λ g. n ≤ g.1) gs

AllLong-append : (n : ℕ) (xs ys : List Gap) → AllLong n xs → AllLong n ys → AllLong n (xs ++ ys)
AllLong-append n [] ys h k = k
AllLong-append n (x ∷ xs) ys h k = (h.0, AllLong-append n xs ys h.1 k)

close_run-AllLong : (n : ℕ) (start : Option ℕ) (len : ℕ) → AllLong n (close_run n start len)
close_run-AllLong n none len = tt
close_run-AllLong n (some start) len = elim (Bool-cases (leb n len)) [
  | inl enough ↦ rw enough (leb→le n len enough, tt)
  | inr short ↦ rw short tt
]

gaps_from-AllLong :
    (cal : SessionCalendar) (n : ℕ) (start : Option ℕ) (len : ℕ) (previous : Option ℕ) (ms : List ℕ)
    → Ensures (AllLong n) (gaps_from cal n start len previous ms)
unfolding gaps_from
gaps_from-AllLong cal n start len previous [] = close_run-AllLong n start len
gaps_from-AllLong cal n start len previous (m ∷ ms) =
    bind-Ensures (λ _. Unit) (AllLong n) (follows cal previous m) _ (Ensures-any _)
      λ on _. elim (Bool-cases on) [
        | inl goes_on ↦ rw goes_on (gaps_from-AllLong cal n start (len + 1) (some m) ms)
        | inr ends ↦ rw ends (
            bind-Ensures (AllLong n) (AllLong n) (gaps_from cal n (some m) 1 (some m) ms) _
              (gaps_from-AllLong cal n (some m) 1 (some m) ms)
              (λ gs h. AllLong-append n _ gs (close_run-AllLong n start len) h))
      ]

-- If `find_gaps` returns, every gap has at least the minutes asked for.
pub find_gaps-AllLong :
    (cal : SessionCalendar) (missing : List ℕ) (n : ℕ)
    → Ensures (All (λ g. n ≤ g.1)) (find_gaps cal missing n)
unfolding find_gaps
find_gaps-AllLong cal missing n = gaps_from-AllLong cal n none 0 none (sort_by itself missing)

close_run-total_minutes :
    (start len : ℕ) (gs : List Gap)
    → 1 ≤ len
    → total_minutes (close_run 1 (some start) len ++ gs) ≡ len + total_minutes gs
close_run-total_minutes start len gs h = ground arith

gaps_from-total_minutes :
    (cal : SessionCalendar) (start len : ℕ) (previous : Option ℕ) (ms : List ℕ)
    → 1 ≤ len
    → Ensures
        (λ gs. total_minutes gs ≡ len + length ms)
        (gaps_from cal 1 (some start) len previous ms)
unfolding gaps_from
gaps_from-total_minutes cal start len previous [] h = ground arith
gaps_from-total_minutes cal start len previous (m ∷ ms) h =
    bind-Ensures (λ _. Unit) (λ gs. total_minutes gs ≡ len + length (m ∷ ms))
      (follows cal previous m) _ (Ensures-any _)
      λ on _. elim (Bool-cases on) [
        | inl goes_on ↦ rw goes_on (
            Ensures-map _ (λ gs. total_minutes gs ≡ len + length (m ∷ ms)) _
              (gaps_from-total_minutes cal start (len + 1) (some m) ms (omega arith))
              (λ gs e. omega arith))
        | inr ends ↦ rw ends (
            bind-Ensures (λ gs. total_minutes gs ≡ 1 + length ms)
              (λ gs. total_minutes gs ≡ len + length (m ∷ ms))
              (gaps_from cal 1 (some m) 1 (some m) ms) _
              (gaps_from-total_minutes cal m 1 (some m) ms (omega arith))
              (λ gs e. omega (arith, close_run-total_minutes start len gs h)))
      ]

sorted_total_minutes :
    (cal : SessionCalendar) (ms : List ℕ)
    → Ensures (λ gs. total_minutes gs ≡ length ms) (gaps_from cal 1 none 0 none ms)
unfolding gaps_from follows
sorted_total_minutes cal [] = refl
sorted_total_minutes cal (m ∷ ms) =
    bind-Ensures (λ gs. total_minutes gs ≡ 1 + length ms) (λ gs. total_minutes gs ≡ length (m ∷ ms))
      (gaps_from cal 1 (some m) 1 (some m) ms) _
      (gaps_from-total_minutes cal m 1 (some m) ms (omega arith)) (λ gs e. omega arith)

-- If `find_gaps` returns for gaps of one minute and more, its gaps have as many minutes together as
-- are missing.
pub find_gaps-total_minutes :
    (cal : SessionCalendar) (missing : List ℕ)
    → Ensures (λ gs. total_minutes gs ≡ length missing) (find_gaps cal missing 1)
unfolding find_gaps
find_gaps-total_minutes cal missing =
    Ensures-map (λ gs. total_minutes gs ≡ length (sort_by itself missing))
      (λ gs. total_minutes gs ≡ length missing) _
      (sorted_total_minutes cal (sort_by itself missing))
      (λ gs e. e ∙ length-sort_by itself missing)
