-- ===== src/Research/Timeframes/Buckets.antt =====
-- The buckets of a session against its expected minutes.
use mathlib.Core.Path.{subst}
use mathlib.Core.List.{append-nil}
use research_platform.Prelude.{
  ℕ, zero, suc, ◌≤◌, ◌≡◌, refl, sym, ap, ◌∙◌, Option, none, some, List, [], ◌∷◌, ◌++◌, length,
  length-drop, take, drop, All, arith,
}
use research_platform.Result.{ok}
use research_platform.Calendar.{Session, SessionCalendar, last_session}
use research_platform.Calendar.Lookup.{IsValid}
use research_platform.Calendar.Minutes.{Enumerates, expected_minutes-Enumerates}
use research_platform.Research.Candle.{Timeframe, bucket_minutes}
use research_platform.Research.Timeframes.{chunks, buckets_of, session_buckets}

abbrev pub concat : {A : Type 0} → List (List A) → List A
concat [] = []
concat (xs ∷ xss) = xs ++ concat xss

-- A bucket has a minute, and no more minutes than the timeframe.
abbrev pub IsFilled : Option ℕ → List ℕ → Type 0
IsFilled none bucket = 1 ≤ length bucket
IsFilled (some size) bucket = (1 ≤ length bucket) × (length bucket ≤ size)

take-drop : {A : Type 0} (n : ℕ) (xs : List A) → take n xs ++ drop n xs ≡ xs
take-drop zero xs = refl
take-drop (suc n) [] = refl
take-drop (suc n) (x ∷ xs) = ap (λ ys. x ∷ ys) (take-drop n xs)

length-take_le : {A : Type 0} (n : ℕ) (xs : List A) → length (take n xs) ≤ n
length-take_le zero xs = omega arith
length-take_le (suc n) [] = omega arith
length-take_le (suc n) (x ∷ xs) = omega (arith, length-take_le n xs)

concat-chunks :
    (fuel size : ℕ) (ms : List ℕ) → length ms ≤ fuel → concat (chunks fuel (suc size) ms) ≡ ms
unfolding chunks
concat-chunks zero size [] h = refl
concat-chunks zero size (m ∷ ms) h = absurd (omega (arith, h))
concat-chunks (suc fuel) size [] h = refl
concat-chunks (suc fuel) size (m ∷ ms) h =
    ap (λ rest. (m ∷ take size ms) ++ rest)
      (concat-chunks fuel size (drop size ms) (omega (arith, h, length-drop size ms)))
    ∙ ap (λ rest. m ∷ rest) (take-drop size ms)

chunks-IsFilled :
    (fuel size : ℕ) (ms : List ℕ) → All (IsFilled (some (suc size))) (chunks fuel (suc size) ms)
unfolding chunks
chunks-IsFilled zero size ms = tt
chunks-IsFilled (suc fuel) size [] = tt
chunks-IsFilled (suc fuel) size (m ∷ ms) =
    ((omega arith, omega (arith, length-take_le size ms)), chunks-IsFilled fuel size (drop size ms))

buckets_of-parts :
    (timeframe : Timeframe) (ms : List ℕ)
    → (concat (buckets_of (bucket_minutes timeframe) ms) ≡ ms)
      × All (IsFilled (bucket_minutes timeframe)) (buckets_of (bucket_minutes timeframe) ms)
unfolding bucket_minutes
buckets_of-parts Timeframe.m5 ms =
    (concat-chunks (length ms) 4 ms (omega arith), chunks-IsFilled (length ms) 4 ms)
buckets_of-parts Timeframe.m15 ms =
    (concat-chunks (length ms) 14 ms (omega arith), chunks-IsFilled (length ms) 14 ms)
buckets_of-parts Timeframe.m30 ms =
    (concat-chunks (length ms) 29 ms (omega arith), chunks-IsFilled (length ms) 29 ms)
buckets_of-parts Timeframe.h1 ms =
    (concat-chunks (length ms) 59 ms (omega arith), chunks-IsFilled (length ms) 59 ms)
buckets_of-parts Timeframe.h4 ms =
    (concat-chunks (length ms) 239 ms (omega arith), chunks-IsFilled (length ms) 239 ms)
buckets_of-parts Timeframe.d1 [] = (refl, tt)
buckets_of-parts Timeframe.d1 (m ∷ ms) = (append-nil (m ∷ ms), (omega arith, tt))

-- For a valid calendar and a session within its range, `session_buckets` returns buckets that,
-- joined, are exactly the expected minutes of the session, in order; no bucket is empty, and none
-- has more minutes than the timeframe.
pub session_buckets-Enumerates :
    (cal : SessionCalendar) (s : Session) (timeframe : Timeframe)
    → IsValid cal
    → cal.first.open_utc ≤ s.open_utc
    → s.close_utc ≤ (last_session cal).close_utc
    → (buckets : List (List ℕ)) × (session_buckets cal s timeframe ≡ ok buckets)
      × Enumerates cal s.open_utc s.close_utc (concat buckets)
      × All (IsFilled (bucket_minutes timeframe)) buckets
unfolding session_buckets
session_buckets-Enumerates cal s timeframe v lo hi =
    let (ms, e, all) = expected_minutes-Enumerates cal s.open_utc s.close_utc v lo hi in
    let (joined, filled) = buckets_of-parts timeframe ms in
    (
      buckets_of (bucket_minutes timeframe) ms,
      rw e refl,
      subst (Enumerates cal s.open_utc s.close_utc) (sym joined) all,
      filled,
    )
