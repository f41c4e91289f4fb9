-- ===== src/Research/Timeframes/Settled.antt =====
-- The candles of `resample` against the instant of the analysis.
use research_platform.Prelude.{
  ℕ, ◌+◌, ◌≤◌, Bool-cases, inl, inr, ltb, ltb→ge, Option, List, [], ◌∷◌, ◌++◌, All, last_or, arith,
}
use research_platform.Result.{ok, Ensures, bind-any, bind-Ensures}
use research_platform.Calendar.{one_minute, Session, SessionCalendar}
use research_platform.Domain.Signal.{Bar}
use research_platform.Research.Candle.{Timeframe, bucket_minutes, Candle, check_candle}
use research_platform.Research.Timeframes.{
  candle_of, candle_unless_empty, bucket_candles, session_candles, session_buckets, resample,
  by_minute, present_in, sessions_in_window,
}

-- Every minute of the candle's bucket is over, and it has a bar for at least one of them and for no
-- more than there are.
abbrev pub IsElapsed : (completed_through : ℕ) → Candle → Type 0
IsElapsed completed_through c =
    (c.end_ts + one_minute ≤ completed_through)
    × (1 ≤ c.minutes_present)
    × (c.minutes_present ≤ c.minutes_expected)

append-All : {A : Type 0} (P : A → Type 0) (xs ys : List A) → All P xs → All P ys → All P (xs ++ ys)
append-All P [] ys h k = k
append-All P (x ∷ xs) ys h k = (h.0, append-All P xs ys h.1 k)

candle_of-IsElapsed :
    (timeframe : Timeframe) (session : Session) (through m : ℕ) (ms : List ℕ) (b : Bar)
    (bs : List Bar) (nominal : Option ℕ)
    → last_or m ms + one_minute ≤ through
    → Ensures (IsElapsed through) (candle_of timeframe session m ms b bs nominal)
unfolding candle_of check_candle
candle_of-IsElapsed timeframe session through m ms b bs nominal h = ground (arith, h)

candle_unless_empty-IsElapsed :
    (timeframe : Timeframe) (session : Session) (through m : ℕ) (ms : List ℕ) (bs : List Bar)
    (nominal : Option ℕ)
    → last_or m ms + one_minute ≤ through
    → Ensures (All (IsElapsed through)) (candle_unless_empty timeframe session m ms bs nominal)
candle_unless_empty-IsElapsed timeframe session through m ms [] nominal h = tt
candle_unless_empty-IsElapsed timeframe session through m ms (b ∷ bs) nominal h =
    bind-Ensures (IsElapsed through) (All (IsElapsed through))
      (candle_of timeframe session m ms b bs nominal) (λ c. ok (c ∷ []))
      (candle_of-IsElapsed timeframe session through m ms b bs nominal h) (λ c k. (k, tt))

bucket_candles-IsElapsed :
    (timeframe : Timeframe) (through : ℕ) (indexed : List Bar) (session : Session)
    (buckets : List (List ℕ))
    → Ensures (All (IsElapsed through)) (bucket_candles timeframe through indexed session buckets)
unfolding bucket_candles
bucket_candles-IsElapsed timeframe through indexed session [] = tt
bucket_candles-IsElapsed timeframe through indexed session ([] ∷ buckets) = tt
bucket_candles-IsElapsed timeframe through indexed session ((m ∷ ms) ∷ buckets) =
    elim (Bool-cases (ltb through (last_or m ms + one_minute))) [
      | inl e ↦ rw e tt
      | inr e ↦ rw e (
          bind-Ensures (All (IsElapsed through)) (All (IsElapsed through)) _ _
            (candle_unless_empty-IsElapsed timeframe session through m ms
              (present_in indexed (m ∷ ms)) (bucket_minutes timeframe) (ltb→ge _ _ e))
            (λ first h.
              bind-Ensures (All (IsElapsed through)) (All (IsElapsed through)) _ _
                (bucket_candles-IsElapsed timeframe through indexed session buckets)
                (λ rest k. append-All (IsElapsed through) first rest h k)))
    ]

session_candles-IsElapsed :
    (cal : SessionCalendar) (timeframe : Timeframe) (through : ℕ) (indexed : List Bar)
    (ss : List Session)
    → Ensures (All (IsElapsed through)) (session_candles cal timeframe through indexed ss)
unfolding session_candles
session_candles-IsElapsed cal timeframe through indexed [] = tt
session_candles-IsElapsed cal timeframe through indexed (s ∷ ss) =
    bind-any (All (IsElapsed through)) (session_buckets cal s timeframe) _ λ buckets.
      bind-Ensures (All (IsElapsed through)) (All (IsElapsed through)) _ _
        (bucket_candles-IsElapsed timeframe through indexed s buckets)
        (λ first h.
          bind-Ensures (All (IsElapsed through)) (All (IsElapsed through)) _ _
            (session_candles-IsElapsed cal timeframe through indexed ss)
            (λ rest k. append-All (IsElapsed through) first rest h k))

-- Every candle that `resample` returns has its last expected minute over by `completed_through`,
-- and was built from at least one bar and from no more than its bucket has minutes.
pub resample-IsElapsed :
    (bars : List Bar) (cal : SessionCalendar) (timeframe : Timeframe)
    (start until completed_through : ℕ)
    → Ensures
        (All (IsElapsed completed_through))
        (resample bars cal timeframe start until completed_through)
unfolding resample
resample-IsElapsed bars cal timeframe start until completed_through =
    bind-any (All (IsElapsed completed_through)) (by_minute bars) _ λ indexed.
      session_candles-IsElapsed cal timeframe completed_through indexed
        (sessions_in_window cal start until)
