-- ===== src/Research/Timeframes.antt =====
-- src/virtual_orders/research/timeframes.py: candles of a higher timeframe out of minute bars, over the expected
-- minutes of the calendar. An aware `datetime` is its instant.
pub mod Buckets
pub mod Settled
use research_platform.Prelude.{
  ℕ, zero, suc, ◌+◌, Bool, true, false, not, ◌&&◌, ◌||◌, Option, none, some, List, [], ◌∷◌, ◌++◌,
  any, ltb, leb, ◌==◌, if◌then◌else◌, length, filter, take, drop, last_or,
}
use research_platform.Result.{Result, ok, err, value_error, index_error, ◌>>=◌, ◌>>◌, raise_if}
use research_platform.Decimal
use research_platform.Decimal.{Decimal, zero_decimal}
use research_platform.Calendar.{
  one_minute, Session, SessionCalendar, sessions, expected_minutes, last_expected_minute_before,
}
use research_platform.Domain.Signal.{Bar}
use research_platform.Research.Candle.{Timeframe, bucket_minutes, Candle, check_candle, complete}

-- `[minutes[index : index + size] for index in range(0, len(minutes), size)]`, on as much fuel as
-- there are minutes.
unfoldable pub chunks : (fuel size : ℕ) → List ℕ → List (List ℕ)
chunks zero size minutes = []
chunks (suc fuel) size [] = []
chunks (suc fuel) size (m ∷ ms) = take size (m ∷ ms) ∷ chunks fuel size (drop size (m ∷ ms))

abbrev whole_session : List ℕ → List (List ℕ)
whole_session [] = []
whole_session (m ∷ ms) = (m ∷ ms) ∷ []

abbrev pub buckets_of : Option ℕ → List ℕ → List (List ℕ)
buckets_of none minutes = whole_session minutes
buckets_of (some size) minutes = chunks (length minutes) size minutes

unfoldable pub session_buckets : SessionCalendar → Session → Timeframe → Result (List (List ℕ))
unfolding chunks
session_buckets cal session timeframe = do
  minutes ← expected_minutes cal session.open_utc session.close_utc
  ok (buckets_of (bucket_minutes timeframe) minutes)

abbrev pub sessions_in_window : SessionCalendar → (start until : ℕ) → List Session
sessions_in_window cal start until =
    filter (λ s. ltb s.open_utc until && ltb start s.close_utc) (sessions cal)

-- The dictionary from minutes to bars, as the bars themselves.
unfoldable pub by_minute : List Bar → Result (List Bar)
by_minute [] = ok []
by_minute (b ∷ bs) = do
  raise_if (any (λ c. c.ts == b.ts) bs) value_error
  rest ← by_minute bs
  ok (b ∷ rest)

abbrev pub bar_at : ℕ → List Bar → Option Bar
bar_at minute [] = none
bar_at minute (b ∷ bs) = if b.ts == minute then some b else bar_at minute bs

abbrev and_bar : Option Bar → List Bar → List Bar
and_bar none bs = bs
and_bar (some b) bs = b ∷ bs

-- `[indexed[minute] for minute in bucket if minute in indexed]`
abbrev pub present_in : List Bar → (bucket : List ℕ) → List Bar
present_in indexed [] = []
present_in indexed (m ∷ ms) = and_bar (bar_at m indexed) (present_in indexed ms)

abbrev total_volume : Decimal → List Bar → Decimal
total_volume total [] = total
total_volume total (b ∷ bs) = total_volume (Decimal.add total b.volume) bs

abbrev highest : Decimal → List Bar → Decimal
highest best [] = best
highest best (b ∷ bs) = highest (Decimal.max best b.high) bs

abbrev lowest : Decimal → List Bar → Decimal
lowest best [] = best
lowest best (b ∷ bs) = lowest (Decimal.min best b.low) bs

abbrev is_truncated : Option ℕ → ℕ → Bool
is_truncated none count = false
is_truncated (some nominal) count = ltb count nominal

-- `_candle`, of the bucket `m ∷ ms` with the bars `b ∷ bs`.
unfoldable pub candle_of :
    Timeframe → Session → ℕ → List ℕ → Bar → List Bar → (nominal : Option ℕ) → Result Candle
candle_of timeframe session m ms b bs nominal = check_candle (record {
  timeframe = timeframe;
  ts = m;
  end_ts = last_or m ms;
  session_day = session.day;
  open_price = b.open_price;
  high = highest b.high bs;
  low = lowest b.low bs;
  close = (last_or b bs).close;
  volume = total_volume zero_decimal (b ∷ bs);
  minutes_expected = length (m ∷ ms);
  minutes_present = length (b ∷ bs);
  truncated = is_truncated nominal (length (m ∷ ms));
})

-- A bucket with no bar has no candle.
abbrev pub candle_unless_empty :
    Timeframe → Session → ℕ → List ℕ → List Bar → (nominal : Option ℕ) → Result (List Candle)
candle_unless_empty timeframe session m ms [] nominal = ok []
candle_unless_empty timeframe session m ms (b ∷ bs) nominal =
    candle_of timeframe session m ms b bs nominal >>= λ c. ok (c ∷ [])

-- The loop over the buckets of a session; `break` at the first one that is still open.
unfoldable pub bucket_candles :
    Timeframe → (completed_through : ℕ) → List Bar → Session → List (List ℕ) → Result (List Candle)
unfolding candle_of
bucket_candles timeframe completed_through indexed session [] = ok []
bucket_candles timeframe completed_through indexed session ([] ∷ buckets) = err index_error
bucket_candles timeframe completed_through indexed session ((m ∷ ms) ∷ buckets) =
    let closed = (do
      first ←
          candle_unless_empty timeframe session m ms (present_in indexed (m ∷ ms))
            (bucket_minutes timeframe)
      rest ← bucket_candles timeframe completed_through indexed session buckets
      ok (first ++ rest)) in
    if ltb completed_through (last_or m ms + one_minute) then ok [] else closed

unfoldable pub session_candles :
    SessionCalendar
    → Timeframe
    → (completed_through : ℕ) → List Bar
    → List Session
    → Result (List Candle)
unfolding bucket_candles session_buckets
session_candles cal timeframe completed_through indexed [] = ok []
session_candles cal timeframe completed_through indexed (s ∷ ss) = do
  buckets ← session_buckets cal s timeframe
  first ← bucket_candles timeframe completed_through indexed s buckets
  rest ← session_candles cal timeframe completed_through indexed ss
  ok (first ++ rest)

unfoldable pub resample :
    List Bar
    → SessionCalendar
    → Timeframe
    → (start until completed_through : ℕ) → Result (List Candle)
unfolding by_minute session_candles
resample bars cal timeframe start until completed_through = do
  indexed ← by_minute bars
  session_candles cal timeframe completed_through indexed (sessions_in_window cal start until)

abbrev or_none : Result ℕ → Option ℕ
or_none (ok t) = some t
or_none (err _) = none

-- `last_completed_minute`; the calendar raises nothing but its range error here.
unfoldable pub last_completed_minute : SessionCalendar → ℕ → Option ℕ
last_completed_minute cal now = or_none (last_expected_minute_before cal now)

-- `settled`
abbrev pub settled : Candle → (completed_through settle : ℕ) → Bool
settled c completed_through settle =
    if complete c then true else leb (c.end_ts + one_minute + settle) completed_through

-- `iter_completed`
abbrev pub iter_completed : List Candle → List Candle
iter_completed cs = filter complete cs
