-- ===== src/Quality.antt =====
-- src/core/dataquality.py: the pure checks of the data behind an order.
pub mod Sessions
pub mod Gaps
use research_platform.Prelude.{
  ℕ, zero, suc, ◌+◌, ◌-◌, Bool, true, false, not, ◌&&◌, ◌||◌, Option, none, some, String, List, [],
  ◌∷◌, ◌++◌, ltb, leb, ◌==◌, if◌then◌else◌, any, length, map, min, max,
}
use research_platform.Prelude.Int.{pos}
use research_platform.Prelude.Sort.{sort_by}
use research_platform.Result.{Result, ok, err, type_error, runtime_error, ◌>>=◌, or_raise}
use research_platform.Decimal
use research_platform.Decimal.{Decimal, from_ℕ}
use research_platform.Calendar.{
  Datetime, one_minute, floor_minute, SessionCalendar, expected_minutes, session_containing,
  is_expected_minute, next_expected_minute,
}
use research_platform.Domain.Values.{Value, Items, nil, cons, field, end}
use research_platform.Domain.Signal.{Bar, SignalSpec}
use research_platform.Domain.Order.{
  EventType, OrderContext, OrderState, Event, on_date, at_bar, make_event,
}

pub record ReviewFlag : Type 0 where
  pub reason : String
  pub ref : ℕ

pub record SessionQuality : Type 0 where
  pub day : ℕ
  pub expected : ℕ
  pub missing : List ℕ

-- The property `coverage_pct`.
unfoldable pub coverage_pct : SessionQuality → Result Decimal
coverage_pct q =
    Decimal.div (Decimal.mul (from_ℕ (q.expected - length q.missing)) (from_ℕ 100))
      (from_ℕ q.expected)
    >>= λ pct. Decimal.quantize pct 2

abbrev minute_items : List ℕ → Items
minute_items [] = nil
minute_items (m ∷ ms) = cons (Value.instant m) (minute_items ms)

-- `SessionQuality.event`
unfoldable pub quality_event : SessionQuality → Result Event
unfolding make_event
quality_event q = do
  pct ← coverage_pct q
  make_event (record {
    type = EventType.data_quality;
    event_key = on_date EventType.data_quality q.day;
    bar_ts = none;
    price = none;
    qty = none;
    bar_batch_id = none;
    payload = field "session_date" (Value.date q.day) (
        field "expected_bars" (Value.int (pos q.expected)) (
          field "missing_bars" (Value.int (pos (length q.missing))) (
            field "coverage_pct" (Value.decimal pct)
              (field "missing_minutes" (Value.items (minute_items q.missing)) end))));
  })

-- A naive `now` does not compare with an aware instant.
abbrev comparable : Datetime → Result ℕ
comparable (Datetime.naive _) = err type_error
comparable (Datetime.aware t) = ok t

abbrev window_end : OrderContext → Datetime → Option ℕ → Result ℕ
window_end ctx now none = comparable now >>= λ t. ok (min (floor_minute t) ctx.valid_until_ts)
window_end ctx now (some final) = is_expected_minute ctx.calendar final >>= λ expected.
    ok (if expected then final + one_minute else final)

unfoldable pub quality_window : OrderState → OrderContext → (now : Datetime) → Result (ℕ × ℕ)
quality_window state ctx now = window_end ctx now state.final_event_ts >>= λ until.
    ok (ctx.evaluation_start_ts, max ctx.evaluation_start_ts until)

-- Counts a minute of the day. The two dictionaries of the code have the same keys in the same
-- order: they are one table.
unfoldable pub count_minute :
    (day minute : ℕ) → (absent : Bool) → List SessionQuality → List SessionQuality
count_minute day minute absent [] =
    record { day = day; expected = 1; missing = if absent then minute ∷ [] else [] } ∷ []
count_minute day minute absent (q ∷ qs) =
    let later = q ∷ count_minute day minute absent qs in
    if q.day == day
    then record q {
      expected = q.expected + 1;
      missing = if absent then q.missing ++ minute ∷ [] else q.missing;
    }
      ∷ qs
    else later

-- `minute not in present_set`
abbrev pub is_absent : List ℕ → ℕ → Bool
is_absent present minute = not (any (λ p. minute == p) present)

-- The loop of `session_quality` over the expected minutes.
unfoldable pub count_minutes :
    SessionCalendar
    → (present : List ℕ) → (minutes : List ℕ) → List SessionQuality
    → Result (List SessionQuality)
unfolding count_minute
count_minutes cal present [] table = ok table
count_minutes cal present (m ∷ ms) table = do
  found ← session_containing cal m
  s ← or_raise found runtime_error
  count_minutes cal present ms (count_minute s.day m (is_absent present m) table)

unfoldable pub session_quality :
    SessionCalendar → (start until : ℕ) → (present : List ℕ) → Result (List SessionQuality)
unfolding count_minutes
session_quality cal start until present =
    expected_minutes cal start until >>= λ minutes. count_minutes cal present minutes []

-- A gap: its first minute, and how many minutes it has.
abbrev pub Gap : Type 0
Gap = ℕ × ℕ

-- The run that ends, if it is long enough.
abbrev pub close_run : (min_minutes : ℕ) → Option ℕ → (length : ℕ) → List Gap
close_run min_minutes none run_length = []
close_run min_minutes (some start) run_length =
    if leb min_minutes run_length then (start, run_length) ∷ [] else []

-- `previous is not None and calendar.next_expected_minute(previous) == minute`
unfoldable pub follows : SessionCalendar → Option ℕ → ℕ → Result Bool
follows cal none minute = ok false
follows cal (some previous) minute =
    next_expected_minute cal previous >>= λ next. ok (next == minute)

-- The loop of `find_gaps` over the sorted minutes.
unfoldable pub gaps_from :
    SessionCalendar
    → (min_minutes : ℕ) → (run_start : Option ℕ) → (run_length : ℕ) → (previous : Option ℕ) → List ℕ
    → Result (List Gap)
gaps_from cal min_minutes run_start run_length previous [] =
    ok (close_run min_minutes run_start run_length)
gaps_from cal min_minutes run_start run_length previous (m ∷ ms) =
    let longer = gaps_from cal min_minutes run_start (run_length + 1) (some m) ms in
    let anew = gaps_from cal min_minutes (some m) 1 (some m) ms in
    follows cal previous m >>= λ goes_on.
    if goes_on
    then longer
    else (anew >>= λ gaps. ok (close_run min_minutes run_start run_length ++ gaps))

abbrev pub itself : ℕ → ℕ
itself m = m

unfoldable pub find_gaps :
    SessionCalendar → (missing : List ℕ) → (min_minutes : ℕ) → Result (List Gap)
unfolding gaps_from
find_gaps cal missing min_minutes = gaps_from cal min_minutes none 0 none (sort_by itself missing)

abbrev gap_event : Gap → Result Event
gap_event (start, minutes) = make_event (record {
  type = EventType.data_gap;
  event_key = at_bar EventType.data_gap start;
  bar_ts = none;
  price = none;
  qty = none;
  bar_batch_id = none;
  payload =
      field "gap_start_ts" (Value.instant start) (field "minutes" (Value.int (pos minutes)) end);
})

unfoldable pub gap_events : List Gap → Result (List Event)
gap_events [] = ok []
gap_events (g ∷ gs) = do event ← gap_event g; later ← gap_events gs; ok (event ∷ later)

abbrev option_list : Option Decimal → List Decimal
option_list none = []
option_list (some d) = d ∷ []

abbrev pub or_value : Option Decimal → Decimal → Decimal
or_value none d = d
or_value (some s) _ = s

abbrev not_yet : ℕ → Option ℕ → Bool
not_yet minute none = false
not_yet minute (some from) = ltb minute from

-- The stop in force at the minute.
abbrev pub stop_at : SignalSpec → OrderState → ℕ → Decimal
stop_at signal state minute =
    let current = or_value state.stop_current signal.stop in
    if not_yet minute state.stop_active_from then or_value state.stop_previous current else current

unfoldable pub active_levels : SignalSpec → OrderState → (minute : ℕ) → List Decimal
active_levels signal state minute =
    signal.entry_zone_low
      ∷ signal.entry_zone_high
      ∷ stop_at signal state minute
      ∷ signal.target1
      ∷ option_list signal.target2
    ++ option_list signal.trigger_price

abbrev pub touches : Bar → Decimal → Bool
touches bar level = Decimal.le bar.low level && Decimal.le level bar.high

-- What a missing minute calls for, given its reference bar.
unfoldable pub review_minute : ℕ → Option Bar → SignalSpec → OrderState → List ReviewFlag
unfolding active_levels
review_minute minute none signal state =
    record { reason = "MISSING_BAR_UNVERIFIABLE"; ref = minute } ∷ []
review_minute minute (some bar) signal state =
    if any (touches bar) (active_levels signal state minute)
    then record { reason = "MISSING_BAR_LEVEL_TOUCH"; ref = minute } ∷ []
    else []

abbrev pub review_minutes : (ℕ → Option Bar) → SignalSpec → OrderState → List ℕ → List ReviewFlag
review_minutes reference signal state [] = []
review_minutes reference signal state (m ∷ ms) =
    review_minute m (reference m) signal state ++ review_minutes reference signal state ms

unfoldable pub missing_bar_reviews :
    (missing : List ℕ) → (reference : ℕ → Option Bar) → SignalSpec → OrderState → List ReviewFlag
missing_bar_reviews missing reference signal state =
    review_minutes reference signal state (sort_by itself missing)

abbrev highest : Decimal → List Bar → Decimal
highest best [] = best
highest best (b ∷ bs) = highest (Decimal.max best b.high) bs

abbrev lowest : Decimal → List Bar → Decimal
lowest best [] = best
lowest best (b ∷ bs) = lowest (Decimal.min best b.low) bs

-- `abs(value - reference) > reference * tolerance`
abbrev deviates : Decimal → Decimal → Decimal → Bool
deviates value reference tolerance =
    Decimal.lt (Decimal.mul reference tolerance) (Decimal.abs (Decimal.sub value reference))

unfoldable pub daily_range_mismatch :
    List Bar → (reference_high reference_low tolerance_pct : Decimal) → Bool
daily_range_mismatch [] reference_high reference_low tolerance_pct = false
daily_range_mismatch (b ∷ bs) reference_high reference_low tolerance_pct =
    let tolerance = Decimal.quotient tolerance_pct (from_ℕ 100) in
    deviates (highest b.high bs) reference_high tolerance
    || deviates (lowest b.low bs) reference_low tolerance

unfoldable pub dividends_agree : Option Decimal → Option Decimal → (tolerance : Decimal) → Bool
dividends_agree (some first) (some second) tolerance =
    Decimal.le (Decimal.abs (Decimal.sub first second)) tolerance
dividends_agree _ _ tolerance = false
