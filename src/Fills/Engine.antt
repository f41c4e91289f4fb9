-- ===== src/Fills/Engine.antt =====
-- src/core/fills/v1/engine.py: the operations of the fill model. A `StepResult` is a state with the
-- events that led to it (`Outcome`); an exception is an `err`.
use research_platform.Prelude.{
  ℕ, Bool, true, false, not, ◌&&◌, ◌||◌, Option, none, some, String, List, [], ◌∷◌, ◌++◌, ltb, leb,
  ◌==◌, any, if◌then◌else◌,
}
use text.Mathlib.Text.{◌==◌ as str_eq}
use research_platform.Prelude.Int.{negsuc, pos}
use research_platform.Prelude.Sort.{sort_by}
use research_platform.Result.{Result, ok, value_error, ◌>>=◌, ◌>>◌, guard}
use research_platform.Decimal
use research_platform.Decimal.{Decimal, zero_decimal, from_ℕ}
use research_platform.Calendar.{
  Datetime, require_utc, is_expected_minute, last_expected_minute_before,
}
use research_platform.Domain.Values.{Value, field, end}
use research_platform.Domain.Signal.{Direction, long, short, Bar, SignalSpec, coerce_decimal}
use research_platform.Domain.Order.{
  OrderStatus, EventType, OrderContext, OrderState, Event, Ref, iso_instant, iso_date, named,
  with_reason, with_ref, on_date, make_event, is_final,
}
use research_platform.Fills.Mirror.{mirror_bar, mirror_signal, mirror_state, mirror_event}
use research_platform.Fills.Moves.{Outcome}
use research_platform.Fills.Exit.{exit_phase, validity_end, is_pending}
use research_platform.Fills.Entry.{entry_phase}

-- The phase that a bar of a LONG order goes through.
unfoldable pub phase : OrderState → Bar → SignalSpec → OrderContext → Result Outcome
phase state bar signal ctx =
    if is_pending state.status
    then entry_phase state bar signal ctx
    else exit_phase state bar signal ctx false

-- The end of the order's validity, on its last expected minute.
unfoldable pub close_validity : OrderState → List Event → Bar → OrderContext → Result Outcome
close_validity state events bar ctx = do
  last ← last_expected_minute_before ctx.calendar ctx.valid_until_ts
  if bar.ts == last
      then (validity_end state (some bar) ctx >>= λ o. ok (o.0, events ++ o.1))
      else ok (state, events)

-- The body of `step` over work values.
unfoldable pub process : OrderState → Bar → SignalSpec → OrderContext → Result Outcome
process state bar signal ctx = do
  moved ← phase state bar signal ctx
  let seen = record moved.0 { last_bar_ts = some bar.ts }
  if is_final seen then ok (seen, moved.1) else close_validity seen moved.1 bar ctx

abbrev pub map_list {ℓ κ} : {A : Type ℓ} {B : Type κ} → (A → B) → List A → List B
map_list f [] = []
map_list f (x ∷ xs) = f x ∷ map_list f xs

abbrev pub mirror_outcome : Outcome → Outcome
mirror_outcome o = (mirror_state o.0, map_list mirror_event o.1)

-- A SHORT order runs through the LONG rules on mirrored values.
unfoldable pub advance : Direction → OrderState → Bar → OrderContext → Result Outcome
advance long state bar ctx = process state bar ctx.signal ctx
advance short state bar ctx =
    process (mirror_state state) (mirror_bar bar) (mirror_signal ctx.signal) ctx >>= λ o.
    ok (mirror_outcome o)

abbrev seen_already : ℕ → Option ℕ → Bool
seen_already ts none = false
seen_already ts (some last) = leb ts last

-- The early returns of `step` that look at no calendar.
abbrev pub ignores : OrderState → Bar → OrderContext → Bool
ignores state bar ctx =
    (is_final state || state.frozen)
    || ((ltb bar.ts ctx.evaluation_start_ts || leb ctx.valid_until_ts bar.ts)
        || seen_already bar.ts state.last_bar_ts)

unfoldable pub step : OrderState → Bar → OrderContext → Result Outcome
step state bar ctx =
    if ignores state bar ctx
    then ok (state, [])
    else is_expected_minute ctx.calendar bar.ts >>= λ expected.
        if expected then advance ctx.signal.direction state bar ctx else ok (state, [])

-- The loop of `run_bars`.
unfoldable pub run_ordered : OrderState → List Bar → OrderContext → Result Outcome
run_ordered state [] ctx = ok (state, [])
run_ordered state (bar ∷ bars) ctx = do
  stepped ← step state bar ctx
  rest ← run_ordered stepped.0 bars ctx
  ok (rest.0, stepped.1 ++ rest.1)

abbrev pub bar_key : Bar → ℕ
bar_key b = b.ts

unfoldable pub run_bars : OrderState → List Bar → OrderContext → Result Outcome
unfolding run_ordered
run_bars state bars ctx = run_ordered state (sort_by bar_key bars) ctx

abbrev ref_value : Ref → Value
ref_value (iso_instant t) = Value.instant t
ref_value (iso_date d) = Value.date d
ref_value (Ref.other s) = Value.str s

-- `reason in reasons`
abbrev pub has_reason : String → List String → Bool
has_reason reason reasons = any (str_eq reason) reasons

unfoldable pub flag_review : OrderState → String → Ref → Result Outcome
unfolding make_event
flag_review state reason ref = do
  event ← make_event (record {
    type = EventType.needs_review;
    event_key = with_ref EventType.needs_review reason ref;
    bar_ts = none;
    price = none;
    qty = none;
    bar_batch_id = none;
    payload = field "reason" (Value.str reason) (field "ref" (ref_value ref) end);
  })
  ok (
    record state {
      review_reasons =
          if has_reason reason state.review_reasons
          then state.review_reasons
          else state.review_reasons ++ reason ∷ [];
    },
    event ∷ [],
  )

unfoldable pub cancel : OrderState → Datetime → String → Result Outcome
unfolding make_event require_utc
cancel state at requested_by = do
  moment ← require_utc at
  if is_final state then ok (state, []) else (do
    event ← make_event (record {
      type = EventType.canceled;
      event_key = named EventType.canceled;
      bar_ts = none;
      price = none;
      qty = none;
      bar_batch_id = none;
      payload = field "at" (Value.instant moment) (
          field "requested_by" (Value.str requested_by)
            (field "open_qty" (Value.decimal state.qty_open) end));
    })
    ok (record state { status = OrderStatus.canceled; final_event_ts = some moment }, event ∷ []))

unfoldable pub freeze : OrderState → String → Ref → Result Outcome
unfolding make_event flag_review
freeze state reason ref =
    if is_final state || (state.frozen && has_reason reason state.frozen_reasons)
    then ok (state, [])
    else (do
      event ← make_event (record {
        type = EventType.frozen;
        event_key = with_reason EventType.frozen reason;
        bar_ts = none;
        price = none;
        qty = none;
        bar_batch_id = none;
        payload = field "reason" (Value.str reason) (field "ref" (ref_value ref) end);
      })
      review ←
          flag_review
            (record state { frozen = true; frozen_reasons = state.frozen_reasons ++ reason ∷ [] })
            reason ref
      ok (review.0, event ∷ review.1))

-- The exit at the end of validity, over work values.
abbrev pub validity_exit : Direction → OrderState → Bar → OrderContext → Result Outcome
validity_exit long state bar ctx = validity_end state (some bar) ctx
validity_exit short state bar ctx =
    validity_end (mirror_state state) (some (mirror_bar bar)) ctx >>= λ o. ok (mirror_outcome o)

abbrev pub same_ts : ℕ → Option ℕ → Bool
same_ts ts none = false
same_ts ts (some last) = ts == last

-- A position at the end of its validity, given its last processed bar.
unfoldable pub exit_on_last_bar : OrderState → OrderContext → Option Bar → Result Outcome
unfolding flag_review
exit_on_last_bar state ctx none = flag_review state "NO_EXIT_BAR" (iso_instant ctx.valid_until_ts)
exit_on_last_bar state ctx (some bar) = do
  guard (same_ts bar.ts state.last_bar_ts) value_error
  closed ← validity_exit ctx.signal.direction state bar ctx
  last ← last_expected_minute_before ctx.calendar ctx.valid_until_ts
  if bar.ts == last
      then ok closed
      else (flag_review closed.0 "STALE_EXIT_BAR" (iso_instant ctx.valid_until_ts) >>= λ review.
          ok (review.0, closed.1 ++ review.1))

unfoldable pub apply_validity_end :
    OrderState → OrderContext → Option Bar → Datetime → Result Outcome
unfolding require_utc exit_on_last_bar
apply_validity_end state ctx last_bar now = do
  moment ← require_utc now
  if ltb moment ctx.valid_until_ts || (is_final state || state.frozen)
      then ok (state, [])
      else if is_pending state.status
      then validity_end state none ctx
      else exit_on_last_bar state ctx last_bar

abbrev direction_sign : Direction → Decimal
direction_sign long = from_ℕ 1
direction_sign short = record { int = negsuc 0; exp = pos 0 }

-- `parse` is the constructor `Decimal(str)`.
unfoldable pub apply_dividend :
    (String → Option Value)
    → OrderState
    → OrderContext
    → (ex_date : ℕ) → Value
    → (validated : Bool) → Result Outcome
unfolding make_event flag_review
apply_dividend parse state ctx ex_date given validated = do
  amount ← coerce_decimal parse given
  if is_final state || state.frozen || Decimal.le state.qty_open zero_decimal
      then ok (state, [])
      else if not validated
      then flag_review state "DIVIDEND_UNVERIFIED" (iso_date ex_date)
      else (do
        let cash =
            Decimal.mul (Decimal.mul (direction_sign ctx.signal.direction) amount) state.qty_open
        event ← make_event (record {
          type = EventType.dividend;
          event_key = on_date EventType.dividend ex_date;
          bar_ts = none;
          price = none;
          qty = some state.qty_open;
          bar_batch_id = none;
          payload = field "ex_date" (Value.date ex_date) (
              field "amount_per_share" (Value.decimal amount)
                (field "cash" (Value.decimal cash) end));
        })
        ok (record state { dividends = Decimal.add state.dividends cash }, event ∷ []))
