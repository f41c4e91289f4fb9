-- ===== src/Fills/EventLog/Commands.antt =====
-- The events of the operations that no bar causes.
use research_platform.Prelude.{
  ℕ, Bool, Bool-cases, inl, inr, Option, none, some, String, refl, sym, ◌∙◌, ◌==◌, arith, ◌||◌, ltb,
}
use research_platform.Result.{guard, value_error, Ensures, bind-Ensures, Ensures-any}
use research_platform.Calendar.{Datetime, last_expected_minute_before}
use research_platform.Domain.Values.{lookup, Value}
use research_platform.Domain.Signal.{Bar, Direction, long, short}
use research_platform.Domain.Order.{OrderState, OrderContext, Ref, iso_instant, is_final}
use research_platform.Fills.Mirror.{mirror_state, mirror_bar}
use research_platform.Fills.Exit.{validity_end, is_pending}
use research_platform.Fills.Engine.{
  flag_review, cancel, freeze, apply_dividend, apply_validity_end, exit_on_last_bar, validity_exit,
  same_ts,
}
use research_platform.Fills.EventLog.View.{view}
use research_platform.Fills.EventLog.Exits.{Logged, append-Logged, validity_end-Logged}
use research_platform.Fills.EventLog.Runs.{replay-mirror_event}

pub flag_review-Logged :
    (s : OrderState) (reason : String) (ref : Ref)
    → Ensures (Logged (view s)) (flag_review s reason ref)
unfolding flag_review
flag_review-Logged s reason ref = refl

-- If `cancel` returns, replaying its events over the view of the old state gives the view of the
-- new one.
pub cancel-Logged :
    (s : OrderState) (at : Datetime) (by : String) → Ensures (Logged (view s)) (cancel s at by)
unfolding cancel
cancel-Logged s (Datetime.naive t) by = tt
cancel-Logged s (Datetime.aware t) by = ground arith

-- If `freeze` returns, replaying its events over the view of the old state gives the view of the
-- new one.
pub freeze-Logged :
    (s : OrderState) (reason : String) (ref : Ref) → Ensures (Logged (view s)) (freeze s reason ref)
unfolding freeze
freeze-Logged s reason ref = ground arith

-- If `apply_dividend` returns, replaying its events over the view of the old state gives the view
-- of the new one, the dividends included.
pub apply_dividend-Logged :
    (parse : String → Option Value) (s : OrderState) (ctx : OrderContext) (ex_date : ℕ)
    (amount : Value) (validated : Bool)
    → Ensures (Logged (view s)) (apply_dividend parse s ctx ex_date amount validated)
unfolding apply_dividend lookup
apply_dividend-Logged parse s ctx ex_date amount validated = ground arith

validity_exit-Logged :
    (d : Direction) (s : OrderState) (b : Bar) (ctx : OrderContext)
    → Ensures (Logged (view s)) (validity_exit d s b ctx)
unfolding mirror_state
validity_exit-Logged long s b ctx = validity_end-Logged s (some b) ctx
validity_exit-Logged short s b ctx =
    bind-Ensures (Logged (view s)) (Logged (view s))
      (validity_end (mirror_state s) (some (mirror_bar b)) ctx) _
      (validity_end-Logged (mirror_state s) (some (mirror_bar b)) ctx)
      (λ o h. h ∙ sym (replay-mirror_event (view s) o.1))

exit_on_last_bar-Logged :
    (s : OrderState) (ctx : OrderContext) (last : Option Bar)
    → Ensures (Logged (view s)) (exit_on_last_bar s ctx last)
unfolding exit_on_last_bar
exit_on_last_bar-Logged s ctx none = refl
exit_on_last_bar-Logged s ctx (some b) =
    bind-Ensures (λ _. Unit) (Logged (view s)) (guard (same_ts b.ts s.last_bar_ts) value_error) _
      (Ensures-any _)
      λ _ _.
        bind-Ensures (Logged (view s)) (Logged (view s))
          (validity_exit ctx.signal.direction s b ctx) _
          (validity_exit-Logged ctx.signal.direction s b ctx)
          λ o h.
            bind-Ensures (λ _. Unit) (Logged (view s))
              (last_expected_minute_before ctx.calendar ctx.valid_until_ts) _ (Ensures-any _)
              λ last _. elim (Bool-cases (b.ts == last)) [
                | inl on_time ↦ rw on_time h
                | inr stale ↦ rw stale (
                    append-Logged (view s) o.0 o.1
                      (flag_review o.0 "STALE_EXIT_BAR" (iso_instant ctx.valid_until_ts)) h
                      (flag_review-Logged o.0 "STALE_EXIT_BAR" (iso_instant ctx.valid_until_ts)))
              ]

-- If `apply_validity_end` returns, replaying its events over the view of the old state gives the
-- view of the new one.
pub apply_validity_end-Logged :
    (s : OrderState) (ctx : OrderContext) (last : Option Bar) (now : Datetime)
    → Ensures (Logged (view s)) (apply_validity_end s ctx last now)
unfolding apply_validity_end
apply_validity_end-Logged s ctx last (Datetime.naive t) = tt
apply_validity_end-Logged s ctx last (Datetime.aware t) =
    elim (Bool-cases (ltb t ctx.valid_until_ts || (is_final s || s.frozen))) [
      | inl idle ↦ rw idle refl
      | inr due ↦ elim (Bool-cases (is_pending s.status)) [
        | inl waiting ↦ rw (due, waiting) (validity_end-Logged s none ctx)
        | inr held ↦ rw (due, held) (exit_on_last_bar-Logged s ctx last)
      ]
    ]
