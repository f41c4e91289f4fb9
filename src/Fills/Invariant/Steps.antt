-- ===== src/Fills/Invariant/Steps.antt =====
-- The well-formedness through `step` and `run_bars`.
use research_platform.Prelude.{
  ◌%◌, ◌≡◌, false, Bool-cases, inl, inr, some, List, [], ◌∷◌, arith, ◌==◌, if◌then◌else◌,
  or-eq-false,
}
use research_platform.Prelude.Sort.{sort_by}
use research_platform.Result.{ok}
use research_platform.Calendar.{one_minute, is_expected_minute, last_expected_minute_before}
use research_platform.Calendar.Errors.{
  is_expected_minute-SafeQuery, last_expected_minute_before-SafeQuery, is_expected_minute_whole,
}
use research_platform.Domain.Signal.{Direction, long, short, Bar, SignalSpec}
use research_platform.Domain.Order.{OrderContext, OrderState, Event, is_final}
use research_platform.Fills.Mirror.{mirror_state, mirror_bar, mirror_signal}
use research_platform.Fills.Engine.{
  phase, close_validity, process, advance, ignores, step, run_ordered, run_bars, bar_key,
}
use research_platform.Fills.Exit.{validity_end}
use research_platform.Fills.Invariant.Shape.{
  IsWellFormed, Safe, bind-Safe, query-Safe, query_eq-Safe,
}
use research_platform.Fills.Invariant.Exits.{exit_phase-Safe}
use research_platform.Fills.Invariant.Entries.{entry_phase-Safe, validity_end-Safe, open_cases}

mirror_state-IsWellFormed : (s : OrderState) → IsWellFormed s → IsWellFormed (mirror_state s)
unfolding mirror_state
mirror_state-IsWellFormed s h = ground arith

module _ (b : Bar) (ctx : OrderContext) (whole : b.ts % one_minute ≡ 0) where
  phase-Safe :
      (s : OrderState) (signal : SignalSpec)
      → IsWellFormed s
      → is_final s ≡ false
      → Safe IsWellFormed (phase s b signal ctx)
  unfolding phase
  phase-Safe s signal h live = elim (open_cases s live) [
    | inl (waiting, e) ↦
        rw e (entry_phase-Safe b signal ctx whole s (record { well_formed = h; waiting = waiting }))
    | inr (held, e) ↦
        rw e (exit_phase-Safe b ctx whole s signal false (record { well_formed = h; held = held }))
  ]

  close_validity-Safe :
      (s : OrderState) (es : List Event)
      → IsWellFormed s
      → is_final s ≡ false
      → Safe IsWellFormed (close_validity s es b ctx)
  unfolding close_validity
  close_validity-Safe s es h live =
      query-Safe IsWellFormed (last_expected_minute_before ctx.calendar ctx.valid_until_ts) _
        (last_expected_minute_before-SafeQuery ctx.calendar ctx.valid_until_ts)
        λ last. elim (Bool-cases (b.ts == last)) [
          | inr earlier ↦ rw earlier h
          | inl end ↦ rw end (
              bind-Safe IsWellFormed IsWellFormed (validity_end s (some b) ctx) _
                (validity_end-Safe s b ctx h live whole) (λ o wf. wf))
        ]

  after_phase-Safe :
      (o : OrderState) (es : List Event)
      → IsWellFormed o
      → Safe IsWellFormed (if is_final o then ok (o, es) else close_validity o es b ctx)
  after_phase-Safe o es h = elim (Bool-cases (is_final o)) [
    | inl final ↦ rw final h
    | inr live ↦ rw live (close_validity-Safe o es h live)
  ]

  process-Safe :
      (s : OrderState) (signal : SignalSpec)
      → IsWellFormed s
      → is_final s ≡ false
      → Safe IsWellFormed (process s b signal ctx)
  unfolding process
  process-Safe s signal h live =
      bind-Safe IsWellFormed IsWellFormed (phase s b signal ctx) _ (phase-Safe s signal h live)
        (λ o wf. after_phase-Safe (record o.0 { last_bar_ts = some b.ts }) o.1 (ground arith))

pub advance-Safe :
    (d : Direction) (s : OrderState) (b : Bar) (ctx : OrderContext)
    → b.ts % one_minute ≡ 0
    → IsWellFormed s
    → is_final s ≡ false
    → Safe IsWellFormed (advance d s b ctx)
unfolding advance mirror_state mirror_bar
advance-Safe long s b ctx w h live = process-Safe b ctx w s ctx.signal h live
advance-Safe short s b ctx w h live =
    bind-Safe IsWellFormed IsWellFormed
      (process (mirror_state s) (mirror_bar b) (mirror_signal ctx.signal) ctx) _
      (process-Safe (mirror_bar b) ctx w (mirror_state s) (mirror_signal ctx.signal)
        (mirror_state-IsWellFormed s h) live)
      (λ o wf. mirror_state-IsWellFormed o.0 wf)

-- From a well-formed state, `step` returns a well-formed state or raises `CalendarRangeError` or a
-- division error; no bar makes it raise another exception.
pub step-Safe :
    (s : OrderState) (b : Bar) (ctx : OrderContext)
    → IsWellFormed s
    → Safe IsWellFormed (step s b ctx)
unfolding step
step-Safe s b ctx h = elim (Bool-cases (ignores s b ctx)) [
  | inl ignored ↦ rw ignored h
  | inr live ↦ rw live (
      query_eq-Safe IsWellFormed (is_expected_minute ctx.calendar b.ts) _
        (is_expected_minute-SafeQuery ctx.calendar b.ts)
        λ expected e. elim (Bool-cases expected) [
          | inr off ↦ rw off h
          | inl on ↦ rw on (
              advance-Safe ctx.signal.direction s b ctx
                (is_expected_minute_whole ctx.calendar b.ts (rw on at e)) h
                (or-eq-false _ _ (or-eq-false _ _ live).0).0)
        ])
]

-- From a well-formed state, `run_bars` over bars in any order returns a well-formed state or raises
-- `CalendarRangeError` or a division error, and no other exception.
pub run_bars-Safe :
    (s : OrderState) (bars : List Bar) (ctx : OrderContext)
    → IsWellFormed s
    → Safe IsWellFormed (run_bars s bars ctx)
unfolding run_bars
run_bars-Safe s bars ctx h = run_ordered-Safe s (sort_by bar_key bars) h
  where
    run_ordered-Safe :
        (s : OrderState) (bars : List Bar)
        → IsWellFormed s
        → Safe IsWellFormed (run_ordered s bars ctx)
    run_ordered-Safe s [] h = h
    run_ordered-Safe s (b ∷ bs) h =
        bind-Safe IsWellFormed IsWellFormed (step s b ctx) _ (step-Safe s b ctx h) (λ o wf.
          bind-Safe IsWellFormed IsWellFormed (run_ordered o.0 bs ctx) _
            (run_ordered-Safe o.0 bs wf) (λ o' wf'. wf'))
