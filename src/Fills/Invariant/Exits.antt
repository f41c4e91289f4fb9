-- ===== src/Fills/Invariant/Exits.antt =====
-- The well-formedness through the exit rules.
use research_platform.Prelude.{
  ℕ, ◌%◌, ◌≡◌, Bool, true, false, Bool-cases, inl, inr, Option, none, some, List, [], arith, refl,
  ltb, if◌then◌else◌, not, ◌&&◌, ◌||◌,
}
use research_platform.Decimal
use research_platform.Decimal.{Decimal}
use research_platform.Calendar.{one_minute}
use research_platform.Calendar.Errors.{next_expected_minute-SafeQuery}
use research_platform.Domain.Signal.{Bar, SignalSpec}
use research_platform.Domain.Order.{OrderContext, OrderState, Event}
use research_platform.Fills.Moves.{before_opt}
use research_platform.Fills.Exit.{
  stop_out, scale_out, second_target, first_target, take_targets, exit_phase, effective_stop,
  with_extremes,
}
use research_platform.Fills.Invariant.Shape.{
  IsPresent, StopPair, IsWellFormed, IsHeld, Safe, bind-Safe,
}
use research_platform.Fills.Invariant.Moves.{close_order-Safe}

pub IsHeld-avg_entry : (s : OrderState) → IsHeld s → IsPresent s.avg_entry × IsPresent s.opened_at
IsHeld-avg_entry s h = ground arith

with_extremes-IsHeld :
    (s : OrderState) (b : Bar) (keep : Bool) → IsHeld s → IsHeld (with_extremes s b keep)
with_extremes-IsHeld s b keep h = record {
  well_formed = record {
    shape = ground arith;
    has_stop = h.well_formed.has_stop;
    stop_pair = h.well_formed.stop_pair;
  };
  held = h.held;
}

pick_stop :
    (from : Option ℕ) (current previous : Option Decimal) (t : ℕ)
    → IsPresent current
    → StopPair from previous
    → (level : Decimal) × ((if before_opt t from then previous else current) ≡ some level)
pick_stop none (some c) previous t h k = (c, refl)
pick_stop none none previous t h k = elim h [ ]
pick_stop (some f) none previous t h k = elim h [ ]
pick_stop (some f) (some c) none t h k = elim k [ ]
pick_stop (some f) (some c) (some p) t h k = (if ltb t f then p else c, ground arith)

effective_stop_present :
    (s : OrderState) (b : Bar)
    → IsWellFormed s
    → (level : Decimal) × (effective_stop s b ≡ some level)
effective_stop_present s b h =
    pick_stop s.stop_active_from s.stop_current s.stop_previous b.ts h.has_stop h.stop_pair

module _ (b : Bar) (ctx : OrderContext) (whole : b.ts % one_minute ≡ 0) where
  stop_out-Safe :
      (s : OrderState) (level : Decimal) → IsHeld s → Safe IsWellFormed (stop_out s b ctx level)
  unfolding stop_out
  stop_out-Safe s level h =
      let (held, opened) = IsHeld-avg_entry s h in
      close_order-Safe s b ctx _ _ _ _ h.well_formed held opened whole

  scale_out-Safe :
      (s : OrderState) (signal : SignalSpec) → IsHeld s → Safe IsHeld (scale_out s b signal ctx)
  unfolding scale_out
  scale_out-Safe s signal h = ground (arith, next_expected_minute-SafeQuery ctx.calendar b.ts)

  second_target-Safe :
      (s : OrderState) (es : List Event) (target : Option Decimal)
      → IsHeld s
      → Safe IsWellFormed (second_target s es b ctx target)
  unfolding second_target
  second_target-Safe s es none h = h.well_formed
  second_target-Safe s es (some t2) h = elim (Bool-cases (s.t1_done && Decimal.le t2 b.high)) [
    | inr below ↦ rw below h.well_formed
    | inl reached ↦
        let (held, opened) = IsHeld-avg_entry s h in
        rw reached (
          bind-Safe IsWellFormed IsWellFormed _ _
            (close_order-Safe s b ctx _ t2 _ _ h.well_formed held opened whole) (λ o wf. wf))
  ]

  first_target-Safe :
      (s : OrderState) (signal : SignalSpec) (target : Option Decimal)
      → IsHeld s
      → Safe IsWellFormed (first_target s b signal ctx target)
  unfolding first_target
  first_target-Safe s signal none h =
      let (held, opened) = IsHeld-avg_entry s h in
      close_order-Safe s b ctx _ _ _ _ h.well_formed held opened whole
  first_target-Safe s signal (some t2) h =
      bind-Safe IsHeld IsWellFormed _ _ (scale_out-Safe s signal h)
        (λ o held. second_target-Safe o.0 o.1 (some t2) held)

  take_targets-Safe :
      (s : OrderState) (signal : SignalSpec)
      → IsHeld s
      → Safe IsWellFormed (take_targets s b signal ctx)
  unfolding take_targets
  take_targets-Safe s signal h =
      elim (Bool-cases (not s.t1_done && Decimal.le signal.target1 b.high)) [
        | inr below ↦ rw below (second_target-Safe s [] signal.target2 h)
        | inl reached ↦ rw reached (first_target-Safe s signal signal.target2 h)
      ]

  -- The exit rules on an order with a position raise nothing but what the calendar or a division
  -- raises, and leave a well-formed state.
  pub exit_phase-Safe :
      (s : OrderState) (signal : SignalSpec) (entry_bar : Bool)
      → IsHeld s
      → Safe IsWellFormed (exit_phase s b signal ctx entry_bar)
  unfolding exit_phase
  exit_phase-Safe s signal entry_bar h =
      let (level, e) = effective_stop_present s b h.well_formed in
      elim (Bool-cases (Decimal.le b.low level)) [
        | inl hit ↦
            rw (e, hit) (stop_out-Safe _ level (with_extremes-IsHeld s b (entry_bar || true) h))
        | inr clear ↦
            rw (e, clear)
              (elim (Bool-cases entry_bar) [
                | inl entry ↦ rw entry (with_extremes-IsHeld s b true h).well_formed
                | inr later ↦
                    rw later (take_targets-Safe _ signal (with_extremes-IsHeld s b false h))
              ])
      ]
