-- ===== src/Fills/EventLog/Exits.antt =====
-- The events of the exit rules, against the change of the state.
use research_platform.Prelude.{
  ◌≡◌, Bool, true, false, Bool-cases, inl, inr, Option, none, some, String, List, [], ◌++◌, refl,
  arith, ◌||◌, ◌&&◌, not,
}
use research_platform.Result.{
  Result, ok, err, or_raise, type_error, ◌>>=◌, Ensures, bind-Ensures, Ensures-any,
}
use research_platform.Decimal
use research_platform.Decimal.{Decimal}
use research_platform.Domain.Values.{lookup}
use research_platform.Domain.Signal.{Bar, SignalSpec}
use research_platform.Domain.Order.{OrderState, OrderContext, Event, EventType, CloseReason}
use research_platform.Fills.Moves.{Outcome, invalidate, fill, close_order}
use research_platform.Fills.Exit.{
  stop_out, scale_out, second_target, first_target, take_targets, exit_phase, expire, time_exit,
  validity_end, with_extremes, effective_stop, final_flag, is_pending,
}
use research_platform.Fills.EventLog.View.{View, view, replay, replay-append}

-- Replayed from `v`, the events give the view of the state.
abbrev pub Logged : View → Outcome → Type 0
Logged v o = view o.0 ≡ replay v o.1

pub invalidate-Logged :
    (s : OrderState) (b : Bar) (reason : String) → Ensures (Logged (view s)) (invalidate s b reason)
unfolding invalidate
invalidate-Logged s b reason = ground arith

pub fill-Logged :
    (s : OrderState) (b : Bar) (signal : SignalSpec) (ctx : OrderContext) (raw : Decimal)
    (rule : String)
    → Ensures (Logged (view s)) (fill s b signal ctx raw rule)
unfolding fill Decimal.div lookup
fill-Logged s b signal ctx raw rule = ground arith

stop_out-Logged :
    (s : OrderState) (b : Bar) (ctx : OrderContext) (level : Decimal)
    → Ensures (Logged (view s)) (stop_out s b ctx level)
unfolding stop_out close_order lookup
stop_out-Logged s b ctx level = ground arith

time_exit-Logged :
    (s : OrderState) (b : Option Bar) (ctx : OrderContext)
    → Ensures (Logged (view s)) (time_exit s b ctx)
unfolding time_exit close_order lookup
time_exit-Logged s none ctx = tt
time_exit-Logged s (some b) ctx = ground arith

expire-Logged : (s : OrderState) (ctx : OrderContext) → Ensures (Logged (view s)) (expire s ctx)
unfolding expire
expire-Logged s ctx = ground arith

scale_out-Logged :
    (s : OrderState) (b : Bar) (signal : SignalSpec) (ctx : OrderContext)
    → Ensures (Logged (view s)) (scale_out s b signal ctx)
unfolding scale_out lookup
scale_out-Logged s b signal ctx = ground arith

-- What is logged on top of what was logged before.
pub append-Logged :
    (v : View) (s : OrderState) (es : List Event) (m : Result Outcome)
    → view s ≡ replay v es
    → Ensures (Logged (view s)) m
    → Ensures (Logged v) (m >>= λ o. ok (o.0, es ++ o.1))
append-Logged v s es (ok o) h k = rw (replay-append, ← h) k
append-Logged v s es (err _) h k = tt

target2_close-Logged :
    (s : OrderState) (b : Bar) (ctx : OrderContext) (price : Decimal)
    → Ensures
        (Logged (view s))
        (close_order s b ctx EventType.target2_hit price CloseReason.target_final final_flag)
unfolding close_order lookup
target2_close-Logged s b ctx price = ground arith

target1_close-Logged :
    (s : OrderState) (b : Bar) (ctx : OrderContext) (price : Decimal)
    → Ensures
        (Logged (view s))
        (close_order s b ctx EventType.target1_hit price CloseReason.target_final final_flag)
unfolding close_order lookup
target1_close-Logged s b ctx price = ground arith

second_target-Logged :
    (v : View) (s : OrderState) (es : List Event) (b : Bar) (ctx : OrderContext)
    (target : Option Decimal)
    → view s ≡ replay v es
    → Ensures (Logged v) (second_target s es b ctx target)
unfolding second_target
second_target-Logged v s es b ctx none h = h
second_target-Logged v s es b ctx (some t2) h =
    elim (Bool-cases (s.t1_done && Decimal.le t2 b.high)) [
      | inr below ↦ rw below h
      | inl reached ↦ rw reached (append-Logged v s es _ h (target2_close-Logged s b ctx t2))
    ]

first_target-Logged :
    (s : OrderState) (b : Bar) (signal : SignalSpec) (ctx : OrderContext) (target : Option Decimal)
    → Ensures (Logged (view s)) (first_target s b signal ctx target)
unfolding first_target
first_target-Logged s b signal ctx none = target1_close-Logged s b ctx signal.target1
first_target-Logged s b signal ctx (some t2) =
    bind-Ensures (Logged (view s)) (Logged (view s)) (scale_out s b signal ctx) _
      (scale_out-Logged s b signal ctx)
      (λ o h. second_target-Logged (view s) o.0 o.1 b ctx (some t2) h)

take_targets-Logged :
    (s : OrderState) (b : Bar) (signal : SignalSpec) (ctx : OrderContext)
    → Ensures (Logged (view s)) (take_targets s b signal ctx)
unfolding take_targets
take_targets-Logged s b signal ctx =
    elim (Bool-cases (not s.t1_done && Decimal.le signal.target1 b.high)) [
      | inr below ↦ rw below (second_target-Logged (view s) s [] b ctx signal.target2 refl)
      | inl reached ↦ rw reached (first_target-Logged s b signal ctx signal.target2)
    ]

pub exit_phase-Logged :
    (s : OrderState) (b : Bar) (signal : SignalSpec) (ctx : OrderContext) (entry_bar : Bool)
    → Ensures (Logged (view s)) (exit_phase s b signal ctx entry_bar)
unfolding exit_phase
exit_phase-Logged s b signal ctx entry_bar =
    bind-Ensures (λ _. Unit) (Logged (view s)) (or_raise (effective_stop s b) type_error) _
      (Ensures-any _)
      λ level _. elim (Bool-cases (Decimal.le b.low level)) [
        | inl hit ↦ rw hit (stop_out-Logged (with_extremes s b (entry_bar || true)) b ctx level)
        | inr clear ↦ rw clear (elim (Bool-cases entry_bar) [
          | inl entry ↦ rw entry refl
          | inr later ↦ rw later (take_targets-Logged (with_extremes s b false) b signal ctx)
        ])
      ]

pub validity_end-Logged :
    (s : OrderState) (b : Option Bar) (ctx : OrderContext)
    → Ensures (Logged (view s)) (validity_end s b ctx)
unfolding validity_end
validity_end-Logged s b ctx = elim (Bool-cases (is_pending s.status)) [
  | inl waiting ↦ rw waiting (expire-Logged s ctx)
  | inr held ↦ rw held (time_exit-Logged s b ctx)
]
