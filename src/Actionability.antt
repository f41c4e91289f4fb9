-- ===== src/Actionability.antt =====
-- src/core/actionability.py: may a user still open an order on a signal? The decision replays the
-- complete bars over a hypothetical order; the fill model is a parameter, as in the code.
pub mod Bars
pub mod Orders
use research_platform.Prelude.{
  ℕ, ◌+◌, ◌%◌, Bool, true, false, not, ◌||◌, Option, none, some, String, List, [], ◌∷◌, ltb, leb,
  if◌then◌else◌,
}
use research_platform.Prelude.Sort.{sort_by}
use research_platform.Result.{
  Result, ok, err, value_error, assertion_error, ◌>>=◌, ◌>>◌, raise_if, guard,
}
use research_platform.Calendar.{
  Datetime, one_minute, floor_minute, SessionCalendar, is_whole_minute, is_expected_minute,
  evaluation_start_ts, require_utc,
}
use research_platform.Domain.Values.{Value, Fields, field, end, optional}
use research_platform.Domain.Signal.{Bar}
use research_platform.Domain.Order.{
  OrderStatus, CloseReason, GatingState, OrderContext, OrderState, gating_state, make_context,
}
use research_platform.Fills.Moves.{Outcome}
use research_platform.Fills.Engine.{bar_key}
use research_platform.Fills.Engine
use research_platform.Fills.Creation
use research_platform.Fills.Creation.{has_key, extend}

-- The module `fill_model`: the two operations that this code calls.
pub record FillModel : Type 0 where
  pub create : OrderContext → Option GatingState → (extra : Fields) → Result Outcome
  pub advance : OrderState → Bar → OrderContext → Result Outcome

-- src/core/fills/v1; `digest` is `sha256_hex`.
abbrev pub fill_v1 : (Value → String) → FillModel
fill_v1 digest = record { create = Creation.new_order_state digest; advance = Engine.step }

pub data ActionabilityReason : Type 0 where
  is_actionable signal_expired invalidated already_occurred stopped target_reached :
      ActionabilityReason

pub record Actionability : Type 0 where
  pub reason : ActionabilityReason
  pub hypothetical_status : OrderStatus
  pub gating : Option GatingState

-- The property `actionable`.
abbrev pub actionable : Actionability → Bool
actionable a = elim a.reason [ ActionabilityReason.is_actionable ↦ true | _ ↦ false ]

-- The property `error_code`.
unfoldable pub error_code : Actionability → Option String
error_code a = elim a.reason [
  | ActionabilityReason.is_actionable ↦ none
  | ActionabilityReason.signal_expired ↦ some "SIGNAL_EXPIRED"
  | _ ↦ some "SIGNAL_NO_LONGER_ACTIONABLE"
]

-- `_EXPIRED`
abbrev pub expired_decision : Actionability
expired_decision = record {
  reason = ActionabilityReason.signal_expired;
  hypothetical_status = OrderStatus.expired;
  gating = none;
}

-- `_CLOSE_REASONS`
abbrev pub closed_as : CloseReason → ActionabilityReason
closed_as CloseReason.stopped = ActionabilityReason.stopped
closed_as CloseReason.target_final = ActionabilityReason.target_reached
closed_as CloseReason.time_exit = ActionabilityReason.signal_expired

abbrev refused : ActionabilityReason → OrderStatus → Actionability
refused reason status = record { reason = reason; hypothetical_status = status; gating = none }

abbrev decide_closed : Option CloseReason → Result Actionability
decide_closed none = err assertion_error
decide_closed (some reason) = ok (refused (closed_as reason) OrderStatus.closed)

-- The decision on the status that the hypothetical order reaches.
abbrev pub decide_status : OrderStatus → OrderState → Result Actionability
decide_status OrderStatus.pending s = ok (record {
  reason = ActionabilityReason.is_actionable;
  hypothetical_status = OrderStatus.pending;
  gating = some (gating_state s);
})
decide_status OrderStatus.expired s = ok expired_decision
decide_status OrderStatus.invalidated s =
    ok (refused ActionabilityReason.invalidated OrderStatus.invalidated)
decide_status OrderStatus.opened s =
    ok (refused ActionabilityReason.already_occurred OrderStatus.opened)
decide_status OrderStatus.partial s =
    ok (refused ActionabilityReason.already_occurred OrderStatus.partial)
decide_status OrderStatus.closed s = decide_closed s.close_reason
decide_status OrderStatus.canceled s = err assertion_error

-- The loop: up to the first bar that is not complete at `moment`.
unfoldable pub run_complete :
    FillModel → OrderContext → (moment : ℕ) → OrderState → List Bar → Result OrderState
run_complete model ctx moment state [] = ok state
run_complete model ctx moment state (bar ∷ bars) =
    let onward = model.advance state bar ctx >>= λ o. run_complete model ctx moment o.0 bars in
    if ltb moment (bar.ts + one_minute) then ok state else onward

-- Before the end of the validity.
unfoldable pub replay_signal :
    FillModel → OrderContext → List Bar → (moment : ℕ) → Result Actionability
unfolding run_complete
replay_signal model ctx bars moment = do
  created ← model.create ctx none end
  state ← run_complete model ctx moment created.0 (sort_by bar_key bars)
  decide_status state.status state

unfoldable pub signal_actionability :
    FillModel → OrderContext → List Bar → Datetime → Result Actionability
unfolding replay_signal require_utc
signal_actionability model ctx bars as_of = do
  moment ← require_utc as_of
  if leb ctx.valid_until_ts moment then ok expired_decision else replay_signal model ctx bars moment

-- `_partial_bar_audit`
unfoldable pub partial_bar_audit : SessionCalendar → ℕ → Result (Bool × Option ℕ)
partial_bar_audit cal created =
    if is_whole_minute created
    then ok (false, none)
    else is_expected_minute cal (floor_minute created) >>= λ expected.
        ok (expected, if expected then some (floor_minute created) else none)

pub record ManualOrder : Type 0 where
  pub context : OrderContext
  pub created : Outcome
  pub decision : Actionability

-- An order, or the exception `ManualOrderRejected` with its decision.
pub data Manual : Type 0 where
  accepted : ManualOrder → Manual
  rejected : Actionability → Manual

-- `_AUDIT_KEYS & extra_payload.keys()` is not empty.
abbrev audit_clash : Fields → Bool
audit_clash extra = has_key "partial_bar_skipped" extra || has_key "skipped_bar_ts" extra

-- The order on a signal that is actionable, from `start` on.
unfoldable pub open_manual :
    FillModel
    → OrderContext
    → (created_at start : ℕ) → (extra : Fields) → Actionability
    → Result Manual
unfolding partial_bar_audit
open_manual model ctx created_at start extra decision = do
  context ← make_context ctx.signal ctx.config ctx.calendar start ctx.valid_until_ts
  raise_if (audit_clash extra) value_error
  audit ← partial_bar_audit ctx.calendar created_at
  created ← model.create context decision.gating (
      extend
        (field "partial_bar_skipped" (Value.flag audit.0)
          (field "skipped_bar_ts" (optional Value.instant audit.1) end))
        extra)
  ok (Manual.accepted (record { context = context; created = created; decision = decision }))

-- `extra` is `end` for `None`.
unfoldable pub build_manual_order :
    FillModel → OrderContext → List Bar → Datetime → (extra : Fields) → Result Manual
unfolding require_utc
build_manual_order model ctx bars at extra = do
  decision ← signal_actionability model ctx bars at
  if not (actionable decision) then ok (Manual.rejected decision) else (do
    created_at ← require_utc at
    start ← evaluation_start_ts ctx.calendar created_at
    if leb ctx.valid_until_ts start
        then ok (Manual.rejected expired_decision)
        else open_manual model ctx created_at start extra decision)
