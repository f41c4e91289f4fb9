-- ===== src/Actionability/Orders.antt =====
-- When a manual order starts and ends, and the decision it stands on.
use research_platform.Prelude.{
  ℕ, ◌<◌, ◌≡◌, true, List, arith, Bool-cases, inl, inr, leb, leb→gt, sym,
}
use mathlib.Core.Path.{subst}
use research_platform.Result.{
  ok, Ensures, bind-Ensures, Ensures-any, Ensures-eq_ok, Ensures-map, bind_ok-Ensures,
}
use research_platform.Calendar.{Datetime, SessionCalendar, evaluation_start_ts}
use research_platform.Calendar.Lookup.{IsValid}
use research_platform.Calendar.Next.{IsFirstFrom, first_expected_minute_at_or_after-IsFirstFrom}
use research_platform.Domain.Values.{Fields}
use research_platform.Domain.Signal.{Bar, SignalSpec, FillConfig}
use research_platform.Domain.Order.{OrderContext, make_context}
use research_platform.Actionability.{
  FillModel, Actionability, actionable, ManualOrder, Manual, signal_actionability, open_manual,
  build_manual_order,
}

-- The order starts at `start`, ends with the signal and stands on the decision.
abbrev Opens : OrderContext → ℕ → Actionability → Manual → Type 0
Opens ctx start decision (Manual.rejected _) = Unit
Opens ctx start decision (Manual.accepted m) =
    (m.context.evaluation_start_ts ≡ start)
    × (m.context.valid_until_ts ≡ ctx.valid_until_ts)
    × (m.decision ≡ decision)

make_context_fields :
    (signal : SignalSpec) (config : FillConfig) (cal : SessionCalendar) (start until : ℕ)
    → Ensures
        (λ c. (c.evaluation_start_ts ≡ start) × (c.valid_until_ts ≡ until))
        (make_context signal config cal start until)
unfolding make_context
make_context_fields signal config cal start until = ground arith

open_manual-Opens :
    (model : FillModel) (ctx : OrderContext) (created_at start : ℕ) (extra : Fields)
    (decision : Actionability)
    → Ensures (Opens ctx start decision) (open_manual model ctx created_at start extra decision)
unfolding open_manual
open_manual-Opens model ctx created_at start extra decision =
    bind-Ensures (λ c. (c.evaluation_start_ts ≡ start) × (c.valid_until_ts ≡ ctx.valid_until_ts))
      (Opens ctx start decision)
      (make_context ctx.signal ctx.config ctx.calendar start ctx.valid_until_ts) _
      (make_context_fields ctx.signal ctx.config ctx.calendar start ctx.valid_until_ts)
      (λ c h. ground arith)

-- The order starts with the first expected minute from its creation on, before the signal ends,
-- and stands on a decision that allows it.
pub record IsTimely (ctx : OrderContext) (created_at : ℕ) (m : ManualOrder) : Type 0 where
  pub starts : IsFirstFrom ctx.calendar created_at m.context.evaluation_start_ts
  pub ends : m.context.evaluation_start_ts < m.context.valid_until_ts
  pub same_end : m.context.valid_until_ts ≡ ctx.valid_until_ts
  pub allowed : actionable m.decision ≡ true

abbrev Timely : OrderContext → ℕ → Manual → Type 0
Timely ctx created_at (Manual.rejected _) = Unit
Timely ctx created_at (Manual.accepted m) = IsTimely ctx created_at m

Opens-Timely :
    (ctx : OrderContext) (created_at start : ℕ) (d : Actionability) (r : Manual)
    → IsFirstFrom ctx.calendar created_at start
    → start < ctx.valid_until_ts
    → actionable d ≡ true
    → Opens ctx start d r
    → Timely ctx created_at r
Opens-Timely ctx created_at start d (Manual.rejected _) first before allowed h = tt
Opens-Timely ctx created_at start d (Manual.accepted m) first before allowed h = record {
  starts = subst (λ x. IsFirstFrom ctx.calendar created_at x) (sym h.0) first;
  ends =
      subst (λ x. x < m.context.valid_until_ts) (sym h.0) (subst (λ x. start < x) (sym h.1) before);
  same_end = h.1;
  allowed = subst (λ x. actionable x ≡ true) (sym h.2) allowed;
}

evaluation_start_ts-IsFirstFrom :
    (cal : SessionCalendar) (created_at start : ℕ)
    → IsValid cal
    → evaluation_start_ts cal created_at ≡ ok start
    → IsFirstFrom cal created_at start
unfolding evaluation_start_ts
evaluation_start_ts-IsFirstFrom cal created_at start v e =
    first_expected_minute_at_or_after-IsFirstFrom cal created_at start v e

build_manual_order-Timely :
    (model : FillModel) (ctx : OrderContext) (bars : List Bar) (created_at : ℕ) (extra : Fields)
    → IsValid ctx.calendar
    → Ensures
        (Timely ctx created_at)
        (build_manual_order model ctx bars (Datetime.aware created_at) extra)
unfolding build_manual_order
build_manual_order-Timely model ctx bars created_at extra v =
    bind-Ensures (λ _. Unit) (Timely ctx created_at)
      (signal_actionability model ctx bars (Datetime.aware created_at)) _ (Ensures-any _)
      λ d _. elim (Bool-cases (actionable d)) [
        | inr refused ↦ rw refused tt
        | inl allowed ↦ rw allowed (
            bind_ok-Ensures (Timely ctx created_at) (evaluation_start_ts ctx.calendar created_at) _
              λ start e. elim (Bool-cases (leb ctx.valid_until_ts start)) [
                | inl over ↦ rw over tt
                | inr open_still ↦ rw open_still (
                    Ensures-map (Opens ctx start d) (Timely ctx created_at) _
                      (open_manual-Opens model ctx created_at start extra d)
                      (λ r opens.
                        Opens-Timely ctx created_at start d r
                          (evaluation_start_ts-IsFirstFrom ctx.calendar created_at start v e)
                          (leb→gt _ _ open_still) allowed opens))
              ])
      ]

-- On a valid calendar, a manual order that `build_manual_order` accepts starts with the first
-- expected minute from its creation on, before the end of the signal's validity, which it keeps,
-- and its decision is actionable.
pub build_manual_order-IsTimely :
    (model : FillModel) (ctx : OrderContext) (bars : List Bar) (created_at : ℕ) (extra : Fields)
    (m : ManualOrder)
    → IsValid ctx.calendar
    → build_manual_order model ctx bars (Datetime.aware created_at) extra ≡ ok (Manual.accepted m)
    → IsTimely ctx created_at m
build_manual_order-IsTimely model ctx bars created_at extra m v e =
    Ensures-eq_ok (Timely ctx created_at) _
      (build_manual_order-Timely model ctx bars created_at extra v) e
