-- ===== src/Fills/Invariant/Creation.antt =====
-- The well-formedness of the state of a new order.
use research_platform.Prelude.{◌≡◌, Option, none, some, String, List, arith}
use research_platform.Result.{ok, Ensures, Ensures-eq_ok}
use research_platform.Domain.Values.{Value, Fields}
use research_platform.Domain.Signal.{Bar}
use research_platform.Domain.Order.{GatingState, OrderContext, OrderState, Event}
use research_platform.Fills.Creation.{new_order_state, inherit}
use research_platform.Fills.Engine.{run_bars}
use research_platform.Fills.Invariant.Shape.{IsWellFormed, Safe}
use research_platform.Fills.Invariant.Steps.{run_bars-Safe}

new_order_state-IsWellFormed :
    (digest : Value → String) (ctx : OrderContext) (inherited : Option GatingState) (extra : Fields)
    → Ensures (λ o. IsWellFormed o.0) (new_order_state digest ctx inherited extra)
unfolding new_order_state inherit
new_order_state-IsWellFormed digest ctx none extra = ground arith
new_order_state-IsWellFormed digest ctx (some g) extra = ground arith

-- From the state that `new_order_state` returns, with or without inherited gating, a run over any
-- bars returns a well-formed state or raises `CalendarRangeError` or a division error, and no other
-- exception.
pub new_order_state-run_bars :
    (digest : Value → String) (ctx : OrderContext) (inherited : Option GatingState) (extra : Fields)
    (s : OrderState) (es : List Event) (bars : List Bar)
    → new_order_state digest ctx inherited extra ≡ ok (s, es)
    → Safe IsWellFormed (run_bars s bars ctx)
new_order_state-run_bars digest ctx inherited extra s es bars h = run_bars-Safe s bars ctx (
    Ensures-eq_ok (λ o. IsWellFormed o.0) _
      (new_order_state-IsWellFormed digest ctx inherited extra) h)
