-- ===== src/Fills/Invariant/Moves.antt =====
-- The well-formedness through the moves of Fills/Moves.antt.
use research_platform.Prelude.{◌%◌, ◌≡◌, String, arith}
use research_platform.Decimal
use research_platform.Decimal.{Decimal}
use research_platform.Calendar.{one_minute}
use research_platform.Domain.Values.{Fields}
use research_platform.Domain.Signal.{Bar, SignalSpec}
use research_platform.Domain.Order.{OrderStatus, EventType, CloseReason, OrderContext, OrderState}
use research_platform.Fills.Moves.{invalidate, fill, close_order}
use research_platform.Fills.Invariant.Shape.{IsPresent, IsWellFormed, IsHeld, Safe}

pub invalidate-Safe :
    (s : OrderState) (b : Bar) (reason : String)
    → IsWellFormed s
    → b.ts % one_minute ≡ 0
    → Safe IsWellFormed (invalidate s b reason)
unfolding invalidate
invalidate-Safe s b reason h w = ground arith

pub fill-Safe :
    (s : OrderState) (b : Bar) (signal : SignalSpec) (ctx : OrderContext) (raw : Decimal)
    (rule : String)
    → IsWellFormed s
    → s.status ≡ OrderStatus.pending
    → b.ts % one_minute ≡ 0
    → Safe IsHeld (fill s b signal ctx raw rule)
unfolding fill Decimal.div
fill-Safe s b signal ctx raw rule h p w = ground arith

pub close_order-Safe :
    (s : OrderState) (b : Bar) (ctx : OrderContext) (type : EventType) (price : Decimal)
    (reason : CloseReason) (extra : Fields)
    → IsWellFormed s
    → IsPresent s.avg_entry
    → IsPresent s.opened_at
    → b.ts % one_minute ≡ 0
    → Safe IsWellFormed (close_order s b ctx type price reason extra)
unfolding close_order
close_order-Safe s b ctx type price reason extra h held opened w = ground arith
