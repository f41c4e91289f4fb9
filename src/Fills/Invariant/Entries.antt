-- ===== src/Fills/Invariant/Entries.antt =====
-- The well-formedness through the entry rules and the end of the validity.
use research_platform.Prelude.{
  ℕ, ◌%◌, ◌≡◌, true, false, Bool-cases, inl, inr, Option, none, some, List, [], ◌∷◌, arith, String,
  ◌==◌, ◌⊎◌, not, ◌&&◌, ◌||◌,
}
use research_platform.Result.{ok, ◌>>=◌}
use research_platform.Decimal
use research_platform.Decimal.{Decimal}
use research_platform.Calendar.{one_minute, next_expected_minute}
use research_platform.Calendar.Errors.{SafeQuery, next_expected_minute-SafeQuery}
use research_platform.Domain.Signal.{Bar, SignalSpec, ZoneLostPolicy}
use research_platform.Domain.Order.{OrderStatus, OrderContext, OrderState, Event, is_final}
use research_platform.Fills.Moves.{eligible, trigger_effective, fill, invalidate}
use research_platform.Fills.Exit.{expire, time_exit, validity_end, is_pending}
use research_platform.Fills.Entry.{
  hit_trigger, reclaim_zone, lose_zone, wait_for_entry, enter, entry_phase, enter_or_wait,
  by_policy,
}
use research_platform.Fills.Invariant.Shape.{
  IsWellFormed, Held, IsHeld, Safe, bind-Safe, query-Safe,
}
use research_platform.Fills.Invariant.Moves.{invalidate-Safe, fill-Safe, close_order-Safe}
use research_platform.Fills.Invariant.Exits.{IsHeld-avg_entry, exit_phase-Safe}

-- An order that waits for its entry.
pub record IsWaiting (s : OrderState) : Type 0 where
  pub well_formed : IsWellFormed s
  pub waiting : s.status ≡ OrderStatus.pending

whole_test : (t : ℕ) → t % one_minute ≡ 0 → (t % one_minute == 0) ≡ true
whole_test t h = ground arith

trigger-SafeQuery :
    (b : Bar) (ctx : OrderContext) (trigger : Option Decimal) (hit : Option ℕ)
    → SafeQuery (trigger_effective trigger hit b ctx)
trigger-SafeQuery b ctx none hit = tt
trigger-SafeQuery b ctx (some p) none = tt
trigger-SafeQuery b ctx (some p) (some t) =
    ground (arith, next_expected_minute-SafeQuery ctx.calendar t)

eligible-SafeQuery :
    (s : OrderState) (b : Bar) (signal : SignalSpec) (ctx : OrderContext)
    → SafeQuery (eligible s b signal ctx)
unfolding eligible
eligible-SafeQuery s b signal ctx =
    ground (arith, trigger-SafeQuery b ctx signal.trigger_price s.trigger_hit_at)

abbrev lost_zone : OrderState → OrderState
lost_zone s = record s { zone_lost = true; zone_ever_lost = true }

lost_zone-IsWellFormed : (s : OrderState) → IsWellFormed s → IsWellFormed (lost_zone s)
lost_zone-IsWellFormed s h = ground arith

module _ (b : Bar) (signal : SignalSpec) (ctx : OrderContext) (whole : b.ts % one_minute ≡ 0) where
  hit_trigger-Safe :
      (s : OrderState) (es : List Event)
      → IsWellFormed s
      → Safe IsWellFormed (hit_trigger s es b signal)
  unfolding hit_trigger
  hit_trigger-Safe s es h = ground arith

  reclaim_zone-Safe :
      (s : OrderState) (es : List Event)
      → IsWellFormed s
      → Safe IsWellFormed (reclaim_zone s es b signal ctx)
  unfolding reclaim_zone
  reclaim_zone-Safe s es h =
      elim (Bool-cases (s.zone_lost && Decimal.le signal.entry_zone_low b.close)) [
        | inr same ↦ rw same (hit_trigger-Safe s es h)
        | inl back ↦ rw back (
            query-Safe IsWellFormed (next_expected_minute ctx.calendar b.ts) _
              (next_expected_minute-SafeQuery ctx.calendar b.ts)
              (λ from. rw (whole_test b.ts whole) (hit_trigger-Safe _ _ (ground arith))))
      ]

  policy-Safe :
      (p : ZoneLostPolicy) (s : OrderState) (e : Event)
      → IsWellFormed s
      → Safe IsWellFormed (
          by_policy p
            (invalidate (lost_zone s) b "ZONE_LOST_CANCEL" >>= λ o. ok (o.0, e ∷ o.1))
            (reclaim_zone (lost_zone s) (e ∷ []) b signal ctx))
  policy-Safe ZoneLostPolicy.reclaim s e h =
      reclaim_zone-Safe (lost_zone s) (e ∷ []) (lost_zone-IsWellFormed s h)
  policy-Safe ZoneLostPolicy.cancel s e h =
      bind-Safe IsWellFormed IsWellFormed (invalidate (lost_zone s) b "ZONE_LOST_CANCEL") _
        (invalidate-Safe (lost_zone s) b _ (lost_zone-IsWellFormed s h) whole) (λ o wf. wf)

  lose_zone-Safe : (s : OrderState) → IsWellFormed s → Safe IsWellFormed (lose_zone s b signal ctx)
  unfolding lose_zone
  lose_zone-Safe s h =
      elim (Bool-cases (
        not s.zone_lost
        && (Decimal.lt b.open_price signal.entry_zone_low
            || Decimal.lt b.close signal.entry_zone_low))) [
              | inr same ↦ rw same (reclaim_zone-Safe s [] h)
              | inl lost ↦
                  rw (lost, whole_test b.ts whole) (policy-Safe ctx.config.zone_lost_policy s _ h)
            ]

  wait_for_entry-Safe :
      (s : OrderState) → IsWaiting s → Safe IsWellFormed (wait_for_entry s b signal ctx)
  unfolding wait_for_entry
  wait_for_entry-Safe s h = elim (Bool-cases (Decimal.le b.low signal.stop)) [
    | inl hit ↦ rw hit (invalidate-Safe s b _ h.well_formed whole)
    | inr clear ↦ rw clear (lose_zone-Safe s h.well_formed)
  ]

  enter-Safe :
      (s : OrderState) (priced : Decimal × String)
      → IsWaiting s
      → Safe IsWellFormed (enter s b signal ctx priced)
  unfolding enter
  enter-Safe s (raw, rule) h =
      bind-Safe IsHeld IsWellFormed (fill s b signal ctx raw rule) _
        (fill-Safe s b signal ctx raw rule h.well_formed h.waiting whole)
        (λ o held.
          bind-Safe IsWellFormed IsWellFormed _ _ (exit_phase-Safe b ctx whole o.0 signal true held)
            (λ o' wf. wf))

  enter_or_wait-Safe :
      (s : OrderState) (priced : Option (Decimal × String))
      → IsWaiting s
      → Safe IsWellFormed (enter_or_wait s b signal ctx priced)
  enter_or_wait-Safe s none h = wait_for_entry-Safe s h
  enter_or_wait-Safe s (some priced) h = enter-Safe s priced h

  -- The entry rules on a waiting order raise nothing but what the calendar or a division raises,
  -- and leave a well-formed state.
  pub entry_phase-Safe :
      (s : OrderState) → IsWaiting s → Safe IsWellFormed (entry_phase s b signal ctx)
  unfolding entry_phase
  entry_phase-Safe s h = elim (Bool-cases (Decimal.le b.open_price signal.stop)) [
    | inl through ↦ rw through (invalidate-Safe s b _ h.well_formed whole)
    | inr above ↦ rw above (
        query-Safe IsWellFormed _ _ (eligible-SafeQuery s b signal ctx)
          (λ allowed. enter_or_wait-Safe s _ h))
  ]

expire-Safe :
    (s : OrderState) (ctx : OrderContext) → IsWellFormed s → Safe IsWellFormed (expire s ctx)
unfolding expire
expire-Safe s ctx h = ground arith

time_exit-Safe :
    (s : OrderState) (b : Bar) (ctx : OrderContext)
    → IsHeld s
    → b.ts % one_minute ≡ 0
    → Safe IsWellFormed (time_exit s (some b) ctx)
unfolding time_exit
time_exit-Safe s b ctx h w =
    let (held, opened) = IsHeld-avg_entry s h in
    close_order-Safe s b ctx _ _ _ _ h.well_formed held opened w

-- An order that is not final waits or has a position.
pub open_cases :
    (s : OrderState)
    → is_final s ≡ false
    → ((s.status ≡ OrderStatus.pending) × (is_pending s.status ≡ true))
      ⊎ (Held s.status × (is_pending s.status ≡ false))
open_cases s h = ground arith

-- The end of the validity, of an order that is not final.
pub validity_end-Safe :
    (s : OrderState) (b : Bar) (ctx : OrderContext)
    → IsWellFormed s
    → is_final s ≡ false
    → b.ts % one_minute ≡ 0
    → Safe IsWellFormed (validity_end s (some b) ctx)
unfolding validity_end
validity_end-Safe s b ctx h live w = elim (open_cases s live) [
  | inl (_, e) ↦ rw e (expire-Safe s ctx h)
  | inr (held, e) ↦ rw e (time_exit-Safe s b ctx (record { well_formed = h; held = held }) w)
]
