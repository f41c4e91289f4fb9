-- ===== src/Fills/Commands/Endings.antt =====
-- How an order ends at the end of its validity.
use research_platform.Prelude.{
  ℕ, ◌≡◌, ◌⊎◌, ◌≤◌, true, false, Bool-cases, inl, inr, Option, none, some, String, List, [], ◌∷◌,
  ◌++◌, refl, arith, if◌then◌else◌, ◌||◌, ltb, ◌==◌,
}
use research_platform.Result.{guard, value_error, Ensures, bind-Ensures, Ensures-any, Ensures-map}
use research_platform.Calendar.{Datetime, last_expected_minute_before}
use research_platform.Domain.Signal.{Bar, Direction, long, short}
use research_platform.Domain.Order.{
  OrderState, OrderContext, is_final, order_needs_review, is_nonempty,
}
use research_platform.Fills.Mirror.{mirror_state, mirror_bar}
use research_platform.Fills.Moves.{Outcome, close_order}
use research_platform.Fills.Exit.{validity_end, is_pending, expire, time_exit}
use research_platform.Fills.Engine.{
  apply_validity_end, exit_on_last_bar, validity_exit, same_ts, has_reason,
}

abbrev IsFinal : Outcome → Type 0
IsFinal o = is_final o.0 ≡ true

validity_end-IsFinal :
    (s : OrderState) (b : Option Bar) (ctx : OrderContext) → Ensures IsFinal (validity_end s b ctx)
unfolding validity_end expire time_exit close_order
validity_end-IsFinal s none ctx = ground arith
validity_end-IsFinal s (some b) ctx = ground arith

validity_exit-IsFinal :
    (d : Direction) (s : OrderState) (b : Bar) (ctx : OrderContext)
    → Ensures IsFinal (validity_exit d s b ctx)
unfolding mirror_state
validity_exit-IsFinal long s b ctx = validity_end-IsFinal s (some b) ctx
validity_exit-IsFinal short s b ctx =
    bind-Ensures IsFinal IsFinal (validity_end (mirror_state s) (some (mirror_bar b)) ctx) _
      (validity_end-IsFinal (mirror_state s) (some (mirror_bar b)) ctx) (λ o h. h)

-- Ended, or handed to a review.
abbrev pub IsSettled : Outcome → Type 0
IsSettled o = (is_final o.0 ≡ true) ⊎ (order_needs_review o.0 ≡ true)

-- Flagging leaves a reason.
flagged :
    (r : String) (rs : List String)
    → is_nonempty (if has_reason r rs then rs else rs ++ r ∷ []) ≡ true
flagged r [] = refl
flagged r (x ∷ rs) = elim (Bool-cases (has_reason r (x ∷ rs))) [
  | inl known ↦ rw known
  | inr new ↦ rw new
]

exit_on_last_bar-IsSettled :
    (s : OrderState) (ctx : OrderContext) (last : Option Bar)
    → Ensures IsSettled (exit_on_last_bar s ctx last)
unfolding exit_on_last_bar
exit_on_last_bar-IsSettled s ctx none = inr (flagged "NO_EXIT_BAR" s.review_reasons)
exit_on_last_bar-IsSettled s ctx (some b) =
    bind-Ensures (λ _. Unit) IsSettled (guard (same_ts b.ts s.last_bar_ts) value_error) _
      (Ensures-any _)
      λ _ _.
        bind-Ensures IsFinal IsSettled (validity_exit ctx.signal.direction s b ctx) _
          (validity_exit-IsFinal ctx.signal.direction s b ctx)
          λ o h.
            bind-Ensures (λ _. Unit) IsSettled
              (last_expected_minute_before ctx.calendar ctx.valid_until_ts) _ (Ensures-any _)
              λ last _. elim (Bool-cases (b.ts == last)) [
                | inl on_time ↦ rw on_time (inl h)
                | inr stale ↦ rw stale (inl h)
              ]

-- Once the validity is over, if `apply_validity_end` returns for an order that is not frozen, then
-- that order is final or has a review reason.
pub apply_validity_end-IsSettled :
    (s : OrderState) (ctx : OrderContext) (last : Option Bar) (now : ℕ)
    → ctx.valid_until_ts ≤ now
    → s.frozen ≡ false
    → Ensures IsSettled (apply_validity_end s ctx last (Datetime.aware now))
unfolding apply_validity_end
apply_validity_end-IsSettled s ctx last now over thawed =
    let due : ltb now ctx.valid_until_ts ≡ false = ground arith in
    elim (Bool-cases (is_final s)) [
      | inl final ↦ rw (due, final) (inl final)
      | inr live ↦
          let idle : (is_final s || s.frozen) ≡ false = rw live thawed in
          elim (Bool-cases (is_pending s.status)) [
            | inl waiting ↦
                rw (due, idle, waiting)
                  (Ensures-map IsFinal IsSettled (validity_end s none ctx)
                    (validity_end-IsFinal s none ctx) (λ o h. inl h))
            | inr held ↦ rw (due, idle, held) (exit_on_last_bar-IsSettled s ctx last)
          ]
    ]
