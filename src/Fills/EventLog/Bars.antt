-- ===== src/Fills/EventLog/Bars.antt =====
-- The events of the entry rules and of `step` and `run_bars`, against the change of the state.
use research_platform.Prelude.{
  ◌%◌, ◌≡◌, true, false, Bool-cases, inl, inr, Option, none, some, String, List, [], ◌∷◌, refl,
  ◌||◌, ◌&&◌, not, ◌==◌,
}
use research_platform.Result.{ok, ◌>>=◌, Ensures, bind-Ensures, Ensures-any}
use research_platform.Decimal
use research_platform.Decimal.{Decimal}
use research_platform.Calendar.{one_minute, next_expected_minute, last_expected_minute_before}
use research_platform.Domain.Values.{lookup}
use research_platform.Domain.Signal.{Bar, SignalSpec, ZoneLostPolicy}
use research_platform.Domain.Order.{
  OrderState, OrderContext, Event, EventType, make_event, is_final,
}
use research_platform.Fills.Moves.{invalidate, fill, eligible}
use research_platform.Fills.Exit.{is_pending}
use research_platform.Fills.Entry.{
  hit_trigger, reclaim_zone, lose_zone, wait_for_entry, enter, entry_phase, enter_or_wait,
  by_policy, record_hit, trigger_reached,
}
use research_platform.Fills.Engine.{phase, close_validity, process}
use research_platform.Fills.EventLog.View.{View, view, replay, replay-append}
use research_platform.Fills.EventLog.Exits.{
  Logged, append-Logged, invalidate-Logged, fill-Logged, exit_phase-Logged, validity_end-Logged,
}

abbrev lost_zone : OrderState → OrderState
lost_zone s = record s { zone_lost = true; zone_ever_lost = true }

module _ (b : Bar) (signal : SignalSpec) (ctx : OrderContext) where
  record_hit-Logged :
      (v : View) (s : OrderState) (es : List Event) (o : Option Decimal)
      → view s ≡ replay v es
      → Ensures (Logged v) (record_hit s es b o)
  unfolding make_event
  record_hit-Logged v s es none h = h
  record_hit-Logged v s es (some p) h = elim (Bool-cases (b.ts % one_minute == 0)) [
    | inr part ↦ rw part tt
    | inl whole ↦ rw whole (rw (replay-append, ← h))
  ]

  hit_trigger-Logged :
      (v : View) (s : OrderState) (es : List Event)
      → view s ≡ replay v es
      → Ensures (Logged v) (hit_trigger s es b signal)
  unfolding hit_trigger
  hit_trigger-Logged v s es h =
      record_hit-Logged v s es (trigger_reached s b signal.trigger_price) h

  reclaim_zone-Logged :
      (v : View) (s : OrderState) (es : List Event)
      → view s ≡ replay v es
      → Ensures (Logged v) (reclaim_zone s es b signal ctx)
  unfolding reclaim_zone lookup
  reclaim_zone-Logged v s es h =
      elim (Bool-cases (s.zone_lost && Decimal.le signal.entry_zone_low b.close)) [
        | inr same ↦ rw same (hit_trigger-Logged v s es h)
        | inl back ↦ rw back (
            bind-Ensures (λ _. Unit) (Logged v) (next_expected_minute ctx.calendar b.ts) _
              (Ensures-any _)
              λ from _. elim (Bool-cases (b.ts % one_minute == 0)) [
                | inr part ↦ rw part tt
                | inl whole ↦ rw whole (hit_trigger-Logged v _ _ (rw (replay-append, ← h)))
              ])
      ]

  policy-Logged :
      (p : ZoneLostPolicy) (s : OrderState) (e : Event)
      → e.type ≡ EventType.zone_lost
      → Ensures (Logged (view s)) (
          by_policy p
            (invalidate (lost_zone s) b "ZONE_LOST_CANCEL" >>= λ o. ok (o.0, e ∷ o.1))
            (reclaim_zone (lost_zone s) (e ∷ []) b signal ctx))
  policy-Logged ZoneLostPolicy.reclaim s e h =
      reclaim_zone-Logged (view s) (lost_zone s) (e ∷ []) (rw h)
  policy-Logged ZoneLostPolicy.cancel s e h =
      append-Logged (view s) (lost_zone s) (e ∷ []) _ (rw h)
        (invalidate-Logged (lost_zone s) b "ZONE_LOST_CANCEL")

  lose_zone-Logged : (s : OrderState) → Ensures (Logged (view s)) (lose_zone s b signal ctx)
  unfolding lose_zone
  lose_zone-Logged s =
      elim (Bool-cases (
        not s.zone_lost
        && (Decimal.lt b.open_price signal.entry_zone_low
            || Decimal.lt b.close signal.entry_zone_low))) [
              | inr same ↦ rw same (reclaim_zone-Logged (view s) s [] refl)
              | inl lost ↦ elim (Bool-cases (b.ts % one_minute == 0)) [
                | inr part ↦ rw (lost, part) tt
                | inl whole ↦ rw (lost, whole) (policy-Logged ctx.config.zone_lost_policy s _ refl)
              ]
            ]

  wait_for_entry-Logged :
      (s : OrderState) → Ensures (Logged (view s)) (wait_for_entry s b signal ctx)
  unfolding wait_for_entry
  wait_for_entry-Logged s = elim (Bool-cases (Decimal.le b.low signal.stop)) [
    | inl hit ↦ rw hit (invalidate-Logged s b _)
    | inr clear ↦ rw clear (lose_zone-Logged s)
  ]

  enter-Logged :
      (s : OrderState) (priced : Decimal × String)
      → Ensures (Logged (view s)) (enter s b signal ctx priced)
  unfolding enter
  enter-Logged s (raw, rule) =
      bind-Ensures (Logged (view s)) (Logged (view s)) (fill s b signal ctx raw rule) _
        (fill-Logged s b signal ctx raw rule)
        (λ o h. append-Logged (view s) o.0 o.1 _ h (exit_phase-Logged o.0 b signal ctx true))

  enter_or_wait-Logged :
      (s : OrderState) (priced : Option (Decimal × String))
      → Ensures (Logged (view s)) (enter_or_wait s b signal ctx priced)
  enter_or_wait-Logged s none = wait_for_entry-Logged s
  enter_or_wait-Logged s (some priced) = enter-Logged s priced

  entry_phase-Logged : (s : OrderState) → Ensures (Logged (view s)) (entry_phase s b signal ctx)
  unfolding entry_phase
  entry_phase-Logged s = elim (Bool-cases (Decimal.le b.open_price signal.stop)) [
    | inl through ↦ rw through (invalidate-Logged s b _)
    | inr above ↦ rw above (
        bind-Ensures (λ _. Unit) (Logged (view s)) (eligible s b signal ctx) _ (Ensures-any _)
          (λ allowed _. enter_or_wait-Logged s _))
  ]

  phase-Logged : (s : OrderState) → Ensures (Logged (view s)) (phase s b signal ctx)
  unfolding phase
  phase-Logged s = elim (Bool-cases (is_pending s.status)) [
    | inl waiting ↦ rw waiting (entry_phase-Logged s)
    | inr held ↦ rw held (exit_phase-Logged s b signal ctx false)
  ]

  close_validity-Logged :
      (v : View) (s : OrderState) (es : List Event)
      → view s ≡ replay v es
      → Ensures (Logged v) (close_validity s es b ctx)
  unfolding close_validity
  close_validity-Logged v s es h =
      bind-Ensures (λ _. Unit) (Logged v)
        (last_expected_minute_before ctx.calendar ctx.valid_until_ts) _ (Ensures-any _)
        λ last _. elim (Bool-cases (b.ts == last)) [
          | inr earlier ↦ rw earlier h
          | inl last_bar ↦
              rw last_bar (append-Logged v s es _ h (validity_end-Logged s (some b) ctx))
        ]

  pub process-Logged : (s : OrderState) → Ensures (Logged (view s)) (process s b signal ctx)
  unfolding process
  process-Logged s =
      bind-Ensures (Logged (view s)) (Logged (view s)) (phase s b signal ctx) _ (phase-Logged s)
        λ o h. elim (Bool-cases (is_final o.0)) [
          | inl final ↦ rw final h
          | inr live ↦
              rw live
                (close_validity-Logged (view s) (record o.0 { last_bar_ts = some b.ts }) o.1 h)
        ]
