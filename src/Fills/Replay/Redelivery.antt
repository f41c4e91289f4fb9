-- ===== src/Fills/Replay/Redelivery.antt =====
-- `step` on a bar that comes again.
use mathlib.Core.Path.{subst}
use research_platform.Prelude.{
  ℕ, ◌≡◌, ◌⊎◌, true, Bool-cases, inl, inr, some, List, [], arith, refl, sym, ap, ◌∙◌, ◌==◌,
}
use research_platform.Result.{ok, Ensures, bind-Ensures, Ensures-any, Ensures-map, Ensures-eq_ok}
use research_platform.Calendar.{is_expected_minute, last_expected_minute_before}
use research_platform.Domain.Signal.{Direction, long, short, Bar, SignalSpec}
use research_platform.Domain.Order.{OrderContext, OrderState, Event, is_final}
use research_platform.Fills.Mirror.{mirror_state, mirror_bar, mirror_signal}
use research_platform.Fills.Moves.{Outcome, close_order}
use research_platform.Fills.Exit.{validity_end, expire, time_exit}
use research_platform.Fills.Engine.{phase, close_validity, process, advance, ignores, step}

-- The state records `ts` as its last bar.
abbrev Seen : ℕ → Outcome → Type 0
Seen ts o = o.0.last_bar_ts ≡ some ts

validity_end-Seen :
    (s : OrderState) (b : Bar) (ctx : OrderContext)
    → s.last_bar_ts ≡ some b.ts
    → Ensures (Seen b.ts) (validity_end s (some b) ctx)
unfolding validity_end expire time_exit close_order
validity_end-Seen s b ctx h = ground arith

close_validity-Seen :
    (s : OrderState) (es : List Event) (b : Bar) (ctx : OrderContext)
    → s.last_bar_ts ≡ some b.ts
    → Ensures (Seen b.ts) (close_validity s es b ctx)
unfolding close_validity
close_validity-Seen s es b ctx h =
    bind-Ensures (λ _. Unit) (Seen b.ts)
      (last_expected_minute_before ctx.calendar ctx.valid_until_ts) _ (Ensures-any _)
      λ last _. elim (Bool-cases (b.ts == last)) [
        | inr earlier ↦ rw earlier h
        | inl end ↦ rw end (
            bind-Ensures (Seen b.ts) (Seen b.ts) (validity_end s (some b) ctx) _
              (validity_end-Seen s b ctx h) (λ o seen. seen))
      ]

process-Seen :
    (s : OrderState) (b : Bar) (signal : SignalSpec) (ctx : OrderContext)
    → Ensures (Seen b.ts) (process s b signal ctx)
unfolding process
process-Seen s b signal ctx =
    bind-Ensures (λ _. Unit) (Seen b.ts) (phase s b signal ctx) _ (Ensures-any _)
      λ o _. elim (Bool-cases (is_final o.0)) [
        | inl final ↦ rw final refl
        | inr live ↦ rw live (close_validity-Seen _ o.1 b ctx refl)
      ]

pub advance-Seen :
    (d : Direction) (s : OrderState) (b : Bar) (ctx : OrderContext)
    → Ensures (Seen b.ts) (advance d s b ctx)
unfolding advance mirror_state mirror_bar
advance-Seen long s b ctx = process-Seen s b ctx.signal ctx
advance-Seen short s b ctx =
    bind-Ensures (Seen b.ts) (Seen b.ts)
      (process (mirror_state s) (mirror_bar b) (mirror_signal ctx.signal) ctx) _
      (process-Seen (mirror_state s) (mirror_bar b) (mirror_signal ctx.signal) ctx) (λ o seen. seen)

ignores-Seen :
    (s : OrderState) (b : Bar) (ctx : OrderContext)
    → s.last_bar_ts ≡ some b.ts
    → ignores s b ctx ≡ true
ignores-Seen s b ctx h = ground arith

pub step-ignores :
    (s : OrderState) (b : Bar) (ctx : OrderContext)
    → ignores s b ctx ≡ true
    → step s b ctx ≡ ok (s, [])
unfolding step
step-ignores s b ctx h = rw h

-- A step leaves the state as it is, with no event, or records the bar.
step_settled :
    (s : OrderState) (b : Bar) (ctx : OrderContext)
    → Ensures (λ o. (o ≡ (s, [])) ⊎ Seen b.ts o) (step s b ctx)
unfolding step
step_settled s b ctx = elim (Bool-cases (ignores s b ctx)) [
  | inl ignored ↦ rw ignored (inl refl)
  | inr live ↦ rw live (
      bind-Ensures (λ _. Unit) (λ o. (o ≡ (s, [])) ⊎ Seen b.ts o)
        (is_expected_minute ctx.calendar b.ts) _ (Ensures-any _)
        λ expected _. elim (Bool-cases expected) [
          | inr off ↦ rw off (inl refl)
          | inl on ↦ rw on (
              Ensures-map (Seen b.ts) (λ o. (o ≡ (s, [])) ⊎ Seen b.ts o) _
                (advance-Seen ctx.signal.direction s b ctx) (λ o h. inr h))
        ])
]

-- If `step` returns on a bar, a second `step` on that bar from the new state returns that state
-- unchanged, with no event.
pub step_twice :
    (s : OrderState) (b : Bar) (ctx : OrderContext) (s' : OrderState) (es : List Event)
    → step s b ctx ≡ ok (s', es)
    → step s' b ctx ≡ ok (s', [])
step_twice s b ctx s' es h =
    elim (Ensures-eq_ok (λ o. (o ≡ (s, [])) ⊎ Seen b.ts o) _ (step_settled s b ctx) h) [
      | inl same ↦
          subst (λ x. step x b ctx ≡ ok (x, [])) (sym (ap (λ (o : Outcome). o.0) same))
            (h ∙ ap ok same)
      | inr seen ↦ step-ignores s' b ctx (ignores-Seen s' b ctx seen)
    ]
