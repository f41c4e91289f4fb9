-- ===== src/Fills/EventLog/Runs.antt =====
-- The events of `step` and `run_bars`, for orders of both directions.
use text.Mathlib.TextEquality.{eq_iff}
use text.Mathlib.Text.{◌==◌ as str_eq}
use research_platform.Prelude.{
  ◌≡◌, false, Bool-cases, inl, inr, some, String, List, [], ◌∷◌, refl, sym, ap, ◌∙◌, arith,
}
use research_platform.Prelude.Sort.{sort_by}
use research_platform.Result.{Ensures, bind-Ensures, Ensures-any}
use research_platform.Calendar.{is_expected_minute}
use research_platform.Domain.Values.{lookup, Value, Fields, field, end}
use research_platform.Domain.Signal.{Bar, Direction, long, short}
use research_platform.Domain.Order.{OrderState, OrderContext, Event, EventType}
use research_platform.Fills.Mirror.{
  mirror_state, mirror_bar, mirror_signal, mirror_event, mirror_payload, mirror_value, is_price_key,
}
use research_platform.Fills.Engine.{
  process, advance, ignores, step, run_ordered, run_bars, bar_key, map_list,
}
use research_platform.Fills.EventLog.View.{View, view, replay, apply_event, apply_type}
use research_platform.Fills.EventLog.Exits.{Logged, append-Logged}
use research_platform.Fills.EventLog.Bars.{process-Logged}

mirror_value_plain : (key : String) (v : Value) → is_price_key key ≡ false → mirror_value key v ≡ v
mirror_value_plain key v h = rw h

-- Mirroring changes no entry whose key does not name a price.
lookup-mirror_payload :
    (key : String) (p : Fields)
    → is_price_key key ≡ false
    → lookup key (mirror_payload p) ≡ lookup key p
unfolding lookup mirror_payload
lookup-mirror_payload key end h = refl
lookup-mirror_payload key (field k v rest) h = elim (Bool-cases (str_eq k key)) [
  | inl same ↦
      rw same (ap some (mirror_value_plain k v (ap is_price_key ((eq_iff k key).0 same) ∙ h)))
  | inr differs ↦ rw differs (lookup-mirror_payload key rest h)
]

-- The keys that the replay reads.
apply_type-mirror_event :
    (t : EventType) (v : View) (e : Event) → apply_type t v (mirror_event e) ≡ apply_type t v e
unfolding mirror_event
apply_type-mirror_event t v e = ground (
  arith,
  lookup-mirror_payload "pnl" e.payload (unfold is_price_key in refl),
  lookup-mirror_payload "cost" e.payload (unfold is_price_key in refl),
  lookup-mirror_payload "final" e.payload (unfold is_price_key in refl),
  lookup-mirror_payload "cash" e.payload (unfold is_price_key in refl),
  lookup-mirror_payload "entry_eligible_from" e.payload (unfold is_price_key in refl),
)

apply_event-mirror_event : (v : View) (e : Event) → apply_event v (mirror_event e) ≡ apply_event v e
unfolding mirror_event
apply_event-mirror_event v e = apply_type-mirror_event e.type v e

pub replay-mirror_event :
    (v : View) (es : List Event) → replay v (map_list mirror_event es) ≡ replay v es
replay-mirror_event v [] = refl
replay-mirror_event v (e ∷ es) =
    ap (λ x. replay x (map_list mirror_event es)) (apply_event-mirror_event v e)
    ∙ replay-mirror_event (apply_event v e) es

advance-Logged :
    (d : Direction) (s : OrderState) (b : Bar) (ctx : OrderContext)
    → Ensures (Logged (view s)) (advance d s b ctx)
unfolding advance mirror_state
advance-Logged long s b ctx = process-Logged b ctx.signal ctx s
advance-Logged short s b ctx =
    bind-Ensures (Logged (view s)) (Logged (view s))
      (process (mirror_state s) (mirror_bar b) (mirror_signal ctx.signal) ctx) _
      (process-Logged (mirror_bar b) (mirror_signal ctx.signal) ctx (mirror_state s))
      (λ o h. h ∙ sym (replay-mirror_event (view s) o.1))

-- If `step` returns, replaying its events over the view of the old state gives the view of the new
-- one, for orders of both directions.
pub step-Logged :
    (s : OrderState) (b : Bar) (ctx : OrderContext) → Ensures (Logged (view s)) (step s b ctx)
unfolding step
step-Logged s b ctx = elim (Bool-cases (ignores s b ctx)) [
  | inl ignored ↦ rw ignored refl
  | inr live ↦ rw live (
      bind-Ensures (λ _. Unit) (Logged (view s)) (is_expected_minute ctx.calendar b.ts) _
        (Ensures-any _)
        λ expected _. elim (Bool-cases expected) [
          | inr off ↦ rw off refl
          | inl on ↦ rw on (advance-Logged ctx.signal.direction s b ctx)
        ])
]

run_ordered-Logged :
    (s : OrderState) (bs : List Bar) (ctx : OrderContext)
    → Ensures (Logged (view s)) (run_ordered s bs ctx)
unfolding run_ordered
run_ordered-Logged s [] ctx = refl
run_ordered-Logged s (b ∷ bs) ctx =
    bind-Ensures (Logged (view s)) (Logged (view s)) (step s b ctx) _ (step-Logged s b ctx)
      (λ o h. append-Logged (view s) o.0 o.1 _ h (run_ordered-Logged o.0 bs ctx))

-- If `run_bars` returns, replaying its events over the view of the old state (status, zone,
-- trigger, results, costs, dividends, opening, freeze) gives the view of the new one.
pub run_bars-Logged :
    (s : OrderState) (bars : List Bar) (ctx : OrderContext)
    → Ensures (Logged (view s)) (run_bars s bars ctx)
unfolding run_bars
run_bars-Logged s bars ctx = run_ordered-Logged s (sort_by bar_key bars) ctx
