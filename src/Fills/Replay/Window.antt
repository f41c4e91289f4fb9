-- ===== src/Fills/Replay/Window.antt =====
-- `run_bars` over windows that overlap: bars that an earlier call has seen are given again.
use mathlib.Core.Path.{subst}
use mathlib.Core.List.Memᴰ
use mathlib.Core.List.{Perm, Memᴰ}
use research_platform.Prelude.{
  ◌≤◌, ◌≡◌, ◌⊎◌, Bool, true, false, Bool-cases, inl, inr, List, [], ◌∷◌, ◌++◌, some, if◌then◌else◌,
  refl, sym, ◌∙◌, All, arith,
}
use research_platform.Prelude.Sort.{sort_by, sort_by-All, sort_by-All_given}
use research_platform.Prelude.Sort.Unique.{IsDistinct}
use research_platform.Result.{
  Result, ok, err, ◌>>=◌, Ensures, Ensures-eq_ok, bind-Ensures, Ensures-map,
}
use research_platform.Calendar.{is_expected_minute}
use research_platform.Domain.Signal.{Bar}
use research_platform.Domain.Order.{OrderContext, OrderState, Event}
use research_platform.Fills.Moves.{Outcome}
use research_platform.Fills.Engine.{advance, ignores, step, run_ordered, run_bars, bar_key}
use research_platform.Fills.Replay.Redelivery.{advance-Seen}
use research_platform.Fills.Replay.Order.{then_run, joined-nil, run_bars-append, run_bars-perm}

-- `step` passes over the bar: by one of its early returns, or because no bar is expected then.
abbrev Passes : OrderContext → Bar → OrderState → Type 0
Passes ctx b s = (ignores s b ctx ≡ true) ⊎ (is_expected_minute ctx.calendar b.ts ≡ ok false)

Passes-step :
    (s : OrderState) (b : Bar) (ctx : OrderContext) → Passes ctx b s → step s b ctx ≡ ok (s, [])
unfolding step
Passes-step s b ctx (inl h) = rw h refl
Passes-step s b ctx (inr h) = elim (Bool-cases (ignores s b ctx)) [
  | inl e ↦ rw e refl
  | inr e ↦ rw (e, h) refl
]

-- What holds of the state before and of every state that has recorded the bar holds after a step.
step-cases :
    (P : OrderState → Type 0) (s : OrderState) (b : Bar) (ctx : OrderContext)
    → (ignores s b ctx ≡ true → P s)
    → (is_expected_minute ctx.calendar b.ts ≡ ok false → P s)
    → ((t : OrderState) → ignores s b ctx ≡ false → t.last_bar_ts ≡ some b.ts → P t)
    → Ensures (λ o. P o.0) (step s b ctx)
unfolding step
step-cases P s b ctx passed unexpected seen = elim (Bool-cases (ignores s b ctx)) [
  | inl e ↦ rw e (passed e)
  | inr e ↦ rw e (after (is_expected_minute ctx.calendar b.ts) refl e)
]
  where
    after :
        (r : Result Bool)
        → is_expected_minute ctx.calendar b.ts ≡ r
        → ignores s b ctx ≡ false
        → Ensures
            (λ o. P o.0)
            (r >>= λ expected.
              if expected then advance ctx.signal.direction s b ctx else ok (s, []))
    after (err _) k e = tt
    after (ok false) k e = unexpected k
    after (ok true) k e =
        Ensures-map (λ o. o.0.last_bar_ts ≡ some b.ts) (λ o. P o.0) _
          (advance-Seen ctx.signal.direction s b ctx) (λ o h. seen o.0 e h)

step-Passes :
    (s : OrderState) (b : Bar) (ctx : OrderContext) → Ensures (λ o. Passes ctx b o.0) (step s b ctx)
step-Passes s b ctx = step-cases (Passes ctx b) s b ctx inl inr λ t live h. inl (ground (arith, h))

-- A bar that is passed over stays so: the last bar that a state has recorded only moves on.
Passes-later :
    (s : OrderState) (b c : Bar) (ctx : OrderContext)
    → Passes ctx b s
    → Ensures (λ o. Passes ctx b o.0) (step s c ctx)
Passes-later s b c ctx (inr h) =
    step-cases (Passes ctx b) s c ctx (λ _. inr h) (λ _. inr h) (λ _ _ _. inr h)
Passes-later s b c ctx (inl h) =
    step-cases (Passes ctx b) s c ctx (λ _. inl h) (λ _. inl h)
      (λ t live seen. inl (ground (arith, h, live, seen)))

run_ordered-Passes :
    (s : OrderState) (b : Bar) (bs : List Bar) (ctx : OrderContext)
    → Passes ctx b s
    → Ensures (λ o. Passes ctx b o.0) (run_ordered s bs ctx)
unfolding run_ordered
run_ordered-Passes s b [] ctx h = h
run_ordered-Passes s b (c ∷ cs) ctx h =
    bind-Ensures (λ (o : Outcome). Passes ctx b o.0) (λ (o : Outcome). Passes ctx b o.0)
      (step s c ctx) _ (Passes-later s b c ctx h)
      λ o k.
        bind-Ensures (λ (r : Outcome). Passes ctx b r.0) (λ (r : Outcome). Passes ctx b r.0)
          (run_ordered o.0 cs ctx) _ (run_ordered-Passes o.0 b cs ctx k) (λ r k'. k')

-- After a run every bar of it is passed over.
run_ordered-AllPass :
    (s : OrderState) (bs : List Bar) (ctx : OrderContext)
    → Ensures (λ o. All (λ b. Passes ctx b o.0) bs) (run_ordered s bs ctx)
unfolding run_ordered
run_ordered-AllPass s [] ctx = tt
run_ordered-AllPass s (b ∷ bs) ctx =
    bind-Ensures (λ (o : Outcome). Passes ctx b o.0)
      (λ (o : Outcome). All (λ c. Passes ctx c o.0) (b ∷ bs)) (step s b ctx) _ (step-Passes s b ctx)
      λ o k.
        both o k (run_ordered o.0 bs ctx) (run_ordered-Passes o.0 b bs ctx k)
          (run_ordered-AllPass o.0 bs ctx)
  where
    both :
        (o : Outcome)
        → Passes ctx b o.0
        → (r : Result Outcome) → Ensures (λ (p : Outcome). Passes ctx b p.0) r
        → Ensures (λ (p : Outcome). All (λ c. Passes ctx c p.0) bs) r
        → Ensures
            (λ (p : Outcome). All (λ c. Passes ctx c p.0) (b ∷ bs))
            (r >>= λ p. ok (p.0, o.1 ++ p.1))
    both o k (err _) h hs = tt
    both o k (ok p) h hs = (h, hs)

run_ordered_passed :
    (s : OrderState) (bs : List Bar) (ctx : OrderContext)
    → All (λ b. Passes ctx b s) bs
    → run_ordered s bs ctx ≡ ok (s, [])
unfolding run_ordered
run_ordered_passed s [] ctx h = refl
run_ordered_passed s (b ∷ bs) ctx h =
    rw (Passes-step s b ctx h.0, run_ordered_passed s bs ctx h.1) refl

run_bars-AllPass :
    (s : OrderState) (bars : List Bar) (ctx : OrderContext)
    → Ensures (λ o. All (λ b. Passes ctx b o.0) bars) (run_bars s bars ctx)
unfolding run_bars
run_bars-AllPass s bars ctx =
    weaken (run_ordered s (sort_by bar_key bars) ctx)
      (run_ordered-AllPass s (sort_by bar_key bars) ctx)
  where
    weaken :
        (r : Result Outcome)
        → Ensures (λ o. All (λ b. Passes ctx b o.0) (sort_by bar_key bars)) r
        → Ensures (λ o. All (λ b. Passes ctx b o.0) bars) r
    weaken (err _) h = tt
    weaken (ok o) h = sort_by-All_given bar_key (λ b. Passes ctx b o.0) bars h

run_bars_passed :
    (s : OrderState) (bars : List Bar) (ctx : OrderContext)
    → All (λ b. Passes ctx b s) bars
    → run_bars s bars ctx ≡ ok (s, [])
unfolding run_bars
run_bars_passed s bars ctx h =
    run_ordered_passed s (sort_by bar_key bars) ctx
      (sort_by-All bar_key (λ b. Passes ctx b s) bars h)

All-among :
    (P : Bar → Type 0) (again bars : List Bar)
    → All (λ b. Memᴰ b bars) again
    → All P bars
    → All P again
All-among P [] bars h k = tt
All-among P (b ∷ bs) bars h k = (pick bars h.0 k, All-among P bs bars h.1 k)
  where
    pick : (cs : List Bar) → Memᴰ b cs → All P cs → P b
    pick [] m k = absurd (Memᴰ.not-nil m)
    pick (c ∷ cs) (Memᴰ.head e) k = subst P (sym e) k.0
    pick (c ∷ cs) (Memᴰ.tail m) k = pick cs m k.1

-- If `run_bars` returns on a batch, any bars of that batch, in any order and any number of times,
-- leave the new state unchanged, with no event.
pub run_bars-redelivered :
    (s : OrderState) (bars again : List Bar) (ctx : OrderContext) (s' : OrderState)
    (es : List Event)
    → run_bars s bars ctx ≡ ok (s', es)
    → All (λ b. Memᴰ b bars) again
    → run_bars s' again ctx ≡ ok (s', [])
run_bars-redelivered s bars again ctx s' es h among = run_bars_passed s' again ctx (
    All-among (λ b. Passes ctx b s') again bars among
      (Ensures-eq_ok (λ o. All (λ b. Passes ctx b o.0) bars) _ (run_bars-AllPass s bars ctx) h))

then_run-eq :
    (r : Result Outcome) (f g : OrderState → Result Outcome)
    → Ensures (λ o. f o.0 ≡ g o.0) r
    → then_run r f ≡ then_run r g
then_run-eq (err _) f g h = refl
then_run-eq (ok o) f g h = rw h refl

-- The bars seen so far add nothing to the rest of the window.
rest_of_window :
    (s : OrderState) (xs ys : List Bar) (ctx : OrderContext)
    → All (λ x. All (λ y. x.ts ≤ y.ts) ys) xs
    → All (λ b. Passes ctx b s) xs
    → run_bars s ys ctx ≡ run_bars s (xs ++ ys) ctx
rest_of_window s xs ys ctx later passed = sym (
    run_bars-append s xs ys ctx later
    ∙ rw (run_bars_passed s xs ctx passed) (joined-nil (run_bars s ys ctx)))

-- Take a window of bars with distinct timestamps, in any order, of which the bars `xs` are no later
-- than the rest. To evaluate `xs` and then the whole window again, `xs` included, is to evaluate
-- the window once: same state, same events, same error.
pub run_bars-window :
    (s : OrderState) (xs ys window : List Bar) (ctx : OrderContext)
    → All (λ x. All (λ y. x.ts ≤ y.ts) ys) xs
    → IsDistinct bar_key (xs ++ ys)
    → Perm (xs ++ ys) window
    → run_bars s window ctx ≡ then_run (run_bars s xs ctx) (λ t. run_bars t window ctx)
run_bars-window s xs ys window ctx later distinct p =
    sym (run_bars-perm s (xs ++ ys) window ctx p distinct)
    ∙ run_bars-append s xs ys ctx later
    ∙ then_run-eq (run_bars s xs ctx) (λ t. run_bars t ys ctx) (λ t. run_bars t window ctx)
        (resumed (run_bars s xs ctx) (run_bars-AllPass s xs ctx))
  where
    resumed :
        (r : Result Outcome)
        → Ensures (λ o. All (λ b. Passes ctx b o.0) xs) r
        → Ensures (λ o. run_bars o.0 ys ctx ≡ run_bars o.0 window ctx) r
    resumed (err _) h = tt
    resumed (ok o) h =
        rest_of_window o.0 xs ys ctx later h ∙ run_bars-perm o.0 (xs ++ ys) window ctx p distinct
