-- ===== src/Fills/Replay/Order.antt =====
-- `run_bars` over bars in another order, or in several batches.
use mathlib.Core.List.{Perm, append_assoc}
use mathlib.Core.Logic.{∥∥₁_elim}
use research_platform.Prelude.{◌≤◌, ◌≡◌, List, [], ◌∷◌, ◌++◌, refl, sym, ap, ◌∙◌, All}
use research_platform.Prelude.Sort.{sort_by}
use research_platform.Prelude.Sort.Unique.{IsDistinct, sort_by-eq_perm, sort_by-append}
use research_platform.Result.{Result, ok, err, ◌>>=◌}
use research_platform.Domain.Signal.{Bar}
use research_platform.Domain.Order.{OrderContext, OrderState, Event}
use research_platform.Fills.Moves.{Outcome}
use research_platform.Fills.Engine.{step, run_ordered, run_bars, bar_key}

-- One run after another, their events joined.
abbrev joined : List Event → Result Outcome → Result Outcome
joined es r = r >>= λ o. ok (o.0, es ++ o.1)

abbrev pub then_run : Result Outcome → (OrderState → Result Outcome) → Result Outcome
then_run first second = first >>= λ o. joined o.1 (second o.0)

joined-joined :
    (es fs : List Event) (r : Result Outcome) → joined es (joined fs r) ≡ joined (es ++ fs) r
joined-joined es fs (err _) = refl
joined-joined es fs (ok (s, gs)) = ap (λ (x : List Event). ok (s, x)) (sym (append_assoc es fs gs))

then_run-joined :
    (es : List Event) (r : Result Outcome) (g : OrderState → Result Outcome)
    → then_run (joined es r) g ≡ joined es (then_run r g)
then_run-joined es (err _) g = refl
then_run-joined es (ok (s, fs)) g = sym (joined-joined es fs (g s))

pub joined-nil : (r : Result Outcome) → joined [] r ≡ r
joined-nil (err _) = refl
joined-nil (ok _) = refl

-- A run over two lists is a run over the first and then one over the second.
run_ordered-append :
    (s : OrderState) (xs ys : List Bar) (ctx : OrderContext)
    → run_ordered s (xs ++ ys) ctx ≡ then_run (run_ordered s xs ctx) (λ s'. run_ordered s' ys ctx)
unfolding run_ordered
run_ordered-append s [] ys ctx = sym (joined-nil (run_ordered s ys ctx))
run_ordered-append s (x ∷ xs) ys ctx = after (λ s'. run_ordered-append s' xs ys ctx) (step s x ctx)
  where
    after :
        ((t : OrderState)
          → run_ordered t (xs ++ ys) ctx
            ≡ then_run (run_ordered t xs ctx) (λ s'. run_ordered s' ys ctx))
        → (r : Result Outcome)
        → then_run r (λ s'. run_ordered s' (xs ++ ys) ctx)
          ≡ then_run (then_run r (λ s'. run_ordered s' xs ctx)) (λ s'. run_ordered s' ys ctx)
    after ih (err _) = refl
    after ih (ok (s', es)) =
        ap (joined es) (ih s')
        ∙ sym (then_run-joined es (run_ordered s' xs ctx) (λ t. run_ordered t ys ctx))

-- Where no bar of the second batch is earlier than one of the first, evaluating both at once is
-- evaluating them in turn: same state, same events, same error.
pub run_bars-append :
    (s : OrderState) (xs ys : List Bar) (ctx : OrderContext)
    → All (λ x. All (λ y. x.ts ≤ y.ts) ys) xs
    → run_bars s (xs ++ ys) ctx ≡ then_run (run_bars s xs ctx) (λ s'. run_bars s' ys ctx)
unfolding run_bars
run_bars-append s xs ys ctx h =
    ap (λ bs. run_ordered s bs ctx) (sort_by-append bar_key xs ys h)
    ∙ run_ordered-append s (sort_by bar_key xs) (sort_by bar_key ys) ctx

Bars-set : IsSet (List Bar)
Bars-set = hlevel

-- Where no two bars have the same timestamp, the order in which the bars are given does not change
-- what `run_bars` returns.
pub run_bars-perm :
    (s : OrderState) (xs ys : List Bar) (ctx : OrderContext)
    → Perm xs ys
    → IsDistinct bar_key xs
    → run_bars s xs ctx ≡ run_bars s ys ctx
unfolding run_bars
run_bars-perm s xs ys ctx p h =
    ap (λ bs. run_ordered s bs ctx)
      (∥∥₁_elim p (Bars-set _ _) (λ d. sort_by-eq_perm bar_key xs ys d h))
