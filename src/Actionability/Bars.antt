-- ===== src/Actionability/Bars.antt =====
-- The decision on a signal, where bars are added that are not complete.
use research_platform.Prelude.{
  ℕ, ◌+◌, ◌≤◌, ◌<◌, ◌≡◌, refl, ap, ◌∙◌, List, [], ◌∷◌, ◌++◌, All, none, arith, ltb, leb,
  if◌then◌else◌, true,
}
use research_platform.Prelude.Sort.{sort_by, sort_by-All}
use research_platform.Prelude.Sort.Unique.{sort_by-append}
use research_platform.Result.{ok, ◌>>=◌, bind-eq}
use research_platform.Calendar.{Datetime, one_minute}
use research_platform.Domain.Values.{end}
use research_platform.Domain.Signal.{Bar}
use research_platform.Domain.Order.{OrderContext, OrderState}
use research_platform.Fills.Engine.{bar_key}
use research_platform.Actionability.{
  FillModel, run_complete, replay_signal, signal_actionability, decide_status, expired_decision,
}

run_complete-append :
    (model : FillModel) (ctx : OrderContext) (moment : ℕ) (s : OrderState) (xs ys : List Bar)
    → All (λ y. moment < y.ts + one_minute) ys
    → run_complete model ctx moment s (xs ++ ys) ≡ run_complete model ctx moment s xs
unfolding run_complete
run_complete-append model ctx moment s [] [] h = refl
run_complete-append model ctx moment s [] (y ∷ ys) h =
    let late : ltb moment (y.ts + one_minute) ≡ true = ground (arith, h.0) in rw late refl
run_complete-append model ctx moment s (x ∷ xs) ys h =
    ap (λ r. if ltb moment (x.ts + one_minute) then ok s else r)
      (bind-eq (model.advance s x ctx) _ _ (λ o. run_complete-append model ctx moment o.0 xs ys h))

replay_signal-append :
    (model : FillModel) (ctx : OrderContext) (xs ys : List Bar) (moment : ℕ)
    → All (λ x. All (λ y. x.ts ≤ y.ts) ys) xs
    → All (λ y. moment < y.ts + one_minute) ys
    → replay_signal model ctx (xs ++ ys) moment ≡ replay_signal model ctx xs moment
unfolding replay_signal
replay_signal-append model ctx xs ys moment later incomplete =
    bind-eq (model.create ctx none end) _ _ (λ created.
      ap (λ r. r >>= λ (s : OrderState). decide_status s.status s)
        (ap (run_complete model ctx moment created.0) (sort_by-append bar_key xs ys later)
          ∙ run_complete-append model ctx moment created.0 (sort_by bar_key xs) (sort_by bar_key ys)
              (sort_by-All bar_key (λ y. moment < y.ts + one_minute) ys incomplete)))

-- Bars that are no earlier than the others and not complete at the moment of the decision do not
-- change it, whatever the fill model: there is no look-ahead.
pub signal_actionability-append :
    (model : FillModel) (ctx : OrderContext) (xs ys : List Bar) (moment : ℕ)
    → All (λ x. All (λ y. x.ts ≤ y.ts) ys) xs
    → All (λ y. moment < y.ts + one_minute) ys
    → signal_actionability model ctx (xs ++ ys) (Datetime.aware moment)
      ≡ signal_actionability model ctx xs (Datetime.aware moment)
unfolding signal_actionability
signal_actionability-append model ctx xs ys moment later incomplete =
    ap (λ r. if leb ctx.valid_until_ts moment then ok expired_decision else r)
      (replay_signal-append model ctx xs ys moment later incomplete)
