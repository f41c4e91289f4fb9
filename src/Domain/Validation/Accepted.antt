-- ===== src/Domain/Validation/Accepted.antt =====
-- What a signal without problems satisfies.
use research_platform.Prelude.{
  ◌≡◌, Bool, true, false, Option, none, some, String, All, List, [], ◌∷◌, ◌++◌, refl,
}
use research_platform.Decimal
use research_platform.Decimal.{Decimal}
use research_platform.Domain.Signal.{Direction, SignalSpec}
use research_platform.Domain.Validation.{
  Problem, PriceName, unless, is_positive, ticker_valid, sessions_valid, beyond, near_edge,
  far_edge, price_problems, target2_problems, value_checks, chain_checks, flatten, or_else,
  validate_signal,
}

-- The test holds of the value, if there is one.
abbrev pub Holds : (Decimal → Bool) → Option Decimal → Type 0
Holds test none = Unit
Holds test (some d) = test d ≡ true

-- Every value is in its range, and the levels lie in the order that the direction asks for: stop,
-- zone, first target, second target.
pub record IsAccepted (normal : String → String) (s : SignalSpec) : Type 0 where
  pub ticker : ticker_valid normal s.ticker ≡ true
  pub low_positive : is_positive s.entry_zone_low ≡ true
  pub high_positive : is_positive s.entry_zone_high ≡ true
  pub stop_positive : is_positive s.stop ≡ true
  pub target1_positive : is_positive s.target1 ≡ true
  pub target2_positive : Holds is_positive s.target2
  pub trigger_positive : Holds is_positive s.trigger_price
  pub sessions : sessions_valid s ≡ true
  pub zone : Decimal.le s.entry_zone_low s.entry_zone_high ≡ true
  pub stop_beyond : beyond s.direction s.stop (near_edge s s.direction) ≡ true
  pub target1_beyond : beyond s.direction (far_edge s s.direction) s.target1 ≡ true
  pub target2_beyond : Holds (beyond s.direction s.target1) s.target2

append-eq-nil : (xs ys : List Problem) → xs ++ ys ≡ [] → (xs ≡ []) × (ys ≡ [])
append-eq-nil [] ys h = (refl, h)
append-eq-nil (x ∷ xs) ys h = cc

flatten-eq-nil : (pss : List (List Problem)) → flatten pss ≡ [] → All (λ ps. ps ≡ []) pss
flatten-eq-nil [] h = tt
flatten-eq-nil (ps ∷ pss) h =
    let (first, rest) = append-eq-nil ps (flatten pss) h in (first, flatten-eq-nil pss rest)

unless-nil : (test : Bool) (p : Problem) → unless test p ≡ [] → test ≡ true
unless-nil true p h = refl
unless-nil false p h = cc

or_else-eq-nil : (xs ys : List Problem) → or_else xs ys ≡ [] → (xs ≡ []) × (ys ≡ [])
or_else-eq-nil [] ys h = (refl, h)
or_else-eq-nil (x ∷ xs) ys h = cc

price_problems-nil :
    (name : PriceName) (price : Option Decimal)
    → price_problems name price ≡ []
    → Holds is_positive price
price_problems-nil name none h = tt
price_problems-nil name (some d) h = unless-nil (is_positive d) (Problem.not_positive name) h

target2_problems-nil :
    (d : Direction) (first : Decimal) (second : Option Decimal)
    → target2_problems d first second ≡ []
    → Holds (beyond d first) second
target2_problems-nil d first none h = tt
target2_problems-nil d first (some second) h =
    unless-nil (beyond d first second) Problem.target2_not_beyond_target1 h

-- If `validate_signal` reports no problem, every value of the signal is in its range, and stop,
-- zone, first and second target lie in the order that the direction asks for.
pub validate_signal-IsAccepted :
    (normal : String → String) (s : SignalSpec)
    → validate_signal normal s ≡ []
    → IsAccepted normal s
unfolding validate_signal
validate_signal-IsAccepted normal s h =
    let (values, chain) =
      or_else-eq-nil (flatten (value_checks normal s)) (flatten (chain_checks s)) h in
    let (a1, (a2, (a3, (a4, (a5, (a6, (a7, (a8, _)))))))) =
      flatten-eq-nil (value_checks normal s) values in
    let (b1, (b2, (b3, (b4, _)))) = flatten-eq-nil (chain_checks s) chain in
    record {
      ticker = unless-nil _ _ a1;
      low_positive = unless-nil _ _ a2;
      high_positive = unless-nil _ _ a3;
      stop_positive = unless-nil _ _ a4;
      target1_positive = unless-nil _ _ a5;
      target2_positive = price_problems-nil _ _ a6;
      trigger_positive = price_problems-nil _ _ a7;
      sessions = unless-nil _ _ a8;
      zone = unless-nil _ _ b1;
      stop_beyond = unless-nil _ _ b2;
      target1_beyond = unless-nil _ _ b3;
      target2_beyond = target2_problems-nil _ _ _ b4;
    }

price_problems-Holds :
    (name : PriceName) (price : Option Decimal)
    → Holds is_positive price
    → price_problems name price ≡ []
price_problems-Holds name none h = refl
price_problems-Holds name (some d) h = rw h refl

target2_problems-Holds :
    (d : Direction) (first : Decimal) (second : Option Decimal)
    → Holds (beyond d first) second
    → target2_problems d first second ≡ []
target2_problems-Holds d first none h = refl
target2_problems-Holds d first (some second) h = rw h refl

-- A signal with every value in its range and its levels in the order that the direction asks for
-- has no problem.
pub IsAccepted-validate_signal :
    (normal : String → String) (s : SignalSpec)
    → IsAccepted normal s
    → validate_signal normal s ≡ []
unfolding validate_signal
IsAccepted-validate_signal normal s h =
    rw
      (
        h.ticker,
        h.low_positive,
        h.high_positive,
        h.stop_positive,
        h.target1_positive,
        h.sessions,
        h.zone,
        h.stop_beyond,
        h.target1_beyond,
        price_problems-Holds PriceName.target2 s.target2 h.target2_positive,
        price_problems-Holds PriceName.trigger_price s.trigger_price h.trigger_positive,
        target2_problems-Holds s.direction s.target1 s.target2 h.target2_beyond,
      )
      refl
