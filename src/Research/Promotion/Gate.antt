-- ===== src/Research/Promotion/Gate.antt =====
-- What a promotable candidate satisfies.
use research_platform.Prelude.{
  ◌≤◌, ◌≡◌, refl, sym, ◌∙◌, ◌↔◌, ◌⊎◌, inl, inr, Bool, true, false, Option, none, some, List, [],
  ◌∷◌, ◌++◌, ltb, ltb→ge, arith,
}
use research_platform.Decimal
use research_platform.Decimal.{Decimal}
use research_platform.Result.{ok}
use research_platform.Research.Levels.{RiskLevels}
use research_platform.Research.Levels.Propose.{is_nil}
use research_platform.Research.Setups.{SetupCandidate, client_signal_id, thesis}
use research_platform.Research.Promotion.{
  PromotionPolicy, BacktestStats, PromotionError, PromotionDecision, SignalBody, Texts, append_if,
  level_gate, expectancy_low, win_rate_low, evidence_gate, ml_gate, promotion_errors, signal_body,
  body_of, decision_of, decide,
}

-- The value is given, and passes the test.
abbrev pub Given : {A : Type 0} → (A → Type 0) → Option A → Type 0
Given P none = ⊥
Given P (some a) = P a

-- The out-of-sample evidence clears the policy.
abbrev pub IsProven : PromotionPolicy → BacktestStats → Type 0
IsProven policy stats =
    (policy.min_backtest_samples ≤ stats.samples)
    × Given (λ r. Decimal.le r policy.min_expectancy_r ≡ false) stats.expectancy_r
    × (win_rate_low stats.win_rate policy.min_win_rate ≡ false)

abbrev pub IsLikely : (required : Bool) → PromotionPolicy → Option Decimal → Type 0
IsLikely false policy probability = Unit
IsLikely true policy probability =
    Given (λ p. Decimal.lt p policy.min_ml_probability ≡ false) probability

-- Every requirement of the policy is met.
pub record IsEligible (policy : PromotionPolicy) (evidence : Option BacktestStats)
    (candidate : SetupCandidate) : Type 0 where
  pub scored : Decimal.lt candidate.deterministic_score policy.min_deterministic_score ≡ false
  pub levelled : Given (λ l. l.valid ≡ true) candidate.levels
  pub proven : Given (IsProven policy) evidence
  pub likely : IsLikely policy.require_ml_probability policy candidate.ml_probability

append-nil_parts :
    (xs ys : List PromotionError) → is_nil (xs ++ ys) ≡ true → (xs ≡ []) × (is_nil ys ≡ true)
append-nil_parts [] ys h = (refl, h)
append-nil_parts (x ∷ xs) ys h = cc

is_nil-eq : (xs : List PromotionError) → is_nil xs ≡ true → xs ≡ []
is_nil-eq [] h = refl
is_nil-eq (x ∷ xs) h = cc

append_if-nil : (test : Bool) (e : PromotionError) → append_if test e ≡ [] → test ≡ false
append_if-nil true e h = cc
append_if-nil false e h = refl

List-cases :
    (xs : List PromotionError)
    → (xs ≡ []) ⊎ ((x : PromotionError) × (ys : List PromotionError) × (xs ≡ x ∷ ys))
List-cases [] = inl refl
List-cases (x ∷ ys) = inr (x, ys, refl)

level_gate-nil :
    (levels : Option RiskLevels) → level_gate levels ≡ [] → Given (λ l. l.valid ≡ true) levels
level_gate-nil none h = cc
level_gate-nil (some l) h = ground arith

expectancy_low-Given :
    (expectancy : Option Decimal) (least : Decimal)
    → expectancy_low expectancy least ≡ false
    → Given (λ r. Decimal.le r least ≡ false) expectancy
expectancy_low-Given none least h = cc
expectancy_low-Given (some r) least h = h

evidence_gate-nil :
    (policy : PromotionPolicy) (evidence : Option BacktestStats)
    → is_nil (evidence_gate evidence policy) ≡ true
    → Given (IsProven policy) evidence
evidence_gate-nil policy none h = cc
evidence_gate-nil policy (some stats) h =
    let (few, rest) =
      append-nil_parts
        (append_if (ltb stats.samples policy.min_backtest_samples)
          PromotionError.insufficient_backtest_samples)
        _ h in
    let (poor, rare) =
      append-nil_parts
        (append_if (expectancy_low stats.expectancy_r policy.min_expectancy_r)
          PromotionError.expectancy_below_minimum)
        _ rest in
    (
      ltb→ge _ _ (append_if-nil _ _ few),
      expectancy_low-Given stats.expectancy_r _ (append_if-nil _ _ poor),
      append_if-nil _ PromotionError.win_rate_below_minimum (is_nil-eq _ rare),
    )

ml_gate-nil :
    (policy : PromotionPolicy) (probability : Option Decimal)
    → is_nil (ml_gate probability policy) ≡ true
    → IsLikely policy.require_ml_probability policy probability
ml_gate-nil policy none h = ground arith
ml_gate-nil policy (some p) h = ground arith

promotion_errors-IsEligible :
    (candidate : SetupCandidate) (evidence : Option BacktestStats) (policy : PromotionPolicy)
    → is_nil (promotion_errors candidate evidence policy) ≡ true
    → IsEligible policy evidence candidate
unfolding promotion_errors
promotion_errors-IsEligible candidate evidence policy h =
    let (low, rest) =
      append-nil_parts
        (append_if (Decimal.lt candidate.deterministic_score policy.min_deterministic_score)
          PromotionError.score_below_minimum)
        _ h in
    let (chain, rest') = append-nil_parts (level_gate candidate.levels) _ rest in
    let (proof, rest'') = append-nil_parts (evidence_gate evidence policy) _ rest' in
    record {
      scored = append_if-nil _ _ low;
      levelled = level_gate-nil candidate.levels chain;
      proven = evidence_gate-nil policy evidence (rw proof refl);
      likely = ml_gate-nil policy candidate.ml_probability rest'';
    }

level_gate-Given :
    (levels : Option RiskLevels) → Given (λ l. l.valid ≡ true) levels → level_gate levels ≡ []
level_gate-Given none h = absurd h
level_gate-Given (some l) h = rw h refl

expectancy-Given :
    (expectancy : Option Decimal) (least : Decimal)
    → Given (λ r. Decimal.le r least ≡ false) expectancy
    → expectancy_low expectancy least ≡ false
expectancy-Given none least h = absurd h
expectancy-Given (some r) least h = h

evidence_gate-Given :
    (policy : PromotionPolicy) (evidence : Option BacktestStats)
    → Given (IsProven policy) evidence
    → evidence_gate evidence policy ≡ []
evidence_gate-Given policy none h = absurd h
evidence_gate-Given policy (some stats) h =
    let enough : ltb stats.samples policy.min_backtest_samples ≡ false = ground (arith, h.0) in
    rw (enough, expectancy-Given stats.expectancy_r policy.min_expectancy_r h.1, h.2) refl

ml_gate-IsLikely :
    (policy : PromotionPolicy) (probability : Option Decimal)
    → IsLikely policy.require_ml_probability policy probability
    → ml_gate probability policy ≡ []
ml_gate-IsLikely policy none h = ground arith
ml_gate-IsLikely policy (some p) h = ground arith

IsEligible-promotion_errors :
    (candidate : SetupCandidate) (evidence : Option BacktestStats) (policy : PromotionPolicy)
    → IsEligible policy evidence candidate
    → promotion_errors candidate evidence policy ≡ []
unfolding promotion_errors
IsEligible-promotion_errors candidate evidence policy h =
    rw
      (
        h.scored,
        level_gate-Given candidate.levels h.levelled,
        evidence_gate-Given policy evidence h.proven,
        ml_gate-IsLikely policy candidate.ml_probability h.likely,
      )
      refl

signal_body-Given :
    (texts : Texts) (candidate : SetupCandidate) (policy : PromotionPolicy)
    (levels : Option RiskLevels)
    → Given (λ l. l.valid ≡ true) levels
    → candidate.levels ≡ levels
    → (b : SignalBody) × (signal_body texts candidate policy ≡ ok b)
unfolding signal_body
signal_body-Given texts candidate policy none h e = absurd h
signal_body-Given texts candidate policy (some l) h e = (
  body_of (client_signal_id texts.iso candidate)
      (texts.canonical_json (thesis texts.level_code candidate)) candidate policy l,
  rw (e, h) refl,
)

abbrev pub has_body : PromotionDecision → Bool
has_body d = elim d.body [ none ↦ false | some _ ↦ true ]

-- `decide` always returns. The candidate is promotable exactly if its score, its levels, its
-- evidence and its probability meet the policy, and exactly then the decision has a body to submit.
pub decide-IsEligible :
    (texts : Texts) (candidate : SetupCandidate) (evidence : Option BacktestStats)
    (policy : PromotionPolicy)
    → (d : PromotionDecision) × (decide texts candidate evidence policy ≡ ok d)
      × ((d.promotable ≡ true) ↔ IsEligible policy evidence candidate)
      × (has_body d ≡ d.promotable)
unfolding decide
decide-IsEligible texts candidate evidence policy =
    elim (List-cases (promotion_errors candidate evidence policy)) [
      | inl clean ↦
          let fine = promotion_errors-IsEligible candidate evidence policy (rw clean refl) in
          let (b, e) =
            signal_body-Given texts candidate policy candidate.levels fine.levelled refl in
          (
            decision_of [] policy (client_signal_id texts.iso candidate) (some b),
            rw (clean, e) refl,
            (λ _. fine, λ _. refl),
            refl,
          )
      | inr (x, xs, e) ↦ (
        decision_of (x ∷ xs) policy (client_signal_id texts.iso candidate) none,
        rw e refl,
        ((λ h. cc), (λ h. cc (sym e ∙ IsEligible-promotion_errors candidate evidence policy h))),
        refl,
      )
    ]
