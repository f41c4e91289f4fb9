-- ===== src/Research/Promotion/Stored.antt =====
-- Promotion from the stored row against promotion of the candidate, and the levels that are submitted.
use research_platform.Prelude.{
  ◌≡◌, refl, Bool-cases, inl, inr, true, Option, none, some, String, List, [], ◌∷◌,
}
use research_platform.Domain.Values.{end}
use research_platform.Result.{Result, ok, err, ◌>>=◌}
use research_platform.Research.Levels.{RiskLevels}
use research_platform.Research.Setups.{SetupCandidate, client_signal_id}
use research_platform.Research.Promotion.{
  PromotionPolicy, BacktestStats, PromotionError, SignalBody, Texts, level_gate, promotion_errors,
  signal_body, body_unless, decision_of, decide,
}
use research_platform.Research.Promotion.Row.{
  row_of, level_column, are_valid, stored_level_gate, stored_promotion_errors, stored_signal_body,
  decide_stored,
}

level_gate-stored :
    (levels : Option RiskLevels)
    → stored_level_gate (level_column (λ l. l.entry_zone_low) levels) (are_valid levels)
      ≡ level_gate levels
level_gate-stored none = refl
level_gate-stored (some l) = refl

stored_promotion_errors-row_of :
    (texts : Texts) (candidate : SetupCandidate) (evidence : Option BacktestStats)
    (policy : PromotionPolicy)
    → stored_promotion_errors (row_of texts candidate) evidence policy
      ≡ promotion_errors candidate evidence policy
unfolding stored_promotion_errors promotion_errors
stored_promotion_errors-row_of texts candidate evidence policy =
    rw (level_gate-stored candidate.levels) refl

-- The body of the stored candidate: it takes no thesis, and orders automatically.
abbrev pub as_stored : Texts → SignalBody → SignalBody
as_stored texts body = record body { thesis = texts.canonical_json end; auto_order = some true }

signal_body-stored :
    (texts : Texts) (candidate : SetupCandidate) (policy : PromotionPolicy)
    (levels : Option RiskLevels)
    → candidate.levels ≡ levels
    → stored_signal_body texts (row_of texts candidate) policy end [] true
      ≡ (signal_body texts candidate policy >>= λ b. ok (as_stored texts b))
unfolding stored_signal_body signal_body
signal_body-stored texts candidate policy none e = rw e refl
signal_body-stored texts candidate policy (some l) e = elim (Bool-cases l.valid) [
  | inl valid ↦ rw (e, valid) refl
  | inr wrong ↦ rw (e, wrong) refl
]

abbrev pub map_body : (SignalBody → SignalBody) → Option SignalBody → Option SignalBody
map_body f none = none
map_body f (some b) = some (f b)

body_unless-map :
    (errors : List PromotionError) (r : Result SignalBody) (f : SignalBody → SignalBody)
    → body_unless errors (r >>= λ b. ok (f b)) ≡ (body_unless errors r >>= λ o. ok (map_body f o))
body_unless-map [] (ok b) f = refl
body_unless-map [] (err e) f = refl
body_unless-map (x ∷ xs) r f = refl

>>=-assoc :
    {A B C : Type 0} (r : Result A) (f : A → Result B) (g : B → Result C)
    → ((r >>= f) >>= g) ≡ (r >>= λ a. f a >>= g)
>>=-assoc (ok a) f g = refl
>>=-assoc (err e) f g = refl

-- Judging the row that is stored for a candidate gives the decision on the candidate itself, errors
-- included, except that the body has an empty thesis and orders automatically.
pub decide_stored-row_of :
    (texts : Texts) (candidate : SetupCandidate) (evidence : Option BacktestStats)
    (policy : PromotionPolicy)
    → decide_stored texts (row_of texts candidate) evidence policy ≡ (
        decide texts candidate evidence policy >>= λ d.
        ok (record d { body = map_body (as_stored texts) d.body }))
unfolding decide decide_stored
decide_stored-row_of texts candidate evidence policy =
    let errors : List PromotionError = promotion_errors candidate evidence policy in
    let id : String = client_signal_id texts.iso candidate in
    rw
      (
        stored_promotion_errors-row_of texts candidate evidence policy,
        signal_body-stored texts candidate policy candidate.levels refl,
        body_unless-map errors (signal_body texts candidate policy) (as_stored texts),
        >>=-assoc (body_unless errors (signal_body texts candidate policy))
            (λ o. ok (map_body (as_stored texts) o)) (λ o. ok (decision_of errors policy id o)),
        >>=-assoc (body_unless errors (signal_body texts candidate policy))
            (λ o. ok (decision_of errors policy id o))
            (λ d. ok (record d { body = map_body (as_stored texts) d.body })),
      )
      refl
