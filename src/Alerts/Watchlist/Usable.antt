-- ===== src/Alerts/Watchlist/Usable.antt =====
-- What a parsed rule promises to the evaluation of the rules.
use research_platform.Prelude.{
  ◌≡◌, refl, sym, ap, Bool, true, false, not, ◌&&◌, Option-cases, inl, inr, Option, none, some,
  String, List, [], ◌∷◌, ◌++◌, map,
}
use research_platform.Prelude.Int.{ℤ, pos, leb_ℤ}
use research_platform.Decimal
use research_platform.Decimal.{Decimal, zero_decimal, from_ℕ}
use research_platform.Domain.Values.{Value, Fields}
use research_platform.Alerts.Watchlist.{
  RuleKind, CrossDirection, RuleError, RuleDraft, Parsed, parsed, invalid, flagged, is_missing,
  decimal_field, decimal_errors, integer_field, integer_errors, kind_field, direction_field,
  or_default, unwanted_errors, kind_errors, value_errors, draft_unless, parse_fields,
  parse_rule_body, is_not_positive, is_no_share, is_no_window, unknown_names, get,
}

-- A price rule has a positive level and a direction, and nothing of a pressure rule.
abbrev pub IsPriceRule : RuleDraft → Type 0
IsPriceRule d =
    (level : Decimal) × (direction : CrossDirection) × (d.level ≡ some level)
    × (Decimal.le level zero_decimal ≡ false)
    × (d.direction ≡ some direction)
    × (d.cmf_threshold ≡ none)
    × (d.window_bars ≡ none)

-- A pressure rule has a threshold between 0 and 1 and a window of 5 to 390 bars, and nothing of a
-- price rule.
abbrev pub IsPressureRule : RuleDraft → Type 0
IsPressureRule d =
    (threshold : Decimal) × (bars : ℤ) × (d.cmf_threshold ≡ some threshold)
    × ((Decimal.lt zero_decimal threshold && Decimal.lt threshold (from_ℕ 1)) ≡ true)
    × (d.window_bars ≡ some bars)
    × ((leb_ℤ (pos 5) bars && leb_ℤ bars (pos 390)) ≡ true)
    × (d.level ≡ none)
    × (d.direction ≡ none)

abbrev IsOfKind : RuleKind → RuleDraft → Type 0
IsOfKind RuleKind.price_cross d = IsPriceRule d
IsOfKind RuleKind.pressure d = IsPressureRule d

abbrev pub IsUsable : RuleDraft → Type 0
IsUsable d =
    ((leb_ℤ (pos 0) d.cooldown_minutes && leb_ℤ d.cooldown_minutes (pos 1440)) ≡ true)
    × IsOfKind d.kind d

-- A usable rule, or at least one error.
abbrev pub IsUsableOrRefused : Parsed → Type 0
IsUsableOrRefused (parsed d) = IsUsable d
IsUsableOrRefused (invalid []) = ⊥
IsUsableOrRefused (invalid (e ∷ es)) = Unit

append-eq-nil : {A : Type 0} (xs ys : List A) → xs ++ ys ≡ [] → (xs ≡ []) × (ys ≡ [])
append-eq-nil [] ys h = (refl, h)
append-eq-nil (x ∷ xs) ys h = absurd cc

append-cons_ne : {A : Type 0} (xs : List A) (y : A) (ys : List A) → xs ++ y ∷ ys ≡ [] → ⊥
append-cons_ne [] y ys h = cc
append-cons_ne (x ∷ xs) y ys h = cc

flagged-eq-nil : (b : Bool) (e : RuleError) → flagged b e ≡ [] → b ≡ false
flagged-eq-nil true e h = absurd cc
flagged-eq-nil false e h = refl

not-eq-false : (b : Bool) → not b ≡ false → b ≡ true
not-eq-false true h = refl
not-eq-false false h = sym h

-- A field that is given and has no error of its own has a value.
decimal_field-some :
    (name : String) (v : Value)
    → decimal_errors name (some v) ≡ []
    → (d : Decimal) × (decimal_field (some v) ≡ some d)
decimal_field-some name v h = elim (Option-cases (decimal_field (some v))) [
  | inr found ↦ found
  | inl e ↦ let bad = (rw e at h) in absurd cc
]

integer_field-some :
    (name : String) (v : Value)
    → integer_errors name (some v) ≡ []
    → (n : ℤ) × (integer_field (some v) ≡ some n)
integer_field-some name v h = elim (Option-cases (integer_field (some v))) [
  | inr found ↦ found
  | inl e ↦ let bad = (rw e at h) in absurd cc
]

direction_field-some :
    (v : Value)
    → is_missing (direction_field (some v)) ≡ false
    → (d : CrossDirection) × (direction_field (some v) ≡ some d)
direction_field-some v h = elim (Option-cases (direction_field (some v))) [
  | inr found ↦ found
  | inl e ↦ let bad = (rw e at h) in absurd cc
]

unwanted : (name : String) (raw : Option Value) → unwanted_errors name raw ≡ [] → raw ≡ none
unwanted name none h = refl
unwanted name (some v) h = absurd cc

abbrev draft_of :
    RuleKind → (level direction cmf_threshold window_bars cooldown : Option Value) → RuleDraft
draft_of kind level direction cmf_threshold window_bars cooldown = record {
  kind = kind;
  level = decimal_field level;
  direction = direction_field direction;
  cmf_threshold = decimal_field cmf_threshold;
  window_bars = integer_field window_bars;
  cooldown_minutes = or_default (integer_field cooldown);
}

price_rule :
    (level direction cmf_threshold window_bars cooldown : Option Value)
    → decimal_errors "level" level ≡ []
    → (not (is_missing direction) && is_missing (direction_field direction)) ≡ false
    → kind_errors (some RuleKind.price_cross) level direction cmf_threshold window_bars ≡ []
    → IsPriceRule (draft_of RuleKind.price_cross level direction cmf_threshold window_bars cooldown)
price_rule none direction cmf_threshold window_bars cooldown h k e = absurd cc
price_rule (some v) none cmf_threshold window_bars cooldown h k e = absurd (append-cons_ne _ _ _ e)
price_rule (some v) (some w) cmf_threshold window_bars cooldown h k e =
    let (positive, rest) = append-eq-nil _ _ e in
    let (no_cmf, no_window) = append-eq-nil _ _ rest in
    let (level, found) = decimal_field-some "level" v h in
    let (direction, towards) = direction_field-some w k in
    (
      level,
      direction,
      found,
      (rw found at (
          flagged-eq-nil (is_not_positive (decimal_field (some v))) (RuleError.out_of_range "level")
            positive)),
      towards,
      ap decimal_field (unwanted "cmf_threshold" cmf_threshold no_cmf),
      ap integer_field (unwanted "window_bars" window_bars no_window),
    )

pressure_rule :
    (level direction cmf_threshold window_bars cooldown : Option Value)
    → decimal_errors "cmf_threshold" cmf_threshold ≡ []
    → integer_errors "window_bars" window_bars ≡ []
    → kind_errors (some RuleKind.pressure) level direction cmf_threshold window_bars ≡ []
    → IsPressureRule (draft_of RuleKind.pressure level direction cmf_threshold window_bars cooldown)
pressure_rule level direction none window_bars cooldown h k e = absurd cc
pressure_rule level direction (some v) none cooldown h k e = absurd (append-cons_ne _ _ _ e)
pressure_rule level direction (some v) (some w) cooldown h k e =
    let (share, rest) = append-eq-nil _ _ e in
    let (window, unwanted_two) = append-eq-nil _ _ rest in
    let (no_level, no_direction) = append-eq-nil _ _ unwanted_two in
    let (threshold, found) = decimal_field-some "cmf_threshold" v h in
    let (bars, counted) = integer_field-some "window_bars" w k in
    (
      threshold,
      bars,
      found,
      not-eq-false _ (
          rw found at (
            flagged-eq-nil (is_no_share (decimal_field (some v)))
              (RuleError.out_of_range "cmf_threshold") share)),
      counted,
      not-eq-false _ (
          rw counted at (
            flagged-eq-nil (is_no_window (integer_field (some w)))
              (RuleError.out_of_range "window_bars") window)),
      ap decimal_field (unwanted "level" level no_level),
      ap direction_field (unwanted "direction" direction no_direction),
    )

abbrev Fits :
    Option RuleKind → (level direction cmf_threshold window_bars cooldown : Option Value) → Type 0
Fits none level direction cmf_threshold window_bars cooldown = ⊥
Fits (some kind) level direction cmf_threshold window_bars cooldown =
    IsUsable (draft_of kind level direction cmf_threshold window_bars cooldown)

draft_unless-IsUsableOrRefused :
    (es : List RuleError) (kind : Option RuleKind)
    (level direction cmf_threshold window_bars cooldown : Option Value)
    → (es ≡ [] → Fits kind level direction cmf_threshold window_bars cooldown)
    → IsUsableOrRefused (draft_unless es kind level direction cmf_threshold window_bars cooldown)
draft_unless-IsUsableOrRefused (e ∷ es) kind level direction cmf window cooldown h = tt
draft_unless-IsUsableOrRefused [] none level direction cmf window cooldown h = h refl
draft_unless-IsUsableOrRefused [] (some kind) level direction cmf window cooldown h = h refl

rule_of_kind :
    (kind : Option RuleKind) (level direction cmf_threshold window_bars cooldown : Option Value)
    → is_missing kind ≡ false
    → decimal_errors "level" level ≡ []
    → decimal_errors "cmf_threshold" cmf_threshold ≡ []
    → integer_errors "window_bars" window_bars ≡ []
    → (leb_ℤ (pos 0) (or_default (integer_field cooldown))
        && leb_ℤ (or_default (integer_field cooldown)) (pos 1440))
      ≡ true
    → (not (is_missing direction) && is_missing (direction_field direction)) ≡ false
    → kind_errors kind level direction cmf_threshold window_bars ≡ []
    → Fits kind level direction cmf_threshold window_bars cooldown
rule_of_kind none level direction cmf window cooldown given l c w m d e = absurd cc
rule_of_kind (some RuleKind.price_cross) level direction cmf window cooldown given l c w m d e =
    (m, price_rule level direction cmf window cooldown l d e)
rule_of_kind (some RuleKind.pressure) level direction cmf window cooldown given l c w m d e =
    (m, pressure_rule level direction cmf window cooldown c w e)

parse_fields-IsUsableOrRefused :
    (unknown : List RuleError)
    (kind level direction cmf_threshold window_bars cooldown : Option Value)
    → IsUsableOrRefused
        (parse_fields unknown kind level direction cmf_threshold window_bars cooldown)
parse_fields-IsUsableOrRefused unknown kind level direction cmf window cooldown =
    draft_unless-IsUsableOrRefused _ (kind_field kind) level direction cmf window cooldown
      λ none_found.
        let (_, known) = append-eq-nil unknown _ none_found in
        let (values, of_kind) =
          append-eq-nil (value_errors kind level cmf window cooldown direction) _ known in
        let (given, v1) = append-eq-nil _ _ values in
        let (levels, v2) = append-eq-nil _ _ v1 in
        let (shares, v3) = append-eq-nil _ _ v2 in
        let (windows, v4) = append-eq-nil _ _ v3 in
        let (_, v5) = append-eq-nil _ _ v4 in
        let (minutes, directions) = append-eq-nil _ _ v5 in
        rule_of_kind (kind_field kind) level direction cmf window cooldown
          (flagged-eq-nil _ _ given) levels shares windows
          (not-eq-false _ (flagged-eq-nil _ _ minutes)) (flagged-eq-nil _ _ directions) of_kind

-- For every body, `parse_rule_body` either raises with at least one error, or returns a draft whose
-- cooldown is in range and which has just the fields of its kind, each in range: a positive level
-- and a direction, or a threshold between 0 and 1 and a window of 5 to 390 bars.
pub parse_rule_body-IsUsable : (body : Fields) → IsUsableOrRefused (parse_rule_body body)
unfolding parse_rule_body
parse_rule_body-IsUsable body =
    parse_fields-IsUsableOrRefused (map RuleError.unknown_field (unknown_names body))
      (get "kind" body) (get "level" body) (get "direction" body) (get "cmf_threshold" body)
      (get "window_bars" body) (get "cooldown_minutes" body)
