-- ===== src/Alerts/Watchlist.antt =====
-- src/virtual_orders/alerts/watchlist.py: the alert rules of the owner, parsed from the body of a request.
pub mod Usable
use Prim.Native.String.{compare as compare_text}
use Prim.Native.Nat.{Ordering}
use text.Mathlib.Text.{◌==◌}
use research_platform.Prelude.{
  ℕ, Bool, true, false, not, ◌&&◌, ◌||◌, Option, none, some, String, List, [], ◌∷◌, ◌++◌, map,
  if◌then◌else◌,
}
use research_platform.Prelude.Int.{ℤ, pos, leb_ℤ}
use research_platform.Decimal
use research_platform.Decimal.{Decimal, zero_decimal, from_ℕ}
use research_platform.Domain.Values.{Value, Fields, field, end, lookup}

pub data RuleKind : Type 0 where
  price_cross pressure : RuleKind

pub data CrossDirection : Type 0 where
  above below : CrossDirection

-- The codes of `AlertRuleInvalid.errors`, each with the name after its colon.
pub data RuleError : Type 0 where
  unknown_field invalid_choice invalid_decimal invalid_integer : String → RuleError
  out_of_range missing_field not_allowed : String → RuleError

pub record RuleDraft : Type 0 where
  pub kind : RuleKind
  pub level : Option Decimal
  pub direction : Option CrossDirection
  pub cmf_threshold : Option Decimal
  pub window_bars : Option ℤ
  pub cooldown_minutes : ℤ

-- `parse_rule_body` returns a draft, or raises `AlertRuleInvalid(errors)`.
pub data Parsed : Type 0 where
  parsed : RuleDraft → Parsed
  invalid : (errors : List RuleError) → Parsed

abbrev is_null : Value → Bool
is_null Value.null = true
is_null _ = false

abbrev given : Option Value → Option Value
given none = none
given (some v) = if is_null v then none else some v

-- `body.get(name)`, with `none` for `None`.
abbrev pub get : String → Fields → Option Value
get name body = given (lookup name body)

abbrev pub flagged : Bool → RuleError → List RuleError
flagged true e = e ∷ []
flagged false e = []

abbrev pub is_missing {ℓ} : {A : Type ℓ} → Option A → Bool
is_missing none = true
is_missing (some _) = false

-- A `bool` is no number here.
abbrev as_decimal : Value → Option Decimal
as_decimal (Value.int n) = some (record { int = n; exp = pos 0 })
as_decimal (Value.decimal d) = some d
as_decimal _ = none

-- `_decimal`: its value, and what it appends to the errors.
abbrev pub decimal_field : Option Value → Option Decimal
decimal_field none = none
decimal_field (some v) = as_decimal v

abbrev pub decimal_errors : String → Option Value → List RuleError
decimal_errors name none = []
decimal_errors name (some v) = flagged (is_missing (as_decimal v)) (RuleError.invalid_decimal name)

abbrev as_integer : Value → Option ℤ
as_integer (Value.int n) = some n
as_integer _ = none

-- `_integer`
abbrev pub integer_field : Option Value → Option ℤ
integer_field none = none
integer_field (some v) = as_integer v

abbrev pub integer_errors : String → Option Value → List RuleError
integer_errors name none = []
integer_errors name (some v) = flagged (is_missing (as_integer v)) (RuleError.invalid_integer name)

abbrev or_default : Option ℤ → ℤ
or_default none = pos 30
or_default (some minutes) = minutes

-- A `StrEnum` is a `str`.
abbrev text_of : Value → Option String
text_of (Value.str s) = some s
text_of (Value.enum s) = some s
text_of _ = none

abbrev kind_named : String → Option RuleKind
kind_named s =
    if s == "PRICE_CROSS"
    then some RuleKind.price_cross
    else (if s == "PRESSURE" then some RuleKind.pressure else none)

abbrev direction_named : String → Option CrossDirection
direction_named s =
    if s == "ABOVE"
    then some CrossDirection.above
    else (if s == "BELOW" then some CrossDirection.below else none)

abbrev named {ℓ} : {A : Type ℓ} → (String → Option A) → Option String → Option A
named f none = none
named f (some s) = f s

abbrev text_field : Option Value → Option String
text_field none = none
text_field (some v) = text_of v

abbrev pub kind_field : Option Value → Option RuleKind
kind_field raw = named kind_named (text_field raw)

abbrev pub direction_field : Option Value → Option CrossDirection
direction_field raw = named direction_named (text_field raw)

abbrev is_rule_field : String → Bool
is_rule_field name =
    (name == "kind")
    || ((name == "level")
        || ((name == "direction")
            || ((name == "cmf_threshold")
                || ((name == "window_bars") || (name == "cooldown_minutes")))))

abbrev not_after : Ordering → Bool
not_after Ordering.gt = false
not_after _ = true

unfoldable pub insert_name : String → List String → List String
insert_name name [] = name ∷ []
insert_name name (n ∷ ns) =
    let later = n ∷ insert_name name ns in
    if not_after (compare_text name n) then name ∷ n ∷ ns else later

-- `sorted(set(body) - RULE_FIELDS)`; a dictionary has a key once.
unfoldable pub unknown_names : Fields → List String
unfolding insert_name
unknown_names end = []
unknown_names (field name _ rest) =
    let names = unknown_names rest in if is_rule_field name then names else insert_name name names

abbrev is_not_positive : Option Decimal → Bool
is_not_positive none = false
is_not_positive (some level) = Decimal.le level zero_decimal

abbrev is_no_share : Option Decimal → Bool
is_no_share none = false
is_no_share (some share) = not (Decimal.lt zero_decimal share && Decimal.lt share (from_ℕ 1))

abbrev is_no_window : Option ℤ → Bool
is_no_window none = false
is_no_window (some bars) = not (leb_ℤ (pos 5) bars && leb_ℤ bars (pos 390))

-- `MISSING_FIELD` for a field that is not given, else `OUT_OF_RANGE` for a value that is refused.
abbrev pub required_errors : String → Option Value → (refused : Bool) → List RuleError
required_errors name none refused = RuleError.missing_field name ∷ []
required_errors name (some _) refused = flagged refused (RuleError.out_of_range name)

abbrev pub unwanted_errors : String → Option Value → List RuleError
unwanted_errors name raw = flagged (not (is_missing raw)) (RuleError.not_allowed name)

-- The errors of the fields a kind needs and those it does not allow.
abbrev pub kind_errors :
    Option RuleKind → (level direction cmf_threshold window_bars : Option Value) → List RuleError
kind_errors none level direction cmf_threshold window_bars = []
kind_errors (some RuleKind.price_cross) level direction cmf_threshold window_bars =
    required_errors "level" level (is_not_positive (decimal_field level))
    ++ (flagged (is_missing direction) (RuleError.missing_field "direction")
        ++ (unwanted_errors "cmf_threshold" cmf_threshold
            ++ unwanted_errors "window_bars" window_bars))
kind_errors (some RuleKind.pressure) level direction cmf_threshold window_bars =
    required_errors "cmf_threshold" cmf_threshold (is_no_share (decimal_field cmf_threshold))
    ++ (required_errors "window_bars" window_bars (is_no_window (integer_field window_bars))
        ++ (unwanted_errors "level" level ++ unwanted_errors "direction" direction))

-- The errors of the values, whatever the kind, in the order of the code.
abbrev pub value_errors :
    (kind level cmf_threshold window_bars cooldown direction : Option Value) → List RuleError
value_errors kind level cmf_threshold window_bars cooldown direction =
    flagged (is_missing (kind_field kind)) (RuleError.invalid_choice "kind")
    ++ (decimal_errors "level" level
        ++ (decimal_errors "cmf_threshold" cmf_threshold
            ++ (integer_errors "window_bars" window_bars
                ++ (integer_errors "cooldown_minutes" cooldown
                    ++ (flagged
                          (not (
                            leb_ℤ (pos 0) (or_default (integer_field cooldown))
                            && leb_ℤ (or_default (integer_field cooldown)) (pos 1440)))
                          (RuleError.out_of_range "cooldown_minutes")
                        ++ flagged
                            (not (is_missing direction) && is_missing (direction_field direction))
                            (RuleError.invalid_choice "direction"))))))

abbrev pub draft_unless :
    (errors : List RuleError)
    → Option RuleKind
    → (level direction cmf_threshold window_bars cooldown : Option Value) → Parsed
draft_unless (e ∷ es) kind level direction cmf_threshold window_bars cooldown = invalid (e ∷ es)
draft_unless [] none level direction cmf_threshold window_bars cooldown = invalid []
draft_unless [] (some kind) level direction cmf_threshold window_bars cooldown = parsed (record {
  kind = kind;
  level = decimal_field level;
  direction = direction_field direction;
  cmf_threshold = decimal_field cmf_threshold;
  window_bars = integer_field window_bars;
  cooldown_minutes = or_default (integer_field cooldown);
})

-- The body's fields, in order, once they are looked up.
abbrev pub parse_fields :
    (unknown : List RuleError)
    → (kind level direction cmf_threshold window_bars cooldown : Option Value) → Parsed
parse_fields unknown kind level direction cmf_threshold window_bars cooldown =
    draft_unless
      (unknown
        ++ (value_errors kind level cmf_threshold window_bars cooldown direction
            ++ kind_errors (kind_field kind) level direction cmf_threshold window_bars))
      (kind_field kind) level direction cmf_threshold window_bars cooldown

unfoldable pub parse_rule_body : Fields → Parsed
unfolding unknown_names
parse_rule_body body =
    parse_fields (map RuleError.unknown_field (unknown_names body)) (get "kind" body)
      (get "level" body) (get "direction" body) (get "cmf_threshold" body) (get "window_bars" body)
      (get "cooldown_minutes" body)
