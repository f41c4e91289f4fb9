-- ===== src/Alerts/Outbox/Enqueue.antt =====
-- The envelope of an alert.
use text.Mathlib.Text.{◌==◌ as str_eq}
use text.Mathlib.TextEquality.{eq_iff}
use text.Mathlib.TextPositions.{eq_refl}
use mathlib.Core.Path.{subst}
use research_platform.Prelude.{◌≡◌, refl, sym, ◌∙◌, Bool-cases, false, inl, inr, some, String}
use research_platform.Prelude.Int.{pos}
use research_platform.Domain.Values.{Value, Fields, field, end, lookup}
use research_platform.Alerts.Outbox.{set_field, alert_envelope}

lookup-set_field :
    (key : String) (value : Value) (d : Fields) → lookup key (set_field key value d) ≡ some value
unfolding lookup set_field
lookup-set_field key value end = rw (eq_refl key) refl
lookup-set_field key value (field k v rest) = elim (Bool-cases (str_eq k key)) [
  | inl same ↦ rw (same, same) refl
  | inr other ↦ rw (other, other) (lookup-set_field key value rest)
]

lookup-set_field_other :
    (key other : String) (value : Value) (d : Fields)
    → str_eq key other ≡ false
    → lookup other (set_field key value d) ≡ lookup other d
unfolding lookup set_field
lookup-set_field_other key other value end h = rw h refl
lookup-set_field_other key other value (field k v rest) h = elim (Bool-cases (str_eq k key)) [
  | inr apart ↦ rw (apart, lookup-set_field_other key other value rest h) refl
  | inl same ↦
      let e : k ≡ key = (eq_iff k key).0 same in
      let h' : str_eq k other ≡ false = subst (λ j. str_eq j other ≡ false) (sym e) h in
      rw (same, h') refl
]

-- The document of an alert has the schema version, the key and the kind of the alert, whatever the
-- caller's document says under these names.
pub alert_envelope-lookup :
    (key kind : String) (document : Fields)
    → (lookup "schema_version" (alert_envelope key kind document) ≡ some (Value.int (pos 1)))
      × (lookup "alert_key" (alert_envelope key kind document) ≡ some (Value.str key))
      × (lookup "kind" (alert_envelope key kind document) ≡ some (Value.str kind))
unfolding alert_envelope
alert_envelope-lookup key kind document =
    let first : Fields = set_field "schema_version" (Value.int (pos 1)) document in
    let second : Fields = set_field "alert_key" (Value.str key) first in
    (
      lookup-set_field_other "kind" "schema_version" (Value.str kind) second refl
          ∙ (lookup-set_field_other "alert_key" "schema_version" (Value.str key) first refl
              ∙ lookup-set_field "schema_version" (Value.int (pos 1)) document),
      lookup-set_field_other "kind" "alert_key" (Value.str kind) second refl
          ∙ lookup-set_field "alert_key" (Value.str key) first,
      lookup-set_field "kind" (Value.str kind) second,
    )
