-- ===== src/Domain/Values.antt =====
-- The values that an event's payload can hold, as src/core/domain/hashing.py tells them apart, and
-- payload dictionaries in insertion order.
use research_platform.Prelude.{if◌then◌else◌, ℕ, Bool, Option, none, some, String, ◌||◌}
use research_platform.Prelude.Int.{ℤ}
use research_platform.Decimal.{Decimal}
use text.Mathlib.Text.{◌==◌}

mutual
  pub data Value : Type 0 where
    null : Value
    flag : Bool → Value
    int : ℤ → Value
    str : String → Value
    float : Value
    decimal : Decimal → Value
    -- A `Decimal` that is infinite or not a number.
    not_finite : Value
    -- An aware `datetime`, by its instant, and a naive one.
    instant : ℕ → Value
    naive : ℕ → Value
    date : ℕ → Value
    uuid : ℕ → Value
    -- A member of a `StrEnum`, by its value.
    enum : String → Value
    dict : Fields → Value
    items : Items → Value
    -- An object of any other type.
    other : Value

  pub data Items : Type 0 where
    nil : Items
    cons : Value → Items → Items

  -- A dictionary with text keys.
  pub data Fields : Type 0 where
    end : Fields
    field : String → Value → Fields → Fields

-- `key.endswith(suffix)`
unfoldable pub ends_with : String → String → Bool
ends_with String.[] suffix = String.[] == suffix
ends_with (String.◌∷◌ c s) suffix = String.◌∷◌ c s == suffix || ends_with s suffix

-- `d[key]`, `none` if the key is missing.
unfoldable pub lookup : String → Fields → Option Value
lookup key end = none
lookup key (field k v rest) = if k == key then some v else lookup key rest

-- An optional value in a payload.
abbrev pub optional : {A : Type 0} → (A → Value) → Option A → Value
optional f none = null
optional f (some a) = f a
