-- ===== src/Result.antt =====
-- Python's exceptions as values: the exceptions that the modelled code raises or lets through,
-- and the monad of its calls.
use mathlib.Core.Path.{subst}
use research_platform.Prelude.{◌≡◌, refl, Bool, true, false, Option, none, some, ◌⊎◌, inl, inr}

pub data Error : Type 0 where
  value_error type_error runtime_error assertion_error : Error
  calendar_range zero_division invalid_operation index_error : Error
  -- A loop of the model that ran out of fuel; no exception of the program.
  out_of_fuel : Error

pub data Result {ℓ} (A : Type ℓ) : Type ℓ where
  ok : A → Result A
  err : Error → Result A

infixl 5 ◌>>=◌
abbrev pub ◌>>=◌ {ℓ κ} : {A : Type ℓ} {B : Type κ} → Result A → (A → Result B) → Result B
err e >>= _ = err e
ok a >>= next = next a

-- `if test: raise e`
abbrev pub raise_if : Bool → Error → Result (Unit {0})
raise_if true e = err e
raise_if false _ = ok tt

-- `if not test: raise e`
abbrev pub guard : Bool → Error → Result (Unit {0})
guard false e = err e
guard true _ = ok tt

infixl 5 ◌>>◌
abbrev pub ◌>>◌ {ℓ} : {B : Type ℓ} → Result (Unit {0}) → Result B → Result B
check >> rest = check >>= λ _. rest

-- An operation on `None`.
abbrev pub or_raise {ℓ} : {A : Type ℓ} → Option A → Error → Result A
or_raise none e = err e
or_raise (some a) _ = ok a

pub Result-cases {ℓ} :
    {A : Type ℓ} (r : Result A) → ((a : A) × (r ≡ ok a)) ⊎ ((e : Error) × (r ≡ err e))
Result-cases (ok a) = inl (a, refl)
Result-cases (err e) = inr (e, refl)

-- Inversion of a successful bind.
pub >>=-eq-ok {ℓ κ} :
    {A : Type ℓ} {B : Type κ} {b : B} (r : Result A) (next : A → Result B)
    → (r >>= next) ≡ ok b
    → (a : A) × (r ≡ ok a) × (next a ≡ ok b)
>>=-eq-ok (err _) next h = cc
>>=-eq-ok (ok a) next h = (a, refl, h)

pub ok-injective {ℓ} : {A : Type ℓ} {a b : A} → ok a ≡ ok b → a ≡ b
ok-injective h = cc

-- What holds of the result, if the call returns.
abbrev pub Ensures {ℓ} : {A : Type ℓ} → (A → Type 0) → Result A → Type 0
Ensures P (ok a) = P a
Ensures P (err _) = Unit

pub bind-Ensures {ℓ κ} :
    {A : Type ℓ} {B : Type κ} (P : A → Type 0) (Q : B → Type 0) (m : Result A) (f : A → Result B)
    → Ensures P m
    → ((a : A) → P a → Ensures Q (f a))
    → Ensures Q (m >>= f)
bind-Ensures P Q (ok a) f h k = k a h
bind-Ensures P Q (err _) f h k = tt

pub Ensures-any {ℓ} : {A : Type ℓ} (r : Result A) → Ensures (λ _. Unit) r
Ensures-any (ok _) = tt
Ensures-any (err _) = tt

pub Ensures-eq_ok {ℓ} :
    {A : Type ℓ} (P : A → Type 0) (r : Result A) {a : A} → Ensures P r → r ≡ ok a → P a
Ensures-eq_ok P (ok b) h e = subst P (ok-injective e) h
Ensures-eq_ok P (err _) h e = cc

pub Ensures-map {ℓ} :
    {A : Type ℓ} (P Q : A → Type 0) (r : Result A)
    → Ensures P r
    → ((a : A) → P a → Q a)
    → Ensures Q r
Ensures-map P Q (ok a) h k = k a h
Ensures-map P Q (err _) h k = tt

pub bind-eq {ℓ κ} :
    {A : Type ℓ} {B : Type κ} (r : Result A) (f g : A → Result B)
    → ((a : A) → f a ≡ g a)
    → (r >>= f) ≡ (r >>= g)
bind-eq (err _) f g same = refl
bind-eq (ok a) f g same = same a

pub bind_ok-Ensures {ℓ κ} :
    {A : Type ℓ} {B : Type κ} (Q : B → Type 0) (r : Result A) (f : A → Result B)
    → ((a : A) → r ≡ ok a → Ensures Q (f a))
    → Ensures Q (r >>= f)
bind_ok-Ensures Q (err _) f k = tt
bind_ok-Ensures Q (ok a) f k = k a refl

-- A call whose continuation returns whatever another one returns.
pub bind-ok_map {ℓ κ} :
    {A : Type ℓ} {B : Type κ} {b : B} (r : Result A) (f g : A → Result B)
    → ((a : A) → f a ≡ ok b → g a ≡ ok b)
    → (r >>= f) ≡ ok b
    → (r >>= g) ≡ ok b
bind-ok_map (err _) f g same e = cc
bind-ok_map (ok a) f g same e = same a e

pub bind-any {ℓ κ} :
    {A : Type ℓ} {B : Type κ} (Q : B → Type 0) (r : Result A) (f : A → Result B)
    → ((a : A) → Ensures Q (f a))
    → Ensures Q (r >>= f)
bind-any Q (err _) f k = tt
bind-any Q (ok a) f k = k a

pub Ensures-always {ℓ} :
    {A : Type ℓ} (P : A → Type 0) (r : Result A) → ((a : A) → P a) → Ensures P r
Ensures-always P (ok a) h = h a
Ensures-always P (err _) h = tt

abbrev pub Returns {ℓ} : {A : Type ℓ} → Result A → Type 0
Returns (ok _) = Unit
Returns (err _) = ⊥

pub Returns-eq_ok {ℓ} : {A : Type ℓ} (r : Result A) → Returns r → (a : A) × (r ≡ ok a)
Returns-eq_ok (ok a) h = (a, refl)
Returns-eq_ok (err _) h = absurd h
