-- ===== src/Domain/Validation/Tradable.antt =====
-- The meaning of an empty list of errors, apart from the order of the checks.
use mathlib.Core.Path.{subst}
use mathlib.Core.Logic.{◌↔◌, ◌≢◌}
use text.Mathlib.Text.{◌==◌ as str_eq}
use text.Mathlib.TextEquality.{eq_iff}
use research_platform.Prelude.{
  ℕ, zero, suc, ◌^◌, ◌≤◌, ◌≡◌, refl, sym, Bool, true, false, not, ◌&&◌, Bool-cases, inl, inr,
  Option, none, some, String, [], arith,
}
use research_platform.Prelude.Int.{ℤ, pos, negsuc, leb_ℤ, ◌*ℤ◌}
use research_platform.Decimal
use research_platform.Decimal.{Decimal, zero_decimal}
use research_platform.Domain.Signal.{Direction, long, short, SignalSpec}
use research_platform.Domain.Validation.{validate_signal, is_positive, beyond, near_edge, far_edge}
use research_platform.Domain.Validation.Accepted.{
  IsAccepted, Holds, validate_signal-IsAccepted, IsAccepted-validate_signal,
}

abbrev pub IsPositive : Decimal → Type 0
IsPositive d = (n : ℕ) × (d.int ≡ pos (suc n))

-- `P` holds of the value, if there is one.
abbrev pub IfGiven : (Decimal → Type 0) → Option Decimal → Type 0
IfGiven P none = Unit
IfGiven P (some d) = P d

abbrev IsBelow : Decimal → Decimal → Type 0
IsBelow a b = Decimal.lt a b ≡ true

-- A long has its stop below the zone and its targets above it, rising; a short the other way round.
abbrev pub IsChain : Direction → SignalSpec → Type 0
IsChain long s =
    IsBelow s.stop s.entry_zone_low
    × IsBelow s.entry_zone_high s.target1
    × IfGiven (λ second. IsBelow s.target1 second) s.target2
IsChain short s =
    IsBelow s.entry_zone_high s.stop
    × IsBelow s.target1 s.entry_zone_low
    × IfGiven (λ second. IsBelow second s.target1) s.target2

pub record IsTradable (normal : String → String) (s : SignalSpec) : Type 0 where
  pub is_named : s.ticker ≢ ""
  pub is_normal : s.ticker ≡ normal s.ticker
  pub lasts : (n : ℕ) × (s.valid_sessions ≡ pos n) × (1 ≤ n) × (n ≤ 20)
  pub low_positive : IsPositive s.entry_zone_low
  pub high_positive : IsPositive s.entry_zone_high
  pub stop_positive : IsPositive s.stop
  pub target1_positive : IsPositive s.target1
  pub target2_positive : IfGiven IsPositive s.target2
  pub trigger_positive : IfGiven IsPositive s.trigger_price
  pub zone : Decimal.le s.entry_zone_low s.entry_zone_high ≡ true
  pub chain : IsChain s.direction s

ten_pow : (k : ℕ) → 1 ≤ 10 ^ k
ten_pow zero = omega arith
ten_pow (suc k) = omega (arith, ten_pow k)

scaled_positive :
    (a : ℤ) (p q : ℕ)
    → 1 ≤ p
    → not (leb_ℤ (a *ℤ pos p) (pos 0 *ℤ pos q)) ≡ true
    → (n : ℕ) × (a ≡ pos (suc n))
unfolding ◌*ℤ◌
scaled_positive (pos zero) p q h k = ground (arith, h, k)
scaled_positive (pos (suc n)) p q h k = (n, refl)
scaled_positive (negsuc n) p q h k = ground (arith, h, k)

positive_scaled : (n p q : ℕ) → 1 ≤ p → not (leb_ℤ (pos (suc n) *ℤ pos p) (pos 0 *ℤ pos q)) ≡ true
unfolding ◌*ℤ◌
positive_scaled n p q h = ground (arith, h)

is_positive-IsPositive : (d : Decimal) → (is_positive d ≡ true) ↔ IsPositive d
unfolding Decimal.le
is_positive-IsPositive d =
    (scaled_positive d.int _ _ (ten_pow _), λ (n, e). rw e (positive_scaled n _ _ (ten_pow _)))

Holds-IfGiven :
    (test : Decimal → Bool) (P : Decimal → Type 0) (o : Option Decimal)
    → ((d : Decimal) → test d ≡ true → P d)
    → Holds test o
    → IfGiven P o
Holds-IfGiven test P none f h = tt
Holds-IfGiven test P (some d) f h = f d h

IfGiven-Holds :
    (test : Decimal → Bool) (P : Decimal → Type 0) (o : Option Decimal)
    → ((d : Decimal) → P d → test d ≡ true)
    → IfGiven P o
    → Holds test o
IfGiven-Holds test P none f h = tt
IfGiven-Holds test P (some d) f h = f d h

sessions-lasts :
    (v : ℤ)
    → ((leb_ℤ (pos 1) v && leb_ℤ v (pos 20)) ≡ true) ↔ ((n : ℕ) × (v ≡ pos n) × (1 ≤ n) × (n ≤ 20))
sessions-lasts (pos n) = (
  λ h. (n, refl, ground (arith, h), ground (arith, h)),
  λ (m, e, lo, hi).
      subst (λ v. (leb_ℤ (pos 1) v && leb_ℤ v (pos 20)) ≡ true) (sym e) (ground (arith, lo, hi)),
)
sessions-lasts (negsuc n) = (λ h. ground (arith, h), λ (m, e, lo, hi). absurd cc)

name_split : (a b : Bool) → (not a && b ≡ true) ↔ ((a ≡ false) × (b ≡ true))
name_split true b = (λ h. absurd cc, λ h. absurd cc)
name_split false b = (λ h. (refl, h), λ h. h.1)

str_eq-false : (s t : String) → (str_eq s t ≡ false) ↔ (s ≢ t)
str_eq-false s t = (
  λ h e. let same : str_eq s t ≡ true = (eq_iff s t).1 e in absurd cc,
  λ h. elim (Bool-cases (str_eq s t)) [ inl e ↦ absurd (h ((eq_iff s t).0 e)) | inr e ↦ e ],
)

chain_of :
    (d : Direction) (s : SignalSpec)
    → ((beyond d s.stop (near_edge s d) ≡ true)
        × (beyond d (far_edge s d) s.target1 ≡ true)
        × Holds (beyond d s.target1) s.target2)
      ↔ IsChain d s
chain_of long s = (
  λ (a, b, c). (a, b, Holds-IfGiven _ _ s.target2 (λ _ h. h) c),
  λ (a, b, c). (a, b, IfGiven-Holds _ _ s.target2 (λ _ h. h) c),
)
chain_of short s = (
  λ (a, b, c). (a, b, Holds-IfGiven _ _ s.target2 (λ _ h. h) c),
  λ (a, b, c). (a, b, IfGiven-Holds _ _ s.target2 (λ _ h. h) c),
)

IsAccepted-IsTradable :
    (normal : String → String) (s : SignalSpec) → IsAccepted normal s → IsTradable normal s
IsAccepted-IsTradable normal s h =
    let (given, same) = (name_split _ _).0 h.ticker in
    record {
      is_named = (str_eq-false s.ticker "").0 given;
      is_normal = (eq_iff s.ticker (normal s.ticker)).0 same;
      lasts = (sessions-lasts s.valid_sessions).0 h.sessions;
      low_positive = (is_positive-IsPositive _).0 h.low_positive;
      high_positive = (is_positive-IsPositive _).0 h.high_positive;
      stop_positive = (is_positive-IsPositive _).0 h.stop_positive;
      target1_positive = (is_positive-IsPositive _).0 h.target1_positive;
      target2_positive =
          Holds-IfGiven is_positive IsPositive s.target2 (λ d. (is_positive-IsPositive d).0)
            h.target2_positive;
      trigger_positive =
          Holds-IfGiven is_positive IsPositive s.trigger_price (λ d. (is_positive-IsPositive d).0)
            h.trigger_positive;
      zone = h.zone;
      chain = (chain_of s.direction s).0 (h.stop_beyond, h.target1_beyond, h.target2_beyond);
    }

IsTradable-IsAccepted :
    (normal : String → String) (s : SignalSpec) → IsTradable normal s → IsAccepted normal s
IsTradable-IsAccepted normal s h =
    let (stop, first, second) = (chain_of s.direction s).1 h.chain in
    record {
      ticker = (name_split _ _).1 (
        (str_eq-false s.ticker "").1 h.is_named,
        (eq_iff s.ticker (normal s.ticker)).1 h.is_normal,
      );
      low_positive = (is_positive-IsPositive _).1 h.low_positive;
      high_positive = (is_positive-IsPositive _).1 h.high_positive;
      stop_positive = (is_positive-IsPositive _).1 h.stop_positive;
      target1_positive = (is_positive-IsPositive _).1 h.target1_positive;
      target2_positive =
          IfGiven-Holds is_positive IsPositive s.target2 (λ d. (is_positive-IsPositive d).1)
            h.target2_positive;
      trigger_positive =
          IfGiven-Holds is_positive IsPositive s.trigger_price (λ d. (is_positive-IsPositive d).1)
            h.trigger_positive;
      sessions = (sessions-lasts s.valid_sessions).1 h.lasts;
      zone = h.zone;
      stop_beyond = stop;
      target1_beyond = first;
      target2_beyond = second;
    }

-- `validate_signal` reports no error just for the signals whose ticker is in normal form and not
-- empty, whose prices are positive, whose validity is 1 to 20 sessions, whose zone is not inverted,
-- and whose stop and targets lie beyond the zone: stop below and targets rising above it for a
-- long, stop above and targets falling below it for a short.
pub validate_signal-IsTradable :
    (normal : String → String) (s : SignalSpec)
    → (validate_signal normal s ≡ []) ↔ IsTradable normal s
validate_signal-IsTradable normal s = (
  λ h. IsAccepted-IsTradable normal s (validate_signal-IsAccepted normal s h),
  λ h. IsAccepted-validate_signal normal s (IsTradable-IsAccepted normal s h),
)
