-- ===== src/Decimal.antt =====
-- Python's `decimal.Decimal` as src/core/domain and src/core/fills/v1 use it: finite values under the
-- contexts `V1_CONTEXT` and `CANONICAL_CONTEXT`, both `Context(prec=28, rounding=ROUND_HALF_EVEN)`.
-- A value is `int` × 10 ^ `exp`. Comparisons are exact; every arithmetic operation, unary minus
-- and `abs` included, rounds to 28 digits. The limits of the exponent (±999999) and the sign of
-- zero are not modelled.
use research_platform.Prelude.{
  ℕ, zero, suc, ◌+◌, ◌*◌, ◌/◌, ◌%◌, ◌^◌, Bool, ◌||◌, ◌&&◌, ltb, ◌==◌, if◌then◌else◌,
}
use research_platform.Prelude.Int.{
  ℤ, pos, pos_part, neg_part, nat_abs, neg_ℤ, with_sign, ◌+ℤ◌, ◌-ℤ◌, ◌*ℤ◌, ltb_ℤ, leb_ℤ,
}
use research_platform.Result.{Result, ok, err, zero_division, invalid_operation}

pub record Decimal : Type 0 where
  pub int : ℤ
  pub exp : ℤ

abbrev pub from_ℕ : ℕ → Decimal
from_ℕ n = record { int = pos n; exp = pos 0 }

-- `Decimal("0")`
abbrev pub zero_decimal : Decimal
zero_decimal = from_ℕ 0

abbrev prec_limit : ℕ
prec_limit = 10 ^ 28

-- How many digits of `n` stand beyond the 28 that are kept.
excess_fuel : ℕ → ℕ → ℕ
excess_fuel zero n = 0
excess_fuel (suc f) n =
    let more = suc (excess_fuel f (n / 10)) in if ltb n prec_limit then 0 else more

unfoldable pub excess : ℕ → ℕ
unfolding excess_fuel
excess n = excess_fuel n n

-- `n / 10 ^ k`, a tie going to the even neighbour.
unfoldable pub half_even : ℕ → ℕ → ℕ
half_even n k =
    let q = n / 10 ^ k in
    let r = 2 * (n % 10 ^ k) in
    if ltb (10 ^ k) r || ((r == 10 ^ k) && (q % 2 == 1)) then q + 1 else q

-- The magnitude and the number of digits dropped, once a carry into a 29th digit is dropped too.
unfoldable pub round_nat : ℕ → ℕ × ℕ
unfolding excess half_even
round_nat n =
    let k = excess n in
    if k == 0
    then (n, 0)
    else (let q = half_even n k in if q == prec_limit then (q / 10, k + 1) else (q, k))

unfoldable pub round : Decimal → Decimal
unfolding round_nat
round d =
    let (m, k) = round_nat (nat_abs d.int) in
    record { int = with_sign d.int m; exp = d.exp +ℤ pos k }

-- `copy_negate`: the exact negation.
abbrev pub negated : Decimal → Decimal
negated d = record d { int = neg_ℤ d.int }

-- `-d`
unfoldable pub neg : Decimal → Decimal
unfolding round
neg d = round (negated d)

-- `abs(d)`
unfoldable pub abs : Decimal → Decimal
unfolding round
abs d = round (record d { int = pos (nat_abs d.int) })

-- Two coefficients over the smaller of the two exponents, and that exponent.
abbrev pub aligned : Decimal → Decimal → ℤ × ℤ × ℤ
aligned a b =
    let apart = a.exp -ℤ b.exp in
    (
      a.int *ℤ pos (10 ^ pos_part apart),
      b.int *ℤ pos (10 ^ neg_part apart),
      a.exp -ℤ pos (pos_part apart),
    )

unfoldable pub add : Decimal → Decimal → Decimal
unfolding round
add a b = let (x, y, e) = aligned a b in round (record { int = x +ℤ y; exp = e })

unfoldable pub sub : Decimal → Decimal → Decimal
unfolding add
sub a b = add a (negated b)

unfoldable pub mul : Decimal → Decimal → Decimal
unfolding round
mul a b = round (record { int = a.int *ℤ b.int; exp = a.exp +ℤ b.exp })

-- How many decimal digits `n` has; 0 for 0.
digits_fuel : ℕ → ℕ → ℕ
digits_fuel zero n = 0
digits_fuel (suc f) n = let more = suc (digits_fuel f (n / 10)) in if n == 0 then 0 else more

unfoldable pub num_digits : ℕ → ℕ
unfolding digits_fuel
num_digits n = digits_fuel n n

-- The quotient to at least 29 digits; the last digit records that a remainder was dropped.
sticky : ℕ → ℕ → ℕ
sticky q r = if r == 0 then q else if q % 5 == 0 then q + 1 else q

-- `a / b` for `b` other than zero.
unfoldable pub quotient : Decimal → Decimal → Decimal
unfolding num_digits sticky round
quotient a b =
    let n = nat_abs a.int in
    let d = nat_abs b.int in
    let shift = pos (num_digits d + 29) -ℤ pos (num_digits n) in
    let n' = n * 10 ^ pos_part shift in
    let d' = d * 10 ^ neg_part shift in
    let m = sticky (n' / d') (n' % d') in
    round (record { int = with_sign a.int 1 *ℤ with_sign b.int m; exp = a.exp -ℤ b.exp -ℤ shift })

abbrev pub is_zero : Decimal → Bool
is_zero d = nat_abs d.int == 0

-- `a / b`, where a zero divisor raises. For 0 / 0 the language's error is `InvalidOperation`, which the
-- model does not tell apart from `DivisionByZero`.
unfoldable pub div : Decimal → Decimal → Result Decimal
div a b = if is_zero b then err zero_division else ok (quotient a b)

unfoldable pub lt : Decimal → Decimal → Bool
lt a b = let (x, y, _) = aligned a b in ltb_ℤ x y

unfoldable pub le : Decimal → Decimal → Bool
le a b = let (x, y, _) = aligned a b in leb_ℤ x y

-- `min(a, b)` and `max(a, b)` of the language: the first of two equal values.
unfoldable pub min : Decimal → Decimal → Decimal
min a b = if lt b a then b else a

unfoldable pub max : Decimal → Decimal → Decimal
max a b = if lt a b then b else a

-- `a.quantize(Decimal(10) ** -places)`: too many digits raise `InvalidOperation`.
unfoldable pub quantize : Decimal → (places : ℕ) → Result Decimal
unfolding half_even
quantize a places =
    let gap = a.exp +ℤ pos places in
    let m = half_even (nat_abs a.int * 10 ^ pos_part gap) (neg_part gap) in
    if ltb m prec_limit
    then ok (record { int = with_sign a.int m; exp = neg_ℤ (pos places) })
    else err invalid_operation
