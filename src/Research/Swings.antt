-- ===== src/Research/Swings.antt =====
-- src/virtual_orders/research/market_structure.py: pivots, and when they are confirmed.
use research_platform.Prelude.{
  range, ℕ, suc, ◌+◌, ◌-◌, Bool, true, false, ◌&&◌, ◌||◌, Option, none, some, List, [], ◌∷◌, ◌++◌,
  filter, ltb, leb, if◌then◌else◌, length, take, drop, get_elem?,
}
use research_platform.Result.{Result, ok, value_error, ◌>>◌, raise_if}
use research_platform.Decimal
use research_platform.Decimal.{Decimal, zero_decimal, from_ℕ}
use research_platform.Research.Candle.{Candle}

pub data SwingKind : Type 0 where
  high low : SwingKind

abbrev pub is_high : SwingKind → Bool
is_high SwingKind.high = true
is_high SwingKind.low = false

pub record SwingPoint : Type 0 where
  pub kind : SwingKind
  pub index : ℕ
  pub ts : ℕ
  pub price : Decimal
  pub confirmed_index : ℕ

-- `SwingPoint.usable_at`
abbrev pub usable_at : SwingPoint → ℕ → Bool
usable_at p index = leb p.confirmed_index index

abbrev pub all_of : (Candle → Bool) → List Candle → Bool
all_of test [] = true
all_of test (c ∷ cs) = test c && all_of test cs

-- The candles `left` before and `right` after the index.
abbrev pub neighbours : List Candle → (left right index : ℕ) → List Candle
neighbours cs left right index =
    take left (drop (index - left) cs) ++ take right (drop (suc index) cs)

abbrev swing_of : SwingKind → ℕ → Candle → (right : ℕ) → SwingPoint
swing_of SwingKind.high index c right = record {
  kind = SwingKind.high;
  index = index;
  ts = c.ts;
  price = c.high;
  confirmed_index = index + right;
}
swing_of SwingKind.low index c right = record {
  kind = SwingKind.low;
  index = index;
  ts = c.ts;
  price = c.low;
  confirmed_index = index + right;
}

abbrev pivot_of : Option Candle → List Candle → (right index : ℕ) → List SwingPoint
pivot_of none window right index = []
pivot_of (some c) window right index =
    (if all_of (λ d. Decimal.lt d.high c.high) window
      then swing_of SwingKind.high index c right ∷ []
      else [])
    ++ (if all_of (λ d. Decimal.lt c.low d.low) window
        then swing_of SwingKind.low index c right ∷ []
        else [])

-- One turn of the loop of `swing_points`.
abbrev pub pivots_at : List Candle → (left right index : ℕ) → List SwingPoint
pivots_at cs left right index =
    pivot_of (get_elem? cs index) (neighbours cs left right index) right index

unfoldable pub pivots_over : List Candle → (left right : ℕ) → List ℕ → List SwingPoint
pivots_over cs left right [] = []
pivots_over cs left right (i ∷ is) = pivots_at cs left right i ++ pivots_over cs left right is

unfoldable pub swing_points : List Candle → (left right : ℕ) → Result (List SwingPoint)
unfolding pivots_over
swing_points cs left right = do
  raise_if (ltb left 1 || ltb right 1) value_error
  ok (pivots_over cs left right (range left (length cs - right - left)))

-- `confirmed_swings`
abbrev pub confirmed_swings : List SwingPoint → ℕ → List SwingPoint
confirmed_swings swings index = filter (λ p. usable_at p index) swings
