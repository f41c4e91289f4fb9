-- ===== src/Research/Context/Causal.antt =====
-- src/virtual_orders/research/market_structure.py on a series of candles that goes on.
use mathlib.Core.List.{append-nil, append_assoc}
use research_platform.Prelude.{
  ℕ, zero, suc, ◌+◌, ◌-◌, ◌≤◌, ◌<◌, ◌≡◌, refl, sym, ap, ◌∙◌, Bool, false, Bool-cases, inl, inr,
  Option-cases, none, some, List, [], ◌∷◌, ◌++◌, length, length-append, drop, drop-append,
  take-append_le, length-drop, filter, range, range-append, get_elem?, get_elem?-append, ltb, leb,
  ◌||◌, arith,
}
use research_platform.Result.{ok, ok-injective}
use research_platform.Research.Candle.{Candle}
use research_platform.Research.Swings.{
  SwingPoint, usable_at, pivots_at, pivots_over, neighbours, swing_points, confirmed_swings,
}
use research_platform.Research.Context.{
  IndicatorSeries, usable_swings, structure_at, previous_candle,
}

neighbours-append :
    (cs ds : List Candle) (left right i : ℕ)
    → left ≤ i
    → i + right < length cs
    → neighbours (cs ++ ds) left right i ≡ neighbours cs left right i
neighbours-append cs ds left right i h k =
    let before : left ≤ length (drop (i - left) cs) =
      omega (arith, length-drop (i - left) cs, h, k) in
    let after : right ≤ length (drop (suc i) cs) = omega (arith, length-drop (suc i) cs, k) in
    rw
      (
        drop-append (i - left) cs ds (omega (arith, k)),
        drop-append (suc i) cs ds (omega (arith, k)),
        take-append_le left (drop (i - left) cs) ds before,
        take-append_le right (drop (suc i) cs) ds after,
      )
      refl

pivots_at-append :
    (cs ds : List Candle) (left right i : ℕ)
    → left ≤ i
    → i + right < length cs
    → pivots_at (cs ++ ds) left right i ≡ pivots_at cs left right i
pivots_at-append cs ds left right i h k =
    rw (get_elem?-append cs ds i (omega (arith, k)), neighbours-append cs ds left right i h k) refl

pivots_over-append :
    (cs ds : List Candle) (left right start count : ℕ)
    → left ≤ start
    → ((i : ℕ) → start ≤ i → i < start + count → i + right < length cs)
    → pivots_over (cs ++ ds) left right (range start count)
      ≡ pivots_over cs left right (range start count)
unfolding pivots_over
pivots_over-append cs ds left right start zero h inside = refl
pivots_over-append cs ds left right start (suc count) h inside =
    rw
      (
        pivots_at-append cs ds left right start h (inside start (omega arith) (omega arith)),
        pivots_over-append cs ds left right (suc start) count (omega (arith, h))
            (λ i lo hi. inside i (omega (arith, lo)) (omega (arith, hi))),
      )
      refl

pivots_over-split :
    (cs : List Candle) (left right : ℕ) (is js : List ℕ)
    → pivots_over cs left right (is ++ js)
      ≡ pivots_over cs left right is ++ pivots_over cs left right js
unfolding pivots_over
pivots_over-split cs left right [] js = refl
pivots_over-split cs left right (i ∷ is) js =
    ap (λ ps. pivots_at cs left right i ++ ps) (pivots_over-split cs left right is js)
    ∙ sym (append_assoc (pivots_at cs left right i) _ _)

filter-append :
    {A : Type 0} (test : A → Bool) (xs ys : List A)
    → filter test (xs ++ ys) ≡ filter test xs ++ filter test ys
filter-append test [] ys = refl
filter-append test (x ∷ xs) ys = elim (Bool-cases (test x)) [
  | inl t ↦ rw t (ap (λ zs. x ∷ zs) (filter-append test xs ys))
  | inr f ↦ rw f (filter-append test xs ys)
]

usable_swings-append :
    (xs ys : List SwingPoint) (index : ℕ)
    → usable_swings (xs ++ ys) index ≡ usable_swings xs index ++ usable_swings ys index
usable_swings-append xs ys index =
    ap (filter (λ p. ltb p.index index)) (filter-append (λ p. usable_at p index) xs ys)
    ∙ filter-append (λ p. ltb p.index index) (confirmed_swings xs index) (confirmed_swings ys index)

-- A pivot that is confirmed after the index is not usable at it.
usable_swings-late :
    (cs : List Candle) (left right i index : ℕ)
    → index < i + right
    → usable_swings (pivots_at cs left right i) index ≡ []
usable_swings-late cs left right i index h =
    let late : leb (i + right) index ≡ false = ground arith in
    elim (Option-cases (get_elem? cs i)) [
      | inl gone ↦ rw gone refl
      | inr (c, found) ↦ rw found (ground (arith, late))
    ]

usable_swings-late_range :
    (cs : List Candle) (left right start count index : ℕ)
    → index < start + right
    → usable_swings (pivots_over cs left right (range start count)) index ≡ []
unfolding pivots_over
usable_swings-late_range cs left right start zero index h = refl
usable_swings-late_range cs left right start (suc count) index h =
    usable_swings-append (pivots_at cs left right start) _ index
    ∙ rw
        (
          usable_swings-late cs left right start index h,
          usable_swings-late_range cs left right (suc start) count index (omega (arith, h)),
        )
        refl

-- What is usable at an index does not depend on later candles.
usable_swings-pivots_over :
    (cs ds : List Candle) (left right index : ℕ)
    → index < length cs
    → usable_swings
        (pivots_over (cs ++ ds) left right (range left (length (cs ++ ds) - right - left)))
        index
      ≡ usable_swings (pivots_over cs left right (range left (length cs - right - left))) index
usable_swings-pivots_over cs ds left right index h =
    let short : ℕ = length cs - right - left in
    let total : ℕ = length (cs ++ ds) - right - left in
    let parts =
      range-append left short (total - short) total (left + short)
        (omega (arith, length-append cs ds)) refl in
    ap (λ is. usable_swings (pivots_over (cs ++ ds) left right is) index) parts
    ∙ (ap (λ ps. usable_swings ps index)
          (pivots_over-split (cs ++ ds) left right (range left short)
            (range (left + short) (total - short)))
        ∙ (usable_swings-append (pivots_over (cs ++ ds) left right (range left short)) _ index
            ∙ (rw
                (
                  pivots_over-append cs ds left right left short (omega arith)
                      (λ i lo hi. omega (arith, lo, hi)),
                  usable_swings-late_range (cs ++ ds) left right (left + short) (total - short)
                      index (omega (arith, h)),
                )
                (append-nil _))))

previous_candle-append :
    (cs ds : List Candle) (index : ℕ)
    → index < length cs
    → previous_candle (cs ++ ds) index ≡ previous_candle cs index
previous_candle-append cs ds zero h = refl
previous_candle-append cs ds (suc i) h = get_elem?-append cs ds i (omega (arith, h))

-- Candles after the index do not change what `structure_at` returns, errors included, whether it
-- computes the pivots itself or is handed those of the longer series: no pivot is read before it is
-- confirmed.
pub structure_at-append :
    (cs later : List Candle) (index left right : ℕ) (series : IndicatorSeries)
    (points : List SwingPoint)
    → index < length cs
    → swing_points (cs ++ later) left right ≡ ok points
    → (structure_at (cs ++ later) index series none left right
        ≡ structure_at cs index series none left right)
      × (structure_at cs index series (some points) left right
          ≡ structure_at cs index series none left right)
unfolding structure_at swing_points
structure_at-append cs later index left right series points h e =
    let same = usable_swings-pivots_over cs later left right index h in
    elim (Bool-cases (ltb left 1 || ltb right 1)) [
      | inl bad ↦ cc (rw bad at e)
      | inr good ↦
          let all = ok-injective (rw good at e) in
          (
            rw
                (
                  good,
                  get_elem?-append cs later index h,
                  previous_candle-append cs later index h,
                  same,
                )
                refl,
            rw (good, sym all, same) refl,
          )
    ]
