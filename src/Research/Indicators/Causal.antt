-- ===== src/Research/Indicators/Causal.antt =====
-- Indicators on a series of candles that goes on.
use mathlib.Core.Path.{subst}
use mathlib.Core.List.{append-nil}
use research_platform.Prelude.{
  ℕ, zero, suc, ◌+◌, ◌-◌, ◌≤◌, ◌<◌, ◌≡◌, refl, sym, ap, true, Bool-cases, inl, inr, Option, none,
  some, List, [], ◌∷◌, ◌++◌, map, length, length-append, take, drop, drop-append, take-append_le,
  length-drop, replicate, IsPrefix, range, range-append, ltb, ltb→lt, ltb→ge, arith,
}
use research_platform.Decimal
use research_platform.Decimal.{Decimal, zero_decimal, from_ℕ}
use research_platform.Result.{Result, ok, err, ◌>>=◌, Ensures, Ensures-always, bind-any}
use research_platform.Research.Candle.{Candle}
use research_platform.Research.Indicators.{
  quantize_price, require_period, sum_of, smooth_from, smoothed, ema, ema_step, wilder, wilder_step,
  ranges_from, true_ranges, quantize_each, each, atr, volume_before, rolling_average_volume, closes,
}

-- If the call on the longer series returns, so does the call on the shorter one, with the first of
-- the values.
abbrev pub IsCausal : {A : Type 0} → (short long : Result (List A)) → Type 0
IsCausal {A} short long = Ensures (λ f. (part : List A) × (short ≡ ok part) × IsPrefix part f) long

-- A function of lists that keeps prefixes.
abbrev Keeps : {A B : Type 0} → (List A → List B) → Type 0
Keeps {A} f = (xs ys : List A) → IsPrefix xs ys → IsPrefix (f xs) (f ys)

map-IsCausal :
    {A B : Type 0} (f : List A → List B) (short long : Result (List A))
    → Keeps f
    → IsCausal short long
    → IsCausal (short >>= λ xs. ok (f xs)) (long >>= λ xs. ok (f xs))
map-IsCausal f short (err _) keeps h = tt
map-IsCausal f short (ok full) keeps (part, e, p) =
    (f part, ap (λ r. r >>= λ xs. ok (f xs)) e, keeps part full p)

bind-IsCausal :
    {A B C : Type 0} (m : Result A) (f : A → List B → List C) (short long : A → Result (List B))
    → ((a : A) → Keeps (f a))
    → ((a : A) → IsCausal (short a) (long a))
    → IsCausal (m >>= λ a. short a >>= λ xs. ok (f a xs)) (m >>= λ a. long a >>= λ xs. ok (f a xs))
bind-IsCausal (err _) f short long keeps h = tt
bind-IsCausal (ok a) f short long keeps h = map-IsCausal (f a) (short a) (long a) (keeps a) (h a)

cons-Keeps : {A : Type 0} (x : A) → Keeps (λ xs. x ∷ xs)
cons-Keeps x xs ys (more, p) = (more, ap (λ zs. x ∷ zs) p)

after-Keeps : {A : Type 0} (before : List A) (x : A) → Keeps (λ xs. before ++ x ∷ xs)
after-Keeps [] x xs ys h = cons-Keeps x xs ys h
after-Keeps (b ∷ before) x xs ys h =
    cons-Keeps b (before ++ x ∷ xs) (before ++ x ∷ ys) (after-Keeps before x xs ys h)

smooth_from-IsCausal :
    (emit : Decimal → Result Decimal) (step : Decimal → Decimal → Decimal) (current : Decimal)
    (xs ys : List Decimal)
    → IsCausal (smooth_from emit step current xs) (smooth_from emit step current (xs ++ ys))
unfolding smooth_from
smooth_from-IsCausal emit step current [] ys =
    Ensures-always _ (smooth_from emit step current ys) (λ f. ([], refl, (f, refl)))
smooth_from-IsCausal emit step current (x ∷ xs) ys =
    bind-IsCausal (emit (step current x)) (λ out rest. some out ∷ rest)
      (λ _. smooth_from emit step (step current x) xs)
      (λ _. smooth_from emit step (step current x) (xs ++ ys)) (λ out. cons-Keeps (some out))
      (λ _. smooth_from-IsCausal emit step (step current x) xs ys)

replicate-prefix :
    {A : Type 0} (m n : ℕ) (x : A) (tail : List A)
    → m ≤ n
    → IsPrefix (replicate m x) (replicate n x ++ tail)
replicate-prefix zero n x tail h = (_, refl)
replicate-prefix (suc m) zero x tail h = absurd (omega (arith, h))
replicate-prefix (suc m) (suc n) x tail h =
    let (more, p) = replicate-prefix m n x tail (omega (arith, h)) in (more, ap (λ zs. x ∷ zs) p)

blanks-prefix : (m n : ℕ) (x : Option Decimal) → m ≤ n → IsPrefix (replicate m x) (replicate n x)
blanks-prefix m n x h =
    subst (IsPrefix (replicate m x)) (append-nil (replicate n x)) (replicate-prefix m n x [] h)

abbrev seed_of : ℕ → List Decimal → Decimal
seed_of period values = Decimal.quotient (sum_of zero_decimal (take period values)) (from_ℕ period)

guarded-IsCausal :
    {A : Type 0} (check : Result (Unit {0})) (short long : Result (List A))
    → IsCausal short long
    → IsCausal (check >>= λ _. short) (check >>= λ _. long)
guarded-IsCausal (err _) short long h = tt
guarded-IsCausal (ok _) short long h = h

smoothed-IsCausal :
    (emit : Decimal → Result Decimal) (step : Decimal → Decimal → Decimal) (period : ℕ)
    (xs ys : List Decimal)
    → IsCausal (smoothed emit step period xs) (smoothed emit step period (xs ++ ys))
unfolding smoothed
smoothed-IsCausal emit step period xs ys = elim (Bool-cases (ltb (length (xs ++ ys)) period)) [
  | inl short ↦
      let also : ltb (length xs) period ≡ true =
        ground (arith, length-append xs ys, ltb→lt _ _ short) in
      rw (short, also)
        (
          replicate (length xs) none,
          refl,
          blanks-prefix (length xs) (length (xs ++ ys)) none (omega (arith, length-append xs ys)),
        )
  | inr long ↦ elim (Bool-cases (ltb (length xs) period)) [
    | inl few ↦
        rw (long, few)
          (bind-any _ (emit _) _ λ out.
            bind-any _ (smooth_from emit step _ (drop period (xs ++ ys))) _ λ rest. (
              replicate (length xs) none,
              refl,
              replicate-prefix (length xs) (period - 1) none (some out ∷ rest)
                  (omega (arith, ltb→lt _ _ few)),
            ))
    | inr enough ↦
        let fits : period ≤ length xs = ltb→ge _ _ enough in
        rw (long, enough, take-append_le period xs ys fits, drop-append period xs ys fits)
          (bind-IsCausal (emit (seed_of period xs))
            (λ out rest. replicate (period - 1) none ++ some out ∷ rest)
            (λ _. smooth_from emit step (seed_of period xs) (drop period xs))
            (λ _. smooth_from emit step (seed_of period xs) (drop period xs ++ ys))
            (λ out. after-Keeps (replicate (period - 1) none) (some out))
            (λ _. smooth_from-IsCausal emit step (seed_of period xs) (drop period xs) ys))
  ]
]

ema-IsCausal :
    (xs ys : List Decimal) (period : ℕ) → IsCausal (ema xs period) (ema (xs ++ ys) period)
unfolding ema
ema-IsCausal xs ys period =
    guarded-IsCausal (require_period period) _ _
      (smoothed-IsCausal quantize_price (ema_step period) period xs ys)

each-IsCausal :
    {A B : Type 0} (f : A → Result B) (xs ys : List A) → IsCausal (each f xs) (each f (xs ++ ys))
unfolding each
each-IsCausal f [] ys = Ensures-always _ (each f ys) (λ full. ([], refl, (full, refl)))
each-IsCausal f (x ∷ xs) ys =
    bind-IsCausal (f x) (λ b bs. b ∷ bs) (λ _. each f xs) (λ _. each f (xs ++ ys))
      (λ b. cons-Keeps b) (λ _. each-IsCausal f xs ys)

-- A call on a prefix of what a causal call returns.
then-IsCausal :
    {A B : Type 0} (short long : Result (List A)) (f : List A → Result (List B))
    → ((xs ys : List A) → IsCausal (f xs) (f (xs ++ ys)))
    → IsCausal short long
    → IsCausal (short >>= f) (long >>= f)
then-IsCausal short (err _) f causal h = tt
then-IsCausal short (ok full) f causal (part, e, (more, p)) = rw (e, p) (causal part more)

ranges_from-prefix :
    (previous : Decimal) (cs ds : List Candle)
    → IsPrefix (ranges_from previous cs) (ranges_from previous (cs ++ ds))
unfolding ranges_from
ranges_from-prefix previous [] ds = (ranges_from previous ds, refl)
ranges_from-prefix previous (c ∷ cs) ds = cons-Keeps _ _ _ (ranges_from-prefix c.close cs ds)

true_ranges-prefix : (cs ds : List Candle) → IsPrefix (true_ranges cs) (true_ranges (cs ++ ds))
unfolding true_ranges
true_ranges-prefix [] ds = (true_ranges ds, refl)
true_ranges-prefix (c ∷ cs) ds = cons-Keeps _ _ _ (ranges_from-prefix c.close cs ds)

atr-IsCausal : (cs ds : List Candle) (period : ℕ) → IsCausal (atr cs period) (atr (cs ++ ds) period)
unfolding atr wilder
atr-IsCausal cs ds period =
    let (more, p) = true_ranges-prefix cs ds in
    guarded-IsCausal (require_period period) _ _ (
      then-IsCausal _ _ (each (quantize_each quantize_price))
        (each-IsCausal (quantize_each quantize_price))
        (subst
          (λ rs.
            IsCausal (smoothed (λ d. ok d) (wilder_step period) period (true_ranges cs))
              (smoothed (λ d. ok d) (wilder_step period) period rs))
          (sym p)
          (smoothed-IsCausal (λ d. ok d) (wilder_step period) period (true_ranges cs) more)))

-- The mean before an index does not read the volumes from the index on.
volume_before-append :
    (vs ws : List Decimal) (lookback index : ℕ)
    → index ≤ length vs
    → volume_before (vs ++ ws) lookback index ≡ volume_before vs lookback index
volume_before-append vs ws lookback index h = elim (Bool-cases (ltb index lookback)) [
  | inl early ↦ rw early refl
  | inr later ↦
      let fits : lookback ≤ length (drop (index - lookback) vs) =
        omega (arith, length-drop (index - lookback) vs, ltb→ge _ _ later, h) in
      rw
        (
          later,
          drop-append (index - lookback) vs ws (omega (arith, h)),
          take-append_le lookback (drop (index - lookback) vs) ws fits,
        )
        refl
]

each-range :
    {B : Type 0} (f g : ℕ → Result B) (start count : ℕ)
    → ((i : ℕ) → i < start + count → f i ≡ g i)
    → each f (range start count) ≡ each g (range start count)
unfolding each
each-range f g start zero same = refl
each-range f g start (suc count) same =
    rw
      (
        same start (omega arith),
        each-range f g (suc start) count (λ i h. same i (omega (arith, h))),
      )
      refl

map-append : {A B : Type 0} (f : A → B) (xs ys : List A) → map f (xs ++ ys) ≡ map f xs ++ map f ys
map-append f [] ys = refl
map-append f (x ∷ xs) ys = ap (λ zs. f x ∷ zs) (map-append f xs ys)

length-map : {A B : Type 0} (f : A → B) (xs : List A) → length (map f xs) ≡ length xs
length-map f [] = refl
length-map f (x ∷ xs) = ap suc (length-map f xs)

rolling_average_volume-IsCausal :
    (cs ds : List Candle) (lookback : ℕ)
    → IsCausal (rolling_average_volume cs lookback) (rolling_average_volume (cs ++ ds) lookback)
unfolding rolling_average_volume
rolling_average_volume-IsCausal cs ds lookback =
    let vs : List Decimal = map (λ c. c.volume) cs in
    let ws : List Decimal = map (λ c. c.volume) ds in
    let indices : range 0 (length (cs ++ ds))
        ≡ range 0 (length cs) ++ range (length cs) (length ds) =
      range-append 0 (length cs) (length ds) (length (cs ++ ds)) (length cs) (length-append cs ds)
        (omega arith) in
    let volumes : map (λ c. c.volume) (cs ++ ds) ≡ vs ++ ws = map-append (λ c. c.volume) cs ds in
    let same =
      each-range (volume_before vs lookback) (volume_before (vs ++ ws) lookback) 0 (length cs)
        (λ i h. sym (
          volume_before-append vs ws lookback i
            (omega (arith, h, length-map (λ c. c.volume) cs)))) in
    guarded-IsCausal (require_period lookback) _ _ (
      rw (volumes, indices, same)
        (each-IsCausal (volume_before (vs ++ ws) lookback) (range 0 (length cs))
          (range (length cs) (length ds))))

-- If `ema`, `atr` or `rolling_average_volume` returns on a longer series of candles, it returns on
-- the shorter one, and its values there are the first ones: no value reads a later candle.
pub indicators-IsCausal :
    (cs later : List Candle) (period : ℕ)
    → IsCausal (ema (closes cs) period) (ema (closes (cs ++ later)) period)
      × IsCausal (atr cs period) (atr (cs ++ later) period)
      × IsCausal (rolling_average_volume cs period) (rolling_average_volume (cs ++ later) period)
indicators-IsCausal cs later period = (
  subst (λ vs. IsCausal (ema (closes cs) period) (ema vs period))
      (sym (map-append (λ c. c.close) cs later)) (ema-IsCausal (closes cs) (closes later) period),
  atr-IsCausal cs later period,
  rolling_average_volume-IsCausal cs later period,
)
