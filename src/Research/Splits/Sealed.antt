-- ===== src/Research/Splits/Sealed.antt =====
-- Training data against the period that judges it.
use native.Mathlib.Nat.{div-mul-le_self, mul-le-mul_right, le-div_iff_mul-le}
use research_platform.Prelude.{
  ℕ, zero, suc, ◌+◌, ◌-◌, ◌*◌, ◌/◌, ◌≤◌, ◌<◌, ◌≡◌, refl, Bool, true, false, Bool-cases, inl, inr,
  Option, none, some, List, [], ◌∷◌, All, filter, ltb, ltb→lt, leb→le, and-eq-true, arith, length,
  get_elem?, get_elem?-some, ap, ◌∙◌, range, min,
}
use research_platform.Prelude.Int.{ℤ, pos, negsuc, pos_part}
use research_platform.Result.{
  ok, index_error, or_raise, Ensures, bind-any, bind-Ensures, Ensures-eq_ok, Returns-eq_ok,
}
use research_platform.Research.Splits.{
  Occurrence, Fold, ends_by, purge, before, train_split, fold_at, folds_over, walk_ordered,
  walk_forward, chronological, insert_occurrence, precedes,
}

-- The label, if there is one, ends by the cutoff.
abbrev pub EndsBy : ℕ → Option ℕ → Type 0
EndsBy cutoff none = Unit
EndsBy cutoff (some at) = at ≤ cutoff

-- Every training observation is signalled before the test period, and its label ends the embargo
-- before it; every test observation is signalled in the test period.
pub record IsSealed (embargo : ℤ) (fold : Fold) : Type 0 where
  pub trained :
      All
        (λ a.
          (a.signal_end_ts < fold.test.start)
          × EndsBy (fold.test.start - pos_part embargo) a.label_end_ts)
        fold.train.occurrences
  pub tested :
      All
        (λ a. (fold.test.start ≤ a.signal_end_ts) × (a.signal_end_ts ≤ fold.test.until))
        fold.test.occurrences

filter-All :
    {A : Type 0} (P : A → Type 0) (test : A → Bool) (xs : List A)
    → ((x : A) → test x ≡ true → P x)
    → All P (filter test xs)
filter-All P test [] h = tt
filter-All P test (x ∷ xs) h = elim (Bool-cases (test x)) [
  | inl t ↦ rw t (h x t, filter-All P test xs h)
  | inr f ↦ rw f (filter-All P test xs h)
]

-- What holds of a list still holds of what a filter keeps, with what the filter asks for.
filter-All_both :
    {A : Type 0} (P Q : A → Type 0) (test : A → Bool) (xs : List A)
    → All P xs
    → ((x : A) → test x ≡ true → Q x)
    → All (λ x. P x × Q x) (filter test xs)
filter-All_both P Q test [] h k = tt
filter-All_both P Q test (x ∷ xs) h k = elim (Bool-cases (test x)) [
  | inl t ↦ rw t ((h.0, k x t), filter-All_both P Q test xs h.1 k)
  | inr f ↦ rw f (filter-All_both P Q test xs h.1 k)
]

ends_by-EndsBy : (cutoff : ℕ) (at : Option ℕ) → ends_by cutoff at ≡ true → EndsBy cutoff at
ends_by-EndsBy cutoff none h = tt
ends_by-EndsBy cutoff (some at) h = leb→le at cutoff h

train_split-EndsBy :
    (start boundary : ℕ) (embargo : ℤ) (ordered : List Occurrence)
    → Ensures
        (λ s.
          All
            (λ a.
              (a.signal_end_ts < boundary) × EndsBy (boundary - pos_part embargo) a.label_end_ts)
            s.occurrences)
        (train_split start boundary embargo (before boundary ordered))
unfolding train_split purge
train_split-EndsBy start boundary (negsuc n) ordered = tt
train_split-EndsBy start boundary (pos n) ordered =
    filter-All_both (λ a. a.signal_end_ts < boundary) (λ a. EndsBy (boundary - n) a.label_end_ts) _
      _ (filter-All (λ a. a.signal_end_ts < boundary) _ ordered (λ a h. ltb→lt _ _ h))
      (λ a h. ends_by-EndsBy (boundary - n) a.label_end_ts h)

fold_at-IsSealed :
    (first : Occurrence) (ordered : List Occurrence) (size : ℕ) (embargo : ℤ) (k : ℕ)
    → Ensures (IsSealed embargo) (fold_at first ordered size embargo k)
unfolding fold_at
fold_at-IsSealed first ordered size embargo k =
    bind-any _ (or_raise (get_elem? ordered (k * size)) index_error) _ λ opening.
      bind-any _ (or_raise (get_elem? ordered _) index_error) _ λ closing.
        bind-Ensures _ _ (train_split first.signal_end_ts opening.signal_end_ts embargo _) _
          (train_split-EndsBy first.signal_end_ts opening.signal_end_ts embargo ordered)
          λ learned h. record {
            trained = h;
            tested =
                filter-All
                  (λ a.
                    (opening.signal_end_ts ≤ a.signal_end_ts)
                    × (a.signal_end_ts ≤ closing.signal_end_ts))
                  _ ordered
                  (λ a within.
                    let (lo, hi) = and-eq-true _ _ within in (leb→le _ _ lo, leb→le _ _ hi));
          }

folds_over-IsSealed :
    (first : Occurrence) (ordered : List Occurrence) (size : ℕ) (embargo : ℤ) (ks : List ℕ)
    → Ensures (All (IsSealed embargo)) (folds_over first ordered size embargo ks)
unfolding folds_over
folds_over-IsSealed first ordered size embargo [] = tt
folds_over-IsSealed first ordered size embargo (k ∷ ks) =
    bind-Ensures (IsSealed embargo) _ (fold_at first ordered size embargo k) _
      (fold_at-IsSealed first ordered size embargo k)
      λ fold h.
        bind-Ensures (All (IsSealed embargo)) _ (folds_over first ordered size embargo ks) _
          (folds_over-IsSealed first ordered size embargo ks) (λ rest hs. (h, hs))

insert_occurrence-length :
    (a : Occurrence) (bs : List Occurrence) → length (insert_occurrence a bs) ≡ suc (length bs)
unfolding insert_occurrence
insert_occurrence-length a [] = refl
insert_occurrence-length a (b ∷ bs) = elim (Bool-cases (precedes a b)) [
  | inl first ↦ rw first refl
  | inr later ↦ rw later (ap suc (insert_occurrence-length a bs))
]

chronological-length : (bs : List Occurrence) → length (chronological bs) ≡ length bs
unfolding chronological
chronological-length [] = refl
chronological-length (b ∷ bs) =
    insert_occurrence-length b (chronological bs) ∙ ap suc (chronological-length bs)

quotient_positive : (a b : ℕ) → 1 ≤ b → b ≤ a → 1 ≤ a / b
quotient_positive a b h k = (le-div_iff_mul-le h).1 (omega (arith, k))

-- The slices of a fold lie in the list.
fold_in_range :
    (count folds k : ℕ)
    → 2 ≤ folds
    → folds ≤ count
    → k < folds
    → (k * (count / folds) < count) × (min ((k + 1) * (count / folds)) count - 1 < count)
fold_in_range count folds k two enough h =
    let size : ℕ = count / folds in
    let some_size : 1 ≤ size = quotient_positive count folds (omega (arith, two)) enough in
    let all : size * folds ≤ count = div-mul-le_self count folds in
    let here : suc k * size ≤ folds * size = mul-le-mul_right size (omega (arith, h)) in
    let flip : size * folds ≡ folds * size = omega arith in
    let step : suc k * size ≡ k * size + size = omega arith in
    (omega (arith, some_size, all, here, flip, step), omega (arith, two, enough))

fold_at_total :
    (first : Occurrence) (ordered : List Occurrence) (folds embargo k : ℕ)
    → 2 ≤ folds
    → folds ≤ length ordered
    → k < folds
    → (fold : Fold) × (fold_at first ordered (length ordered / folds) (pos embargo) k ≡ ok fold)
unfolding fold_at train_split purge
fold_at_total first ordered folds embargo k two enough h =
    let (lo, hi) = fold_in_range (length ordered) folds k two enough h in
    let (opening, e) = get_elem?-some ordered (k * (length ordered / folds)) lo in
    let (closing, e') = get_elem?-some ordered _ hi in
    Returns-eq_ok (fold_at first ordered (length ordered / folds) (pos embargo) k) (rw (e, e') tt)

folds_over_total :
    (first : Occurrence) (ordered : List Occurrence) (folds embargo start count : ℕ)
    → 2 ≤ folds
    → folds ≤ length ordered
    → start + count ≤ folds
    → (fs : List Fold) × (folds_over first ordered
          (length ordered / folds)
          (pos embargo)
          (range start count)
        ≡ ok fs)
      × (length fs ≡ count)
unfolding folds_over
folds_over_total first ordered folds embargo start zero two enough h = ([], refl, refl)
folds_over_total first ordered folds embargo start (suc count) two enough h =
    let (fold, e) = fold_at_total first ordered folds embargo start two enough (omega (arith, h)) in
    let (rest, e', n) =
      folds_over_total first ordered folds embargo (suc start) count two enough
        (omega (arith, h)) in
    (fold ∷ rest, rw (e, e') refl, ap suc n)

walk_ordered-IsSealed :
    (folds embargo : ℕ) (ordered : List Occurrence)
    → 2 ≤ folds
    → folds ≤ length ordered
    → (fs : List Fold) × (walk_ordered folds (pos embargo) ordered ≡ ok fs)
      × (length fs ≡ folds - 1)
      × All (IsSealed (pos embargo)) fs
walk_ordered-IsSealed folds embargo [] two enough = absurd (omega (arith, two, enough))
walk_ordered-IsSealed folds embargo (a ∷ rest) two enough =
    let (fs, e, n) =
      folds_over_total a (a ∷ rest) folds embargo 1 (folds - 1) two enough (omega (arith, two)) in
    let short : ltb (length (a ∷ rest)) folds ≡ false = ground (arith, enough) in
    (
      fs,
      rw (short, e) refl,
      n,
      Ensures-eq_ok (All (IsSealed (pos embargo))) _
          (folds_over-IsSealed a (a ∷ rest) (length (a ∷ rest) / folds) (pos embargo)
            (range 1 (folds - 1)))
          e,
    )

-- For at least 2 folds, no more than there are occurrences, and an embargo that is not negative,
-- `walk_forward` returns one fold less. In each fold, every training observation is signalled
-- before the test period, its label ends at least the embargo before that period, and every test
-- observation is signalled within the period.
pub walk_forward-IsSealed :
    (occurrences : List Occurrence) (folds embargo : ℕ)
    → 2 ≤ folds
    → folds ≤ length occurrences
    → (fs : List Fold) × (walk_forward occurrences folds (pos embargo) ≡ ok fs)
      × (length fs ≡ folds - 1)
      × All (IsSealed (pos embargo)) fs
unfolding walk_forward
walk_forward-IsSealed occurrences folds embargo two enough =
    let several : ltb folds 2 ≡ false = ground (arith, two) in
    let (fs, e, n, sealed) =
      walk_ordered-IsSealed folds embargo (chronological occurrences) two
        (omega (arith, enough, chronological-length occurrences)) in
    (fs, rw several e, n, sealed)
