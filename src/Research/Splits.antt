-- ===== src/Research/Splits.antt =====
-- src/virtual_orders/research/backtest.py: occurrences, and the chronological splits over them. `scaled_count` is
-- `int(count * float(fraction))`.
pub mod Sealed
use Prim.Native.String.{compare as compare_text}
use Prim.Native.Nat.{compare, Ordering}
use research_platform.Prelude.{
  ℕ, zero, suc, ◌+◌, ◌-◌, ◌*◌, ◌/◌, min, Bool, true, false, not, ◌&&◌, ◌||◌, Option, none, some,
  String, List, [], ◌∷◌, ltb, leb, if◌then◌else◌, length, filter, get_elem?, range, last_or,
}
use research_platform.Prelude.Int.{ℤ, pos, negsuc}
use research_platform.Result.{
  Result, ok, err, value_error, index_error, ◌>>=◌, ◌>>◌, raise_if, or_raise, guard,
}
use research_platform.Decimal
use research_platform.Decimal.{Decimal, zero_decimal, from_ℕ}
use research_platform.Domain.Signal.{Direction}
use research_platform.Research.Candle.{Timeframe, Pattern, PatternDetection}
use research_platform.Research.Features.{FeatureSnapshot}
use research_platform.Research.Labels.{HorizonOutcome}
use research_platform.Research.Labels.Barrier.{BarrierOutcome}
use research_platform.Research.Setups.{pattern_name}

pub record Occurrence : Type 0 where
  pub ticker : String
  pub timeframe : Timeframe
  pub pattern : Pattern
  pub direction : Direction
  pub signal_ts : ℕ
  pub signal_end_ts : ℕ
  pub label_end_ts : Option ℕ
  pub features : FeatureSnapshot
  pub detection : PatternDetection
  pub horizons : List (ℕ × HorizonOutcome)
  pub barrier : Option BarrierOutcome

abbrev not_later : Ordering → Bool → Bool
not_later Ordering.lt rest = true
not_later Ordering.eq rest = rest
not_later Ordering.gt rest = false

-- The order of the keys `(signal_end_ts, ticker, pattern)`.
abbrev pub precedes : Occurrence → Occurrence → Bool
precedes a b = not_later (compare a.signal_end_ts b.signal_end_ts) (
    not_later (compare_text a.ticker b.ticker)
      (not_later (compare_text (pattern_name a.pattern) (pattern_name b.pattern)) true))

unfoldable pub insert_occurrence : Occurrence → List Occurrence → List Occurrence
insert_occurrence a [] = a ∷ []
insert_occurrence a (b ∷ rest) =
    let later = b ∷ insert_occurrence a rest in if precedes a b then a ∷ b ∷ rest else later

unfoldable pub chronological : List Occurrence → List Occurrence
unfolding insert_occurrence
chronological [] = []
chronological (a ∷ rest) = insert_occurrence a (chronological rest)

pub data SplitName : Type 0 where
  train validation test : SplitName

pub record Split : Type 0 where
  pub name : SplitName
  pub start : ℕ
  pub until : ℕ
  pub occurrences : List Occurrence
  pub purged : ℕ

abbrev pub ends_by : ℕ → Option ℕ → Bool
ends_by cutoff none = true
ends_by cutoff (some at) = leb at cutoff

unfoldable pub purge : List Occurrence → (boundary : ℕ) → (embargo : ℤ) → Result (List Occurrence)
purge observations boundary (negsuc _) = err value_error
purge observations boundary (pos embargo) =
    ok (filter (λ a. ends_by (boundary - embargo) a.label_end_ts) observations)

-- The observations before an instant, from one on, and up to one.
abbrev pub before : ℕ → List Occurrence → List Occurrence
before at occurrences = filter (λ a. ltb a.signal_end_ts at) occurrences

abbrev pub from_on : ℕ → List Occurrence → List Occurrence
from_on at occurrences = filter (λ a. leb at a.signal_end_ts) occurrences

abbrev pub between : (start until : ℕ) → List Occurrence → List Occurrence
between start until occurrences =
    filter (λ a. leb start a.signal_end_ts && leb a.signal_end_ts until) occurrences

-- The training split of what stands before a boundary.
unfoldable pub train_split :
    (start boundary : ℕ) → (embargo : ℤ) → (history : List Occurrence) → Result Split
unfolding purge
train_split start boundary embargo history = do
  kept ← purge history boundary embargo
  ok (record {
    name = SplitName.train;
    start = start;
    until = boundary;
    occurrences = kept;
    purged = length history - length kept;
  })

-- `max(0, int(...))`
abbrev not_negative : ℤ → ℕ
not_negative (pos n) = n
not_negative (negsuc _) = 0

-- `_boundary`
unfoldable pub boundary_of :
    (scaled_count : ℕ → Decimal → ℤ) → List Occurrence → (fraction : Decimal) → Result ℕ
boundary_of scaled_count ordered fraction = do
  let index = min (length ordered - 1) (not_negative (scaled_count (length ordered) fraction))
  a ← or_raise (get_elem? ordered index) index_error
  ok a.signal_end_ts

abbrev in_open_unit : Decimal → Bool
in_open_unit d = Decimal.lt zero_decimal d && Decimal.lt d (from_ℕ 1)

abbrev split_ordered :
    (ℕ → Decimal → ℤ)
    → (train_fraction validation_fraction : Decimal) → (embargo : ℤ) → List Occurrence
    → Result (Split × Split × Split)
split_ordered scaled_count train_fraction validation_fraction embargo [] = err value_error
split_ordered scaled_count train_fraction validation_fraction embargo (a ∷ rest) = do
  let ordered = a ∷ rest
  train_end ← boundary_of scaled_count ordered train_fraction
  validation_end ← boundary_of scaled_count ordered (Decimal.add train_fraction validation_fraction)
  learned ← train_split a.signal_end_ts train_end embargo (before train_end ordered)
  ok (
    learned,
    record {
      name = SplitName.validation;
      start = train_end;
      until = validation_end;
      occurrences = before validation_end (from_on train_end ordered);
      purged = 0;
    },
    record {
      name = SplitName.test;
      start = validation_end;
      until = (last_or a rest).signal_end_ts;
      occurrences = from_on validation_end ordered;
      purged = 0;
    },
  )

unfoldable pub time_splits :
    (scaled_count : ℕ → Decimal → ℤ)
    → List Occurrence
    → (train_fraction validation_fraction : Decimal) → (embargo : ℤ)
    → Result (Split × Split × Split)
unfolding chronological boundary_of train_split
time_splits scaled_count occurrences train_fraction validation_fraction embargo = do
  guard (in_open_unit train_fraction && in_open_unit validation_fraction) value_error
  raise_if (Decimal.le (from_ℕ 1) (Decimal.add train_fraction validation_fraction)) value_error
  split_ordered scaled_count train_fraction validation_fraction embargo (chronological occurrences)

pub record Fold : Type 0 where
  pub index : ℕ
  pub train : Split
  pub test : Split

-- One turn of the loop of `walk_forward`.
unfoldable pub fold_at :
    (first : Occurrence)
    → (ordered : List Occurrence) → (size : ℕ) → (embargo : ℤ) → (fold : ℕ) → Result Fold
unfolding train_split
fold_at first ordered size embargo fold = do
  opening ← or_raise (get_elem? ordered (fold * size)) index_error
  closing ← or_raise (get_elem? ordered (min ((fold + 1) * size) (length ordered) - 1)) index_error
  let boundary = opening.signal_end_ts
  learned ← train_split first.signal_end_ts boundary embargo (before boundary ordered)
  ok (record {
    index = fold;
    train = learned;
    test = record {
      name = SplitName.test;
      start = boundary;
      until = closing.signal_end_ts;
      occurrences = between boundary closing.signal_end_ts ordered;
      purged = 0;
    };
  })

unfoldable pub folds_over :
    (first : Occurrence)
    → (ordered : List Occurrence) → (size : ℕ) → (embargo : ℤ) → List ℕ
    → Result (List Fold)
unfolding fold_at
folds_over first ordered size embargo [] = ok []
folds_over first ordered size embargo (k ∷ ks) = do
  fold ← fold_at first ordered size embargo k
  rest ← folds_over first ordered size embargo ks
  ok (fold ∷ rest)

abbrev pub walk_ordered : (folds : ℕ) → (embargo : ℤ) → List Occurrence → Result (List Fold)
walk_ordered folds embargo [] = err value_error
walk_ordered folds embargo (a ∷ rest) = do
  raise_if (ltb (length (a ∷ rest)) folds) value_error
  folds_over a (a ∷ rest) (length (a ∷ rest) / folds) embargo (range 1 (folds - 1))

-- `folds` is at least 2, so that an empty list has too few occurrences.
unfoldable pub walk_forward : List Occurrence → (folds : ℕ) → (embargo : ℤ) → Result (List Fold)
unfolding chronological folds_over
walk_forward occurrences folds embargo = do
  raise_if (ltb folds 2) value_error
  walk_ordered folds embargo (chronological occurrences)
