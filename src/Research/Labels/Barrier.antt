-- ===== src/Research/Labels/Barrier.antt =====
-- src/virtual_orders/research/labels.py: which barrier the candles after a signal touch first.
use research_platform.Prelude.{
  ◌≡◌, refl, ◌⊎◌, inl, inr, ℕ, suc, Bool, true, false, ◌&&◌, ◌||◌, Option, none, some, String, List,
  [], ◌∷◌, ltb, ◌==◌, if◌then◌else◌, length, last_or, take,
}
use research_platform.Result.{Result, ok, value_error, ◌>>=◌, ◌>>◌, raise_if, guard}
use research_platform.Decimal
use research_platform.Decimal.{Decimal, zero_decimal, from_ℕ}
use research_platform.Domain.Signal.{Direction}
use research_platform.Research.Candle.{Candle, quantize_ratio}
use research_platform.Research.Labels.{BarrierResult, label_v1}

-- The arguments `entry`, `stop`, `target` and `direction`.
pub record Trade : Type 0 where
  pub entry : Decimal
  pub stop : Decimal
  pub target : Decimal
  pub direction : Direction

pub record BarrierOutcome : Type 0 where
  pub label_version : String
  pub ambiguity_policy : String
  pub result : BarrierResult
  pub entry : Decimal
  pub stop : Decimal
  pub target : Decimal
  pub exit_price : Option Decimal
  pub candles_to_outcome : Option ℕ
  pub candles_used : ℕ
  pub complete : Bool
  pub r_multiple : Option Decimal
  pub mfe_r : Option Decimal
  pub mae_r : Option Decimal
  pub ambiguous : Bool
  pub gap_through : Bool

-- The property `target_first`.
abbrev pub target_first : BarrierOutcome → Option Bool
target_first o = elim o.result [
  | BarrierResult.target_hit ↦ some true
  | BarrierResult.stop_hit ↦ some false
  | _ ↦ none
]

-- (stop, target)
unfoldable pub atr_barriers :
    (entry atr : Decimal) → Direction → (target_atr stop_atr : Decimal) → Result (Decimal × Decimal)
atr_barriers entry atr direction target_atr stop_atr = do
  raise_if (Decimal.le atr zero_decimal) value_error
  let below = Decimal.mul atr stop_atr
  let above = Decimal.mul atr target_atr
  ok (elim direction [
    | Direction.long ↦ (Decimal.sub entry below, Decimal.add entry above)
    | Direction.short ↦ (Decimal.add entry below, Decimal.sub entry above)
  ])

abbrev pub hits_target : Trade → Candle → Bool
hits_target trade c = elim trade.direction [
  | Direction.long ↦ Decimal.le trade.target c.high
  | Direction.short ↦ Decimal.le c.low trade.target
]

abbrev pub hits_stop : Trade → Candle → Bool
hits_stop trade c = elim trade.direction [
  | Direction.long ↦ Decimal.le c.low trade.stop
  | Direction.short ↦ Decimal.le trade.stop c.high
]

abbrev pub next_worst : Trade → Decimal → Candle → Decimal
next_worst trade worst c = elim trade.direction [
  | Direction.long ↦ Decimal.min worst c.low
  | Direction.short ↦ Decimal.max worst c.high
]

-- The favourable extreme of a candle that touches the stop does not count.
abbrev pub next_best : Trade → Decimal → Candle → Decimal
next_best trade best c = if hits_stop trade c then best else elim trade.direction [
  | Direction.long ↦ Decimal.max best c.high
  | Direction.short ↦ Decimal.min best c.low
]

-- Where the loop stops: at a candle that touches a barrier, or at the end of the window.
pub data Walk : Type 0 where
  touched : (offset : ℕ) → (candle : Candle) → (best worst : Decimal) → Walk
  untouched : (best worst : Decimal) → Walk

pub Walk-cases :
    (w : Walk)
    → ((at : ℕ) × (c : Candle) × (b : Decimal) × (v : Decimal) × (w ≡ touched at c b v))
      ⊎ ((b : Decimal) × (v : Decimal) × (w ≡ untouched b v))
Walk-cases (touched at c b v) = inl (at, c, b, v, refl)
Walk-cases (untouched b v) = inr (b, v, refl)

abbrev pub touches : Trade → Candle → Bool
touches trade c = hits_target trade c || hits_stop trade c

-- The loop, from the candle number `offset` on.
unfoldable pub walk : Trade → (offset : ℕ) → (best worst : Decimal) → List Candle → Walk
walk trade offset best worst [] = untouched best worst
walk trade offset best worst (c ∷ cs) =
    let best' = next_best trade best c in
    let worst' = next_worst trade worst c in
    let onward = walk trade (suc offset) best' worst' cs in
    if touches trade c then touched offset c best' worst' else onward

abbrev pub gap_at_stop : Trade → Candle → Bool
gap_at_stop trade c = elim trade.direction [
  | Direction.long ↦ Decimal.lt c.open_price trade.stop
  | Direction.short ↦ Decimal.lt trade.stop c.open_price
]

abbrev pub gap_at_target : Trade → Candle → Bool
gap_at_target trade c = elim trade.direction [
  | Direction.long ↦ Decimal.lt trade.target c.open_price
  | Direction.short ↦ Decimal.lt c.open_price trade.target
]

abbrev move_of : Trade → Decimal → Decimal
move_of trade price = elim trade.direction [
  | Direction.long ↦ Decimal.sub price trade.entry
  | Direction.short ↦ Decimal.sub trade.entry price
]

-- `_excursion_r`, and the value of `r_multiple`.
unfoldable pub excursion_r : Trade → (risk price : Decimal) → Result Decimal
excursion_r trade risk price = do
  share ← Decimal.div (move_of trade price) risk
  quantize_ratio share

-- `AMBIGUITY_POLICY`
abbrev stop_first_v1 : String
stop_first_v1 = "STOP_FIRST_ON_SAME_CANDLE_V1"

-- The outcome at a candle that touches a barrier, given whether it touches the stop.
abbrev pub touch_outcome :
    Trade
    → (risk : Decimal) → (offset : ℕ) → Candle
    → (best worst : Decimal) → (at_stop : Bool) → Result BarrierOutcome
touch_outcome trade risk offset c best worst at_stop = do
  let gapped = if at_stop then gap_at_stop trade c else gap_at_target trade c
  let barrier = if at_stop then trade.stop else trade.target
  let exit = if gapped then c.open_price else barrier
  r ← excursion_r trade risk exit
  mfe ← excursion_r trade risk best
  mae ← excursion_r trade risk worst
  ok (record {
    label_version = label_v1;
    ambiguity_policy = stop_first_v1;
    result = if at_stop then BarrierResult.stop_hit else BarrierResult.target_hit;
    entry = trade.entry;
    stop = trade.stop;
    target = trade.target;
    exit_price = some exit;
    candles_to_outcome = some offset;
    candles_used = offset;
    complete = true;
    r_multiple = some r;
    mfe_r = some mfe;
    mae_r = some mae;
    ambiguous = hits_target trade c && at_stop;
    gap_through = gapped;
  })

-- The outcome of the window `c ∷ cs`, given where the loop stops.
abbrev pub finish :
    Trade
    → (risk : Decimal) → (max_candles : ℕ) → Candle
    → List Candle
    → Walk
    → Result BarrierOutcome
finish trade risk max_candles c cs (touched offset at best worst) =
    touch_outcome trade risk offset at best worst (hits_stop trade at)
finish trade risk max_candles c cs (untouched best worst) = do
  let exit = (last_or c cs).close
  r ← excursion_r trade risk exit
  mfe ← excursion_r trade risk best
  mae ← excursion_r trade risk worst
  ok (record {
    label_version = label_v1;
    ambiguity_policy = stop_first_v1;
    result = BarrierResult.timeout;
    entry = trade.entry;
    stop = trade.stop;
    target = trade.target;
    exit_price = some exit;
    candles_to_outcome = none;
    candles_used = length (c ∷ cs);
    complete = length (c ∷ cs) == max_candles;
    r_multiple = some r;
    mfe_r = some mfe;
    mae_r = some mae;
    ambiguous = false;
    gap_through = false;
  })

abbrev pub window_outcome :
    Trade → (risk : Decimal) → (max_candles : ℕ) → List Candle → Result BarrierOutcome
window_outcome trade risk max_candles [] = ok (record {
  label_version = label_v1;
  ambiguity_policy = stop_first_v1;
  result = BarrierResult.no_data;
  entry = trade.entry;
  stop = trade.stop;
  target = trade.target;
  exit_price = none;
  candles_to_outcome = none;
  candles_used = 0;
  complete = false;
  r_multiple = none;
  mfe_r = none;
  mae_r = none;
  ambiguous = false;
  gap_through = false;
})
window_outcome trade risk max_candles (c ∷ cs) =
    finish trade risk max_candles c cs (walk trade 1 trade.entry trade.entry (c ∷ cs))

-- The levels stand in the order that the direction asks for.
abbrev pub in_order : Trade → Bool
in_order trade = elim trade.direction [
  | Direction.long ↦ Decimal.lt trade.stop trade.entry && Decimal.lt trade.entry trade.target
  | Direction.short ↦ Decimal.lt trade.target trade.entry && Decimal.lt trade.entry trade.stop
]

unfoldable pub target_before_stop :
    (future : List Candle) → Trade → (max_candles : ℕ) → Result BarrierOutcome
target_before_stop future trade max_candles = do
  raise_if (ltb max_candles 1) value_error
  raise_if (Decimal.le trade.entry zero_decimal) value_error
  guard (in_order trade) value_error
  let risk = Decimal.abs (Decimal.sub trade.entry trade.stop)
  window_outcome trade risk max_candles (take max_candles future)
