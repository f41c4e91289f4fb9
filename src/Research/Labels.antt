-- ===== src/Research/Labels.antt =====
-- src/virtual_orders/research/labels.py: what happened in the candles after a signal, over a fixed horizon.
pub mod Touch
pub mod Final
pub mod Barrier
use research_platform.Prelude.{
  ◌≡◌, refl, ◌⊎◌, inl, inr, ℕ, suc, ◌+◌, Bool, true, false, not, ◌&&◌, ◌||◌, Option, none, some,
  String, List, [], ◌∷◌, ltb, ◌==◌, if◌then◌else◌, length, last_or, take,
}
use research_platform.Result.{Result, ok, value_error, ◌>>=◌, ◌>>◌, raise_if, guard}
use research_platform.Decimal
use research_platform.Decimal.{Decimal, zero_decimal, from_ℕ}
use research_platform.Domain.Signal.{Direction, long, short}
use research_platform.Research.Candle.{Candle, quantize_ratio}

pub data BarrierResult : Type 0 where
  target_hit stop_hit timeout no_data : BarrierResult

abbrev favourable : Direction → Candle → Decimal
favourable Direction.long c = c.high
favourable Direction.short c = c.low

abbrev adverse : Direction → Candle → Decimal
adverse Direction.long c = c.low
adverse Direction.short c = c.high

abbrev signed : Direction → Decimal → Decimal
signed Direction.long raw = raw
signed Direction.short raw = Decimal.neg raw

-- `_move_pct`; `PCT_QUANTUM` is the quantum of `quantize_ratio`.
unfoldable pub move_pct : Direction → (entry price : Decimal) → Result Decimal
move_pct direction entry price = do
  share ← Decimal.div (Decimal.sub price entry) entry
  quantize_ratio (signed direction (Decimal.mul share (from_ℕ 100)))

pub record HorizonOutcome : Type 0 where
  pub label_version : String
  pub horizon_candles : ℕ
  pub candles_used : ℕ
  pub complete : Bool
  pub entry : Decimal
  pub exit_price : Option Decimal
  pub return_pct : Option Decimal
  pub mfe_pct : Option Decimal
  pub mae_pct : Option Decimal

-- `LABEL_VERSION`
abbrev label_v1 : String
label_v1 = "labels-v1"

-- `max(key(candle) for candle in window)` and `min(...)`, from the first candle on.
abbrev fold_max : (Candle → Decimal) → Decimal → List Candle → Decimal
fold_max key best [] = best
fold_max key best (c ∷ cs) = fold_max key (Decimal.max best (key c)) cs

abbrev fold_min : (Candle → Decimal) → Decimal → List Candle → Decimal
fold_min key best [] = best
fold_min key best (c ∷ cs) = fold_min key (Decimal.min best (key c)) cs

abbrev best_of : Direction → Candle → List Candle → Decimal
best_of Direction.long c cs = fold_max (favourable Direction.long) (favourable Direction.long c) cs
best_of Direction.short c cs =
    fold_min (favourable Direction.short) (favourable Direction.short c) cs

abbrev worst_of : Direction → Candle → List Candle → Decimal
worst_of Direction.long c cs = fold_min (adverse Direction.long) (adverse Direction.long c) cs
worst_of Direction.short c cs = fold_max (adverse Direction.short) (adverse Direction.short c) cs

-- `fixed_horizon` from its window on.
abbrev pub horizon_of :
    (entry : Decimal) → Direction → (horizon : ℕ) → List Candle → Result HorizonOutcome
horizon_of entry direction horizon [] = ok (record {
  label_version = label_v1;
  horizon_candles = horizon;
  candles_used = 0;
  complete = false;
  entry = entry;
  exit_price = none;
  return_pct = none;
  mfe_pct = none;
  mae_pct = none;
})
horizon_of entry direction horizon (c ∷ cs) = do
  let exit = (last_or c cs).close
  gain ← move_pct direction entry exit
  mfe ← move_pct direction entry (best_of direction c cs)
  mae ← move_pct direction entry (worst_of direction c cs)
  ok (record {
    label_version = label_v1;
    horizon_candles = horizon;
    candles_used = length (c ∷ cs);
    complete = length (c ∷ cs) == horizon;
    entry = entry;
    exit_price = some exit;
    return_pct = some gain;
    mfe_pct = some mfe;
    mae_pct = some mae;
  })

unfoldable pub fixed_horizon :
    (future : List Candle) → (entry : Decimal) → Direction → (horizon : ℕ) → Result HorizonOutcome
fixed_horizon future entry direction horizon = do
  raise_if (ltb horizon 1) value_error
  raise_if (Decimal.le entry zero_decimal) value_error
  horizon_of entry direction horizon (take horizon future)
