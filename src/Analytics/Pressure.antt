-- ===== src/Analytics/Pressure.antt =====
-- src/virtual_orders/analytics/pressure.py: the estimate of buying and selling pressure over a window of bars.
pub mod Covers
use research_platform.Prelude.{
  ℕ, ◌-◌, Bool, false, ◌&&◌, ◌||◌, Option, none, some, String, List, [], ◌∷◌, any, map, ◌==◌,
  if◌then◌else◌, length, last_or,
}
use research_platform.Prelude.Int.{pos, negsuc}
use research_platform.Prelude.Sort.{sort_by}
use research_platform.Result.{Result, ok, value_error, ◌>>=◌, ◌>>◌, raise_if}
use research_platform.Decimal
use research_platform.Decimal.{Decimal, zero_decimal, from_ℕ}
use research_platform.Domain.Signal.{Bar}
use research_platform.Fills.Engine.{bar_key}
use research_platform.Research.Indicators.{sum_of}

abbrev pub pressure_method : String
pressure_method = "OHLCV_PRESSURE_ESTIMATE_V1"

pub data PressureSide : Type 0 where
  buy sell : PressureSide

pub record PressureEstimate : Type 0 where
  pub method : String
  pub bars : ℕ
  pub first_bar_ts : ℕ
  pub last_bar_ts : ℕ
  pub close_location_value : Decimal
  pub chaikin_money_flow : Decimal
  pub obv_slope : Decimal
  pub vwap : Decimal
  pub vwap_distance_pct : Decimal

-- `ZERO.quantize(QUANTUM)`
abbrev zero_quantum : Decimal
zero_quantum = record { int = pos 0; exp = negsuc 3 }

-- `_quantized`
unfoldable pub quantize_pressure : Decimal → Result Decimal
quantize_pressure value =
    Decimal.quantize value 4 >>= λ r. ok (if Decimal.is_zero r then zero_quantum else r)

-- `close_location_value`
unfoldable pub location_of : Bar → Decimal
location_of bar =
    let span = Decimal.sub bar.high bar.low in
    if Decimal.is_zero span
    then zero_decimal
    else Decimal.quotient
        (Decimal.sub (Decimal.sub bar.close bar.low) (Decimal.sub bar.high bar.close)) span

-- Whether two bars have the same minute.
abbrev pub has_duplicate : List Bar → Bool
has_duplicate [] = false
has_duplicate (b ∷ bs) = any (λ c. c.ts == b.ts) bs || has_duplicate bs

-- The on-balance volume: the loop over the neighbours.
abbrev pub balance_volume : Decimal → Bar → List Bar → Decimal
balance_volume obv previous [] = obv
balance_volume obv previous (c ∷ cs) =
    balance_volume
      (if Decimal.lt previous.close c.close
        then Decimal.add obv c.volume
        else (if Decimal.lt c.close previous.close then Decimal.sub obv c.volume else obv))
      c cs

-- The typical price of a bar, weighted by its volume.
abbrev pub typical_flow : Bar → Decimal
typical_flow b =
    Decimal.mul (Decimal.quotient (Decimal.add (Decimal.add b.high b.low) b.close) (from_ℕ 3))
      b.volume

-- `0` or the value itself where the divisor is zero.
abbrev pub ratio_or : Decimal → (numerator divisor : Decimal) → Decimal
ratio_or fallback numerator divisor =
    if Decimal.is_zero divisor then fallback else Decimal.quotient numerator divisor

-- The estimate over the ordered bars `first ∷ rest`.
unfoldable pub estimate_of : Bar → List Bar → Result PressureEstimate
unfolding location_of quantize_pressure
estimate_of first rest = do
  let ordered = first ∷ rest
  let count = length ordered
  let volume = sum_of zero_decimal (map (λ b. b.volume) ordered)
  let flow = sum_of zero_decimal (map (λ b. Decimal.mul (location_of b) b.volume) ordered)
  let cmf = ratio_or zero_decimal flow volume
  let obv = balance_volume zero_decimal first rest
  let mean_volume = Decimal.quotient volume (from_ℕ count)
  let slope = ratio_or zero_decimal (Decimal.quotient obv (from_ℕ (count - 1))) mean_volume
  let final = last_or first rest
  let typical = sum_of zero_decimal (map typical_flow ordered)
  let vwap = ratio_or final.close typical volume
  let distance =
      if Decimal.is_zero vwap
      then zero_decimal
      else Decimal.mul (Decimal.quotient (Decimal.sub final.close vwap) vwap) (from_ℕ 100)
  location_q ← quantize_pressure (location_of final)
  cmf_q ← quantize_pressure cmf
  slope_q ← quantize_pressure slope
  vwap_q ← quantize_pressure vwap
  distance_q ← quantize_pressure distance
  ok (record {
    method = pressure_method;
    bars = count;
    first_bar_ts = first.ts;
    last_bar_ts = final.ts;
    close_location_value = location_q;
    chaikin_money_flow = cmf_q;
    obv_slope = slope_q;
    vwap = vwap_q;
    vwap_distance_pct = distance_q;
  })

-- Fewer than two bars have no estimate.
abbrev pub estimate_ordered : List Bar → Result (Option PressureEstimate)
estimate_ordered [] = ok none
estimate_ordered (_ ∷ []) = ok none
estimate_ordered (a ∷ b ∷ rest) = estimate_of a (b ∷ rest) >>= λ e. ok (some e)

unfoldable pub estimate_pressure : List Bar → Result (Option PressureEstimate)
unfolding estimate_of
estimate_pressure bars = do
  raise_if (has_duplicate (sort_by bar_key bars)) value_error
  estimate_ordered (sort_by bar_key bars)

abbrev pub is_buying : PressureEstimate → Decimal → Bool
is_buying e threshold =
    Decimal.le threshold e.chaikin_money_flow
    && (Decimal.lt zero_decimal e.obv_slope && Decimal.le zero_decimal e.vwap_distance_pct)

abbrev pub is_selling : PressureEstimate → Decimal → Bool
is_selling e threshold =
    Decimal.le e.chaikin_money_flow (Decimal.neg threshold)
    && (Decimal.lt e.obv_slope zero_decimal && Decimal.le e.vwap_distance_pct zero_decimal)

unfoldable pub strong_pressure : PressureEstimate → (cmf_threshold : Decimal) → Option PressureSide
strong_pressure e threshold =
    if is_buying e threshold
    then some PressureSide.buy
    else (if is_selling e threshold then some PressureSide.sell else none)
