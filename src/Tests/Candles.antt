-- ===== src/Tests/Candles.antt =====
-- src/virtual_orders/research at concrete candles.
use research_platform.Prelude.{ℕ, ◌≡◌, refl, false, none, [], ◌∷◌, ◌++◌, arith}
use research_platform.Prelude.Int.{pos}
use research_platform.Decimal.{from_ℕ}
use research_platform.Research.Candle.{Candle, Timeframe}
use research_platform.Research.Geometry.{default_thresholds}
use research_platform.Research.Detect.{Prior, detect_at}
use research_platform.Result.{Ensures}
use research_platform.Research.Ends.{EndsWith, detect_at-EndsWith}
use research_platform.Research.Causal.{detect_at-append}

abbrev candle_of : (ts open_price high low close : ℕ) → Candle
candle_of ts open_price high low close = record {
  timeframe = Timeframe.m5;
  ts = ts;
  end_ts = ts;
  session_day = 1;
  open_price = from_ℕ open_price;
  high = from_ℕ high;
  low = from_ℕ low;
  close = from_ℕ close;
  volume = from_ℕ 10;
  minutes_expected = 5;
  minutes_present = 5;
  truncated = false;
}

abbrev pub falling : Candle
falling = candle_of 600_000_000 110 111 99 100

abbrev pub engulfing_rise : Candle
engulfing_rise = candle_of 900_000_000 99 115 98 114

abbrev pub after_rise : Candle
after_rise = candle_of 1_200_000_000 114 116 113 115

abbrev no_prior : Prior
no_prior = Prior.by_length (λ _. none)

detect_at-append_example :
    detect_at
      ((falling ∷ engulfing_rise ∷ []) ++ after_rise ∷ [])
      (pos 1)
      no_prior
      default_thresholds
    ≡ detect_at (falling ∷ engulfing_rise ∷ []) (pos 1) no_prior default_thresholds
detect_at-append_example =
    detect_at-append (falling ∷ engulfing_rise ∷ []) (after_rise ∷ []) 1 no_prior default_thresholds
      engulfing_rise (omega arith) refl (refl, (refl, tt)) (refl, tt)

detect_at-EndsWith_example :
    Ensures
      (EndsWith engulfing_rise)
      (detect_at (falling ∷ engulfing_rise ∷ []) (pos 1) no_prior default_thresholds)
detect_at-EndsWith_example =
    detect_at-EndsWith (falling ∷ engulfing_rise ∷ []) 1 no_prior default_thresholds engulfing_rise
      refl
