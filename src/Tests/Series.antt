-- ===== src/Tests/Series.antt =====
-- Indicators, context and splits at concrete candles.
use research_platform.Prelude.{
  ℕ, ◌+◌, ◌-◌, ◌≡◌, refl, none, some, List, [], ◌∷◌, ◌++◌, length, All, arith,
}
use research_platform.Prelude.Int.{pos, ◌+ℤ◌, ◌-ℤ◌, ◌*ℤ◌}
use research_platform.Decimal
use research_platform.Research.Candle.{quantize_ratio}
use research_platform.Result.{Returns}
use research_platform.Result.{ok}
use research_platform.Domain.Signal.{Direction}
use research_platform.Research.Candle.{Timeframe, Pattern}
use research_platform.Research.Indicators.{
  Series, distance_pct, slope_at, ema, atr, rolling_average_volume, closes,
}
use research_platform.Research.Indicators.Causal.{IsCausal, indicators-IsCausal}
use research_platform.Research.Swings.{SwingPoint, swing_points, pivots_over}
use research_platform.Research.Context.{IndicatorSeries, structure_at}
use research_platform.Research.Context.Causal.{structure_at-append}
use research_platform.Research.Splits.{Occurrence, Fold, walk_forward}
use research_platform.Research.Splits.Sealed.{IsSealed, walk_forward-IsSealed}
use research_platform.Calendar.Minutes.{Enumerates}
use research_platform.Research.Candle.{bucket_minutes}
use research_platform.Research.Timeframes.{session_buckets, resample}
use research_platform.Research.Timeframes.Buckets.{concat, IsFilled, session_buckets-Enumerates}
use research_platform.Research.Timeframes.Settled.{IsElapsed, resample-IsElapsed}
use research_platform.Result.{Ensures}
use research_platform.Tests.Calendars.{morning, two_days, two_days-IsValid}
use research_platform.Tests.Orders.{above, touch}
use research_platform.Tests.Candles.{falling, engulfing_rise, after_rise}
use research_platform.Tests.Setups.{from_ok, engulfing_detection, snapshot}

indicators-IsCausal_example :
    IsCausal
      (ema (closes (falling ∷ engulfing_rise ∷ [])) 2)
      (ema (closes ((falling ∷ engulfing_rise ∷ []) ++ after_rise ∷ [])) 2)
    × IsCausal
        (atr (falling ∷ engulfing_rise ∷ []) 2)
        (atr ((falling ∷ engulfing_rise ∷ []) ++ after_rise ∷ []) 2)
    × IsCausal
        (rolling_average_volume (falling ∷ engulfing_rise ∷ []) 2)
        (rolling_average_volume ((falling ∷ engulfing_rise ∷ []) ++ after_rise ∷ []) 2)
indicators-IsCausal_example =
    indicators-IsCausal (falling ∷ engulfing_rise ∷ []) (after_rise ∷ []) 2

-- Three candles are too few for any of the averages.
abbrev unready : Series
unready = none ∷ none ∷ none ∷ []

abbrev short_series : IndicatorSeries
short_series = record {
  ema = (9, unready) ∷ (20, unready) ∷ (50, unready) ∷ (200, unready) ∷ [];
  atr = unready;
}

abbrev peak : List SwingPoint
peak = from_ok [] (swing_points (falling ∷ engulfing_rise ∷ after_rise ∷ []) 1 1)

peak_lem : swing_points (falling ∷ engulfing_rise ∷ after_rise ∷ []) 1 1 ≡ ok peak
unfolding swing_points pivots_over
peak_lem = refl

structure_found : Returns (structure_at (falling ∷ engulfing_rise ∷ []) 1 short_series none 1 1)
unfolding structure_at distance_pct quantize_ratio Decimal.quantize ◌+ℤ◌ Decimal.mul
    Decimal.quotient ◌-ℤ◌ Decimal.sub ◌*ℤ◌ slope_at
structure_found = tt

structure_at-append_example :
    (structure_at ((falling ∷ engulfing_rise ∷ []) ++ after_rise ∷ []) 1 short_series none 1 1
      ≡ structure_at (falling ∷ engulfing_rise ∷ []) 1 short_series none 1 1)
    × (structure_at (falling ∷ engulfing_rise ∷ []) 1 short_series (some peak) 1 1
        ≡ structure_at (falling ∷ engulfing_rise ∷ []) 1 short_series none 1 1)
structure_at-append_example =
    structure_at-append (falling ∷ engulfing_rise ∷ []) (after_rise ∷ []) 1 1 1 short_series peak
      (omega arith) peak_lem

abbrev occurrence_at : ℕ → Occurrence
occurrence_at ts = record {
  ticker = "AAPL";
  timeframe = Timeframe.m5;
  pattern = Pattern.bullish_engulfing;
  direction = Direction.long;
  signal_ts = ts;
  signal_end_ts = ts;
  label_end_ts = some (ts + 15);
  features = snapshot;
  detection = engulfing_detection;
  horizons = [];
  barrier = none;
}

abbrev four : List Occurrence
four = occurrence_at 30 ∷ occurrence_at 10 ∷ occurrence_at 20 ∷ occurrence_at 40 ∷ []

walk_forward-IsSealed_example :
    (fs : List Fold) × (walk_forward four 2 (pos 0) ≡ ok fs)
    × (length fs ≡ 2 - 1)
    × All (IsSealed (pos 0)) fs
walk_forward-IsSealed_example = walk_forward-IsSealed four 2 0 (omega arith) (omega arith)

session_buckets-Enumerates_example :
    (buckets : List (List ℕ)) × (session_buckets two_days morning Timeframe.m5 ≡ ok buckets)
    × Enumerates two_days morning.open_utc morning.close_utc (concat buckets)
    × All (IsFilled (bucket_minutes Timeframe.m5)) buckets
session_buckets-Enumerates_example =
    session_buckets-Enumerates two_days morning Timeframe.m5 two_days-IsValid (omega arith)
      (omega arith)

resample-IsElapsed_example :
    Ensures
      (All (IsElapsed 840_000_000))
      (resample (touch ∷ above ∷ []) two_days Timeframe.m5 0 1_000_000_000 840_000_000)
resample-IsElapsed_example =
    resample-IsElapsed (touch ∷ above ∷ []) two_days Timeframe.m5 0 1_000_000_000 840_000_000
