-- ===== src/Research/Ends.antt =====
-- Where the detections of `detect_at` end.
use research_platform.Prelude.{
  ℕ, ◌≡◌, sym, get_elem?, Bool, true, false, Option, none, some, List, [], ◌∷◌, ◌++◌, All, arith,
}
use research_platform.Decimal.{Decimal}
use research_platform.Result.{
  ok, err, index_error, or_raise, ◌>>=◌, Ensures, bind-Ensures, Ensures-any,
}
use research_platform.Domain.Values.{Fields}
use research_platform.Research.Candle.{
  Candle, PriorTrend, Pattern, PatternDirection, PatternDetection, Geometry, check_detection,
}
use research_platform.Research.Geometry.{PatternThresholds, detection, geometry}
use research_platform.Research.Patterns.{
  Found, one_found, and_then, doji_family, long_wick_family, engulfing, piercing,
}
use mathlib.Core.Path.{subst}
use research_platform.Prelude.Int.{pos}
use research_platform.Prelude.Sort.{sort_by-All}
use research_platform.Research.Detect.{
  star_family, marching, Prior, for_length, pairs, triples, mixed, candle_before, detection_key,
  detect_with, detect_current, detect_at,
}

-- Every detection ends with the candle, and has its timeframe.
abbrev pub EndsWith : Candle → List PatternDetection → Type 0
EndsWith c ds = All (λ d. (d.end_ts ≡ c.end_ts) × (d.timeframe ≡ c.timeframe)) ds

EndsWith-append :
    (c : Candle) (ds es : List PatternDetection)
    → EndsWith c ds
    → EndsWith c es
    → EndsWith c (ds ++ es)
EndsWith-append c [] es h k = k
EndsWith-append c (d ∷ ds) es h k = (h.0, EndsWith-append c ds es h.1 k)

one_found-EndsWith :
    (pattern : Pattern) (direction : PatternDirection) (first last : Candle) (count : ℕ)
    (score : Decimal) (prior : PriorTrend) (evidence : Fields)
    → Ensures
        (EndsWith last)
        (one_found (detection pattern direction first last count score prior evidence))
unfolding detection check_detection
one_found-EndsWith pattern direction first last count score prior evidence = ground arith

and_then-EndsWith :
    (c : Candle) (f g : Found)
    → Ensures (EndsWith c) f
    → Ensures (EndsWith c) g
    → Ensures (EndsWith c) (and_then f g)
and_then-EndsWith c (err _) g h k = tt
and_then-EndsWith c (ok ds) (err _) h k = tt
and_then-EndsWith c (ok ds) (ok es) h k = EndsWith-append c ds es h k

piercing-EndsWith :
    (b c : Candle) (prior : PriorTrend) (limits : PatternThresholds)
    → Ensures (EndsWith c) (piercing b c prior limits)
unfolding piercing detection check_detection
piercing-EndsWith b c prior limits = ground arith

engulfing-EndsWith :
    (b c : Candle) (prior : PriorTrend) (limits : PatternThresholds)
    → Ensures (EndsWith c) (engulfing b c prior limits)
unfolding engulfing detection check_detection
engulfing-EndsWith b c prior limits = ground arith

star_family-EndsWith :
    (a b c : Candle) (prior : PriorTrend) (limits : PatternThresholds)
    → Ensures (EndsWith c) (star_family a b c prior limits)
unfolding star_family detection check_detection
star_family-EndsWith a b c prior limits = ground arith

marching-EndsWith :
    (a b c : Candle) (prior : PriorTrend) (limits : PatternThresholds)
    → Ensures (EndsWith c) (marching a b c prior limits)
unfolding marching detection check_detection
marching-EndsWith a b c prior limits = ground arith

doji_family-EndsWith :
    (c : Candle) (g : Geometry) (prior : PriorTrend) (limits : PatternThresholds)
    → Ensures (EndsWith c) (doji_family c g prior limits)
unfolding doji_family detection check_detection
doji_family-EndsWith c g prior limits = ground arith

long_wick_family-EndsWith :
    (c : Candle) (g : Geometry) (prior : PriorTrend) (limits : PatternThresholds)
    → Ensures (EndsWith c) (long_wick_family c g prior limits)
unfolding long_wick_family detection check_detection
long_wick_family-EndsWith c g prior limits = ground arith

pairs-EndsWith :
    (b : Option Candle) (c : Candle) (prior : Prior) (limits : PatternThresholds)
    → Ensures (EndsWith c) (pairs b c prior limits)
pairs-EndsWith none c prior limits = tt
pairs-EndsWith (some b) c prior limits =
    and_then-EndsWith c (engulfing b c (for_length prior 2) limits)
      (piercing b c (for_length prior 2) limits)
      (engulfing-EndsWith b c (for_length prior 2) limits)
      (piercing-EndsWith b c (for_length prior 2) limits)

triples-EndsWith :
    (a b : Option Candle) (c : Candle) (prior : Prior) (limits : PatternThresholds)
    → Ensures (EndsWith c) (triples a b c prior limits)
triples-EndsWith none b c prior limits = tt
triples-EndsWith (some a) none c prior limits = tt
triples-EndsWith (some a) (some b) c prior limits =
    and_then-EndsWith c (star_family a b c (for_length prior 3) limits)
      (marching a b c (for_length prior 3) limits)
      (star_family-EndsWith a b c (for_length prior 3) limits)
      (marching-EndsWith a b c (for_length prior 3) limits)

detect_with-EndsWith :
    (clash : Bool) (previous first : Option Candle) (prior : Prior) (limits : PatternThresholds)
    (c : Candle)
    → Ensures (EndsWith c) (detect_with clash previous first prior limits c)
detect_with-EndsWith true previous first prior limits c = tt
detect_with-EndsWith false previous first prior limits c =
    bind-Ensures (λ _. Unit) (EndsWith c) (geometry c) _ (Ensures-any _)
      λ shape _.
        bind-Ensures (EndsWith c) (EndsWith c)
          (and_then (doji_family c shape (for_length prior 1) limits) (
            and_then (long_wick_family c shape (for_length prior 1) limits)
              (and_then (pairs previous c prior limits) (triples first previous c prior limits))))
          _
          (and_then-EndsWith c _ _ (doji_family-EndsWith c shape (for_length prior 1) limits) (
            and_then-EndsWith c _ _ (long_wick_family-EndsWith c shape (for_length prior 1) limits)
              (and_then-EndsWith c _ _ (pairs-EndsWith previous c prior limits)
                (triples-EndsWith first previous c prior limits))))
          (λ ds h.
            sort_by-All detection_key (λ d. (d.end_ts ≡ c.end_ts) × (d.timeframe ≡ c.timeframe)) ds
              h)

-- If `detect_at` returns, every pattern that it finds at an index ends with the candle there and
-- has its timeframe.
pub detect_at-EndsWith :
    (cs : List Candle) (i : ℕ) (prior : Prior) (limits : PatternThresholds) (current : Candle)
    → get_elem? cs i ≡ some current
    → Ensures (EndsWith current) (detect_at cs (pos i) prior limits)
unfolding detect_at
detect_at-EndsWith cs i prior limits current e =
    subst
      (λ o.
        Ensures (EndsWith current) (or_raise o index_error >>= detect_current cs i prior limits))
      (sym e)
      (detect_with-EndsWith (mixed current.timeframe cs) (candle_before cs i 0)
        (candle_before cs i 1) prior limits current)
