-- ===== src/Research/Causal.antt =====
-- `detect_at` on a series that goes on after its index.
use research_platform.Prelude.{
  ℕ, zero, suc, ◌<◌, ◌≡◌, refl, ap, sym, ◌∙◌, true, false, some, List, [], ◌∷◌, ◌++◌, length,
  get_elem?, get_elem?-append, All, arith,
}
use research_platform.Prelude.Int.{pos}
use research_platform.Result.{index_error, ◌>>=◌, or_raise}
use research_platform.Research.Candle.{Candle, Timeframe, same_timeframe}
use research_platform.Research.Geometry.{PatternThresholds}
use research_platform.Research.Detect.{
  Prior, mixed, candle_before, detect_current, detect_with, detect_at,
}

candle_before-append :
    (xs ys : List Candle) (i back : ℕ)
    → i < length xs
    → candle_before (xs ++ ys) i back ≡ candle_before xs i back
candle_before-append xs ys zero back h = refl
candle_before-append xs ys (suc i) zero h = get_elem?-append xs ys i (omega arith)
candle_before-append xs ys (suc i) (suc back) h = candle_before-append xs ys i back (omega arith)

-- Every candle has the timeframe.
abbrev pub AllSame : Timeframe → List Candle → Type 0
AllSame t cs = All (λ c. same_timeframe c.timeframe t ≡ true) cs

mixed-AllSame : (t : Timeframe) (cs : List Candle) → AllSame t cs → mixed t cs ≡ false
mixed-AllSame t [] h = refl
mixed-AllSame t (c ∷ cs) h = rw h.0 (mixed-AllSame t cs h.1)

AllSame-append :
    (t : Timeframe) (xs ys : List Candle) → AllSame t xs → AllSame t ys → AllSame t (xs ++ ys)
AllSame-append t [] ys h k = k
AllSame-append t (x ∷ xs) ys h k = (h.0, AllSame-append t xs ys h.1 k)

-- On candles of one timeframe, candles that come after the index do not change what `detect_at`
-- finds at it, errors included: there is no look-ahead.
pub detect_at-append :
    (xs ys : List Candle) (i : ℕ) (prior : Prior) (limits : PatternThresholds) (current : Candle)
    → i < length xs
    → get_elem? xs i ≡ some current
    → AllSame current.timeframe xs
    → AllSame current.timeframe ys
    → detect_at (xs ++ ys) (pos i) prior limits ≡ detect_at xs (pos i) prior limits
unfolding detect_at
detect_at-append xs ys i prior limits current inside e same_xs same_ys =
    ap (λ o. or_raise o index_error >>= detect_current (xs ++ ys) i prior limits)
      (get_elem?-append xs ys i inside ∙ e)
    ∙ ap
        (λ clash.
          detect_with clash (candle_before (xs ++ ys) i 0) (candle_before (xs ++ ys) i 1) prior
            limits current)
        (mixed-AllSame current.timeframe (xs ++ ys)
            (AllSame-append current.timeframe xs ys same_xs same_ys)
          ∙ sym (mixed-AllSame current.timeframe xs same_xs))
    ∙ ap
        (λ previous.
          detect_with (mixed current.timeframe xs) previous (candle_before (xs ++ ys) i 1) prior
            limits current)
        (candle_before-append xs ys i 0 inside)
    ∙ ap
        (λ first.
          detect_with (mixed current.timeframe xs) (candle_before xs i 0) first prior limits
            current)
        (candle_before-append xs ys i 1 inside)
    ∙ ap (λ o. or_raise o index_error >>= detect_current xs i prior limits) (sym e)
