-- ===== src/Alerts/Rules.antt =====
-- src/virtual_orders/alerts/rules.py: which closed minute bars an alert rule answers to.
pub mod Cooldown
pub mod Window
use text.Mathlib.Text.{◌==◌}
use research_platform.Prelude.{
  ℕ, zero, suc, ◌+◌, ◌-◌, Bool, true, false, not, ◌&&◌, Option, none, some, String, List, [], ◌∷◌,
  ltb, leb, if◌then◌else◌, length, drop,
}
use research_platform.Prelude.Sort.{sort_by}
use research_platform.Result.{Result, ok, value_error, ◌>>=◌, ◌>>◌, raise_if}
use research_platform.Decimal
use research_platform.Decimal.{Decimal}
use research_platform.Domain.Signal.{Bar}
use research_platform.Fills.Engine.{bar_key}
use research_platform.Analytics.Pressure.{
  PressureEstimate, PressureSide, estimate_pressure, strong_pressure,
}

abbrev pub is_above : String → Bool
is_above direction = direction == "ABOVE"

abbrev pub is_below : String → Bool
is_below direction = direction == "BELOW"

-- `_cooled`, of a cooldown that is not negative.
abbrev pub cooled : (ts : ℕ) → (last : Option ℕ) → (cooldown : ℕ) → Bool
cooled ts none cooldown = true
cooled ts (some last) cooldown = leb (last + cooldown) ts

unfoldable pub crossed : (above : Bool) → (level previous close : Decimal) → Bool
crossed true level previous close = Decimal.lt previous level && Decimal.le level close
crossed false level previous close = Decimal.lt level previous && Decimal.le close level

abbrev pub crosses : (above : Bool) → (level : Decimal) → Option Decimal → Bar → Bool
crosses above level none bar = false
crosses above level (some previous) bar = crossed above level previous bar.close

-- The loop over the ordered bars.
unfoldable pub scan_crossings :
    (above : Bool)
    → (level : Decimal) → (cooldown : ℕ) → (previous : Option Decimal) → (last : Option ℕ)
    → List Bar
    → List Bar
unfolding crossed
scan_crossings above level cooldown previous last [] = []
scan_crossings above level cooldown previous last (b ∷ bs) =
    let alerted = b ∷ scan_crossings above level cooldown (some b.close) (some b.ts) bs in
    let quiet = scan_crossings above level cooldown (some b.close) last bs in
    if crosses above level previous b && cooled b.ts last cooldown then alerted else quiet

unfoldable pub price_crossings :
    List Bar
    → (level : Decimal) → (direction : String) → (cooldown : ℕ) → (last_alert_ts : Option ℕ)
    → Result (List Bar)
unfolding scan_crossings
price_crossings bars level direction cooldown last_alert_ts = do
  raise_if (not (is_above direction) && not (is_below direction)) value_error
  ok (scan_crossings (is_above direction) level cooldown none last_alert_ts (sort_by bar_key bars))

-- `xs[-n:]`, which is the whole list for `n = 0`.
abbrev pub last_bars : ℕ → List Bar → List Bar
last_bars zero bars = bars
last_bars (suc n) bars = drop (length bars - suc n) bars

abbrev pub side_if_cooled :
    Bool → PressureEstimate → Option PressureSide → Option (PressureEstimate × PressureSide)
side_if_cooled may_alert e none = none
side_if_cooled may_alert e (some side) = if may_alert then some (e, side) else none

abbrev pub alert_of :
    (cmf_threshold : Decimal)
    → (cooldown : ℕ) → (last_alert_ts : Option ℕ) → Option PressureEstimate
    → Option (PressureEstimate × PressureSide)
alert_of threshold cooldown last none = none
alert_of threshold cooldown last (some e) =
    side_if_cooled (cooled e.last_bar_ts last cooldown) e (strong_pressure e threshold)

unfoldable pub pressure_alert :
    List Bar
    → (cmf_threshold : Decimal) → (window_bars cooldown : ℕ) → (last_alert_ts : Option ℕ)
    → Result (Option (PressureEstimate × PressureSide))
unfolding estimate_pressure strong_pressure
pressure_alert bars cmf_threshold window_bars cooldown last_alert_ts =
    let window = last_bars window_bars (sort_by bar_key bars) in
    let estimated = (do
      e ← estimate_pressure window
      ok (alert_of cmf_threshold cooldown last_alert_ts e)) in
    if ltb (length window) window_bars then ok none else estimated
