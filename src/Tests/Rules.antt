-- ===== src/Tests/Rules.antt =====
-- src/virtual_orders/alerts/rules.py, watchlist.py and analytics/pressure.py at concrete bars and bodies.
use research_platform.Prelude.{◌≡◌, refl, true, Option, none, some, List, [], ◌∷◌, arith}
use research_platform.Prelude.Int.{pos, negsuc, ◌*ℤ◌, ◌-ℤ◌, ◌+ℤ◌}
use research_platform.Prelude.Sort.{sort_by}
use research_platform.Result.{Result, ok, Ensures}
use research_platform.Decimal
use research_platform.Decimal.{Decimal, from_ℕ}
use research_platform.Domain.Signal.{Bar}
use research_platform.Domain.Values.{Value, Fields, field, end, lookup}
use research_platform.Alerts.Rules.{price_crossings, scan_crossings, crossed, pressure_alert}
use research_platform.Alerts.Rules.Cooldown.{AreSpaced, last_after, price_crossings_twice}
use research_platform.Alerts.Rules.Window.{IsDue, pressure_alert-IsDue}
use research_platform.Alerts.Watchlist.{
  RuleError, RuleKind, CrossDirection, parsed, invalid, unknown_names, insert_name, parse_rule_body,
}
use research_platform.Alerts.Watchlist.Usable.{IsUsableOrRefused, parse_rule_body-IsUsable}
use research_platform.Analytics.Pressure.{
  PressureEstimate, PressureSide, estimate_of, estimate_pressure, strong_pressure, location_of,
  quantize_pressure,
}
use research_platform.Tests.Orders.{above, touch, drop, bar_of}

abbrev falling_bars : List Bar
falling_bars = drop ∷ above ∷ touch ∷ []

one_crossing : price_crossings falling_bars (from_ℕ 100) "BELOW" 60_000_000 none ≡ ok (drop ∷ [])
unfolding price_crossings scan_crossings crossed sort_by Decimal.lt Decimal.le ◌*ℤ◌ ◌-ℤ◌
one_crossing = refl

price_crossings_twice_example :
    Ensures
      (λ out.
        AreSpaced 60_000_000 none out
        × (price_crossings falling_bars (from_ℕ 100) "BELOW" 60_000_000 (last_after none out)
            ≡ ok []))
      (price_crossings falling_bars (from_ℕ 100) "BELOW" 60_000_000 none)
price_crossings_twice_example =
    price_crossings_twice falling_bars (from_ℕ 100) "BELOW" 60_000_000 none (omega arith)

abbrev half : Decimal
half = record { int = pos 5; exp = negsuc 0 }

-- Three bars that rise and close at their highs, after an alert two minutes before the last.
abbrev rising_bars : List Bar
rising_bars =
    bar_of 660_000_000 102 104 102 104
    ∷ bar_of 720_000_000 104 106 104 106
    ∷ bar_of 600_000_000 100 102 100 102
    ∷ []

abbrev side_of : Result (Option (PressureEstimate × PressureSide)) → Option PressureSide
side_of (ok (some (_, side))) = some side
side_of _ = none

rising_alert :
    side_of (pressure_alert rising_bars half 3 60_000_000 (some 600_000_000))
    ≡ some PressureSide.buy
unfolding pressure_alert estimate_pressure estimate_of strong_pressure location_of quantize_pressure
    sort_by Decimal.lt Decimal.le ◌*ℤ◌ ◌-ℤ◌ ◌+ℤ◌ Decimal.quantize Decimal.sub Decimal.quotient
    Decimal.mul
rising_alert = refl

pressure_alert-IsDue_example :
    Ensures
      (IsDue rising_bars half 3 60_000_000 (some 600_000_000))
      (pressure_alert rising_bars half 3 60_000_000 (some 600_000_000))
pressure_alert-IsDue_example =
    pressure_alert-IsDue rising_bars half 3 60_000_000 (some 600_000_000) (omega arith)

abbrev price_body : Fields
price_body =
    field "kind" (Value.str "PRICE_CROSS")
      (field "level" (Value.int (pos 100)) (field "direction" (Value.str "BELOW") end))

abbrev mixed_body : Fields
mixed_body =
    field "kind" (Value.str "PRICE_CROSS")
      (field "level" (Value.flag true) (field "window_bars" (Value.int (pos 5)) end))

price_parsed :
    parse_rule_body price_body
    ≡ parsed (record {
      kind = RuleKind.price_cross;
      level = some (from_ℕ 100);
      direction = some CrossDirection.below;
      cmf_threshold = none;
      window_bars = none;
      cooldown_minutes = pos 30;
    })
unfolding parse_rule_body unknown_names insert_name lookup Decimal.le ◌*ℤ◌ ◌-ℤ◌
price_parsed = refl

mixed_refused :
    parse_rule_body mixed_body
    ≡ invalid (
        RuleError.invalid_decimal "level"
        ∷ RuleError.missing_field "direction"
        ∷ RuleError.not_allowed "window_bars"
        ∷ [])
unfolding parse_rule_body unknown_names insert_name lookup
mixed_refused = refl

parse_rule_body-IsUsable_example : IsUsableOrRefused (parse_rule_body price_body)
parse_rule_body-IsUsable_example = parse_rule_body-IsUsable price_body
