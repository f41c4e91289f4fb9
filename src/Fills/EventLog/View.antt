-- ===== src/Fills/EventLog/View.antt =====
-- The part of a state that its events tell, and the replay of events.
use research_platform.Prelude.{
  ℕ, ◌≡◌, Bool, true, false, Option, none, some, String, List, [], ◌∷◌, ◌++◌, refl, if◌then◌else◌,
}
use research_platform.Decimal
use research_platform.Decimal.{Decimal}
use research_platform.Domain.Values.{Value, lookup}
use research_platform.Domain.Order.{OrderStatus, OrderState, EventType, Event}

pub record View : Type 0 where
  pub status : OrderStatus
  pub zone_lost : Bool
  pub entry_eligible_from : Option ℕ
  pub trigger_hit_at : Option ℕ
  pub realized_pnl : Decimal
  pub costs : Decimal
  pub dividends : Decimal
  pub opened_at : Option ℕ
  pub frozen : Bool

abbrev pub view : OrderState → View
view s = record {
  status = s.status;
  zone_lost = s.zone_lost;
  entry_eligible_from = s.entry_eligible_from;
  trigger_hit_at = s.trigger_hit_at;
  realized_pnl = s.realized_pnl;
  costs = s.costs;
  dividends = s.dividends;
  opened_at = s.opened_at;
  frozen = s.frozen;
}

-- `total` with the amount under the key, if there is one.
abbrev plus_value : Decimal → Option Value → Decimal
plus_value total (some (Value.decimal d)) = Decimal.add total d
plus_value total _ = total

abbrev pub plus : Decimal → String → Event → Decimal
plus total key e = plus_value total (lookup key e.payload)

abbrev instant_value : Option Value → Option ℕ
instant_value (some (Value.instant t)) = some t
instant_value _ = none

abbrev pub is_final_target : Option Value → Bool
is_final_target (some (Value.flag b)) = b
is_final_target _ = false

-- A sale of all or of a part of the position.
abbrev pub booked : OrderStatus → View → Event → View
booked status v e = record v {
  status = status;
  realized_pnl = plus v.realized_pnl "pnl" e;
  costs = plus v.costs "cost" e;
}

abbrev pub apply_type : EventType → View → Event → View
apply_type EventType.trigger_hit v e = record v { trigger_hit_at = e.bar_ts }
apply_type EventType.zone_lost v e = record v { zone_lost = true }
apply_type EventType.zone_reclaimed v e = record v {
  zone_lost = false;
  entry_eligible_from = instant_value (lookup "entry_eligible_from" e.payload);
}
apply_type EventType.filled v e = record v {
  status = OrderStatus.opened;
  costs = plus v.costs "cost" e;
  opened_at = e.bar_ts;
}
apply_type EventType.target1_hit v e =
    booked
      (if is_final_target (lookup "final" e.payload)
        then OrderStatus.closed
        else OrderStatus.partial)
      v e
apply_type EventType.target2_hit v e = booked OrderStatus.closed v e
apply_type EventType.stopped v e = booked OrderStatus.closed v e
apply_type EventType.time_exit v e = booked OrderStatus.closed v e
apply_type EventType.expired v e = record v { status = OrderStatus.expired }
apply_type EventType.invalidated v e = record v { status = OrderStatus.invalidated }
apply_type EventType.canceled v e = record v { status = OrderStatus.canceled }
apply_type EventType.frozen v e = record v { frozen = true }
apply_type EventType.dividend v e = record v { dividends = plus v.dividends "cash" e }
apply_type _ v e = v

abbrev pub apply_event : View → Event → View
apply_event v e = apply_type e.type v e

-- The view after the events, oldest first.
abbrev pub replay : View → List Event → View
replay v [] = v
replay v (e ∷ es) = replay (apply_event v e) es

pub replay-append : (v : View) (es fs : List Event) → replay v (es ++ fs) ≡ replay (replay v es) fs
replay-append v [] fs = refl
replay-append v (e ∷ es) fs = replay-append (apply_event v e) es fs
