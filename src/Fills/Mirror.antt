-- ===== src/Fills/Mirror.antt =====
-- src/core/fills/v1/mirror.py: SHORT orders run through the LONG rules on negated prices.
use research_platform.Prelude.{Bool, ◌||◌, Option, none, some, String, if◌then◌else◌}
use research_platform.Decimal
use research_platform.Decimal.{Decimal}
use research_platform.Domain.Values.{Value, Fields, field, end, ends_with}
use research_platform.Domain.Signal.{Bar, SignalSpec}
use research_platform.Domain.Order.{OrderState, Event}

-- `_neg`
abbrev pub neg_opt : Option Decimal → Option Decimal
neg_opt none = none
neg_opt (some d) = some (Decimal.neg d)

unfoldable pub mirror_bar : Bar → Bar
mirror_bar b = record b {
  open_price = Decimal.neg b.open_price;
  high = Decimal.neg b.low;
  low = Decimal.neg b.high;
  close = Decimal.neg b.close;
}

unfoldable pub mirror_signal : SignalSpec → SignalSpec
mirror_signal s = record s {
  entry_zone_low = Decimal.neg s.entry_zone_high;
  entry_zone_high = Decimal.neg s.entry_zone_low;
  stop = Decimal.neg s.stop;
  target1 = Decimal.neg s.target1;
  target2 = neg_opt s.target2;
  trigger_price = neg_opt s.trigger_price;
}

unfoldable pub mirror_state : OrderState → OrderState
mirror_state s = record s {
  avg_entry = neg_opt s.avg_entry;
  initial_stop = neg_opt s.initial_stop;
  stop_current = neg_opt s.stop_current;
  stop_previous = neg_opt s.stop_previous;
  best_price = neg_opt s.best_price;
  worst_price = neg_opt s.worst_price;
}

-- `key.endswith(PRICE_SUFFIXES)`
unfoldable pub is_price_key : String → Bool
unfolding ends_with
is_price_key key = ends_with key "_price" || ends_with key "_level"

abbrev neg_value : Value → Value
neg_value (Value.decimal d) = Value.decimal (Decimal.neg d)
neg_value v = v

abbrev pub mirror_value : String → Value → Value
mirror_value key v = if is_price_key key then neg_value v else v

unfoldable pub mirror_payload : Fields → Fields
unfolding is_price_key
mirror_payload end = end
mirror_payload (field key v rest) = field key (mirror_value key v) (mirror_payload rest)

unfoldable pub mirror_event : Event → Event
unfolding mirror_payload
mirror_event e = record e { price = neg_opt e.price; payload = mirror_payload e.payload }
