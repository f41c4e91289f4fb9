-- ===== src/Domain/Order.antt =====
-- src/core/domain/models.py: the state of an order, its events, and the context it is evaluated in.
pub mod Context
use research_platform.Prelude.{
  ℕ, Bool, true, false, not, ◌&&◌, Option, none, some, String, List, [], ◌∷◌, leb,
}
use research_platform.Result.{
  Result, ok, err, value_error, calendar_range, ◌>>=◌, ◌>>◌, guard, raise_if,
}
use research_platform.Decimal.{Decimal, zero_decimal}
use research_platform.Calendar.{
  SessionCalendar, is_whole_minute, is_expected_minute, is_session_close, next_expected_minute,
  last_expected_minute_before,
}
use research_platform.Domain.Values.{Fields}
use research_platform.Domain.Signal.{SignalSpec, FillConfig}

pub data OrderStatus : Type 0 where
  pending opened partial closed expired invalidated canceled : OrderStatus

-- `status in FINAL_STATUSES`
abbrev pub final_status : OrderStatus → Bool
final_status OrderStatus.closed = true
final_status OrderStatus.expired = true
final_status OrderStatus.invalidated = true
final_status OrderStatus.canceled = true
final_status _ = false

pub data EventType : Type 0 where
  order_created trigger_hit zone_lost zone_reclaimed filled : EventType
  target1_hit target2_hit stopped time_exit : EventType
  expired invalidated canceled frozen dividend : EventType
  data_quality data_gap needs_review : EventType

-- `type in MARKET_EVENT_TYPES`
abbrev pub market_event : EventType → Bool
market_event EventType.trigger_hit = true
market_event EventType.zone_lost = true
market_event EventType.zone_reclaimed = true
market_event EventType.filled = true
market_event EventType.target1_hit = true
market_event EventType.target2_hit = true
market_event EventType.stopped = true
market_event EventType.time_exit = true
market_event EventType.invalidated = true
market_event _ = false

pub data CloseReason : Type 0 where
  stopped target_final time_exit : CloseReason

pub data EntryPath : Type 0 where
  direct reclaimed : EntryPath

pub record GatingState : Type 0 where
  pub status : OrderStatus
  pub zone_lost : Bool
  pub entry_eligible_from : Option ℕ
  pub trigger_hit_at : Option ℕ

pub record OrderContext : Type 0 where
  pub signal : SignalSpec
  pub config : FillConfig
  pub calendar : SessionCalendar
  pub evaluation_start_ts : ℕ
  pub valid_until_ts : ℕ

-- `try: … except CalendarRangeError: start_is_expected = False`
abbrev pub expected_or_false : Result Bool → Result Bool
expected_or_false (err calendar_range) = ok false
expected_or_false r = r

-- `try: … except CalendarRangeError: raise ValueError`
abbrev pub range_as_value : {A : Type 0} → Result A → Result A
range_as_value (err calendar_range) = err value_error
range_as_value r = r

-- `OrderContext.__post_init__`
unfoldable pub make_context :
    SignalSpec → FillConfig → SessionCalendar → (start until : ℕ) → Result OrderContext
unfolding is_expected_minute is_session_close next_expected_minute last_expected_minute_before
make_context signal config calendar start until = do
  raise_if (leb until start) value_error
  start_is_expected ← expected_or_false (is_expected_minute calendar start)
  guard start_is_expected value_error
  guard (is_session_close calendar until) value_error
  following ←
      range_as_value (last_expected_minute_before calendar until >>= next_expected_minute calendar)
  ok (record {
    signal = signal;
    config = config;
    calendar = calendar;
    evaluation_start_ts = start;
    valid_until_ts = until;
  })

pub record OrderState : Type 0 where
  pub status : OrderStatus
  pub zone_lost : Bool
  pub zone_ever_lost : Bool
  pub entry_eligible_from : Option ℕ
  pub trigger_hit_at : Option ℕ
  pub entry_path : Option EntryPath
  pub avg_entry : Option Decimal
  pub initial_stop : Option Decimal
  pub stop_current : Option Decimal
  pub stop_previous : Option Decimal
  pub stop_active_from : Option ℕ
  pub t1_done : Bool
  pub qty_total : Decimal
  pub qty_open : Decimal
  pub realized_pnl : Decimal
  pub costs : Decimal
  pub dividends : Decimal
  pub best_price : Option Decimal
  pub worst_price : Option Decimal
  pub opened_at : Option ℕ
  pub closed_at : Option ℕ
  pub final_event_ts : Option ℕ
  pub last_bar_ts : Option ℕ
  pub close_reason : Option CloseReason
  pub frozen : Bool
  pub frozen_reasons : List String
  pub review_reasons : List String

-- `OrderState()`: the defaults of the fields.
abbrev pub default_state : OrderState
default_state = record {
  status = OrderStatus.pending;
  zone_lost = false;
  zone_ever_lost = false;
  entry_eligible_from = none;
  trigger_hit_at = none;
  entry_path = none;
  avg_entry = none;
  initial_stop = none;
  stop_current = none;
  stop_previous = none;
  stop_active_from = none;
  t1_done = false;
  qty_total = zero_decimal;
  qty_open = zero_decimal;
  realized_pnl = zero_decimal;
  costs = zero_decimal;
  dividends = zero_decimal;
  best_price = none;
  worst_price = none;
  opened_at = none;
  closed_at = none;
  final_event_ts = none;
  last_bar_ts = none;
  close_reason = none;
  frozen = false;
  frozen_reasons = [];
  review_reasons = [];
}

abbrev pub is_final : OrderState → Bool
is_final s = final_status s.status

abbrev pub is_nonempty : List String → Bool
is_nonempty [] = false
is_nonempty (_ ∷ _) = true

-- The property `needs_review`.
abbrev pub order_needs_review : OrderState → Bool
order_needs_review s = is_nonempty s.review_reasons

abbrev pub gating_state : OrderState → GatingState
gating_state s = record {
  status = s.status;
  zone_lost = s.zone_lost;
  entry_eligible_from = s.entry_eligible_from;
  trigger_hit_at = s.trigger_hit_at;
}

-- What a review or a dividend is about: `isoformat()` of an instant or a date, or another text.
pub data Ref : Type 0 where
  iso_instant : ℕ → Ref
  iso_date : ℕ → Ref
  other : String → Ref

-- `event_key`, by the parts that its format joins: the type's name, alone or with what follows the
-- colon.
pub data EventKey : Type 0 where
  named : EventType → EventKey
  at_bar : EventType → ℕ → EventKey
  with_reason : EventType → String → EventKey
  with_ref : EventType → String → Ref → EventKey
  on_date : EventType → ℕ → EventKey

pub record Event : Type 0 where
  pub type : EventType
  pub event_key : EventKey
  pub bar_ts : Option ℕ
  pub price : Option Decimal
  pub qty : Option Decimal
  pub bar_batch_id : Option ℕ
  pub payload : Fields

abbrev whole_or_absent : Option ℕ → Bool
whole_or_absent none = true
whole_or_absent (some t) = is_whole_minute t

abbrev present {ℓ} : {A : Type ℓ} → Option A → Bool
present none = false
present (some _) = true

-- `Event.__post_init__`
unfoldable pub make_event : Event → Result Event
make_event e = do
  guard (whole_or_absent e.bar_ts) value_error
  raise_if (market_event e.type && not (present e.bar_ts)) value_error
  ok e
