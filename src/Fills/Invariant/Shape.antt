-- ===== src/Fills/Invariant/Shape.antt =====
-- The well-formedness of an order's state, and what a call of the fill model may end in.
use research_platform.Prelude.{◌≡◌, refl, true, false, Option, none, some}
use research_platform.Result.{
  Result, ok, err, calendar_range, zero_division, value_error, type_error, runtime_error,
  assertion_error, out_of_fuel, invalid_operation, index_error, ◌>>=◌,
}
use research_platform.Decimal.{zero_decimal}
use research_platform.Calendar.Errors.{SafeQuery}
use research_platform.Domain.Order.{OrderStatus, OrderState}
use research_platform.Fills.Moves.{Outcome}

abbrev pub IsPresent : {A : Type 0} → Option A → Type 0
IsPresent none = ⊥
IsPresent (some _) = Unit

-- What the status says of the other fields.
abbrev pub Shape : OrderStatus → OrderState → Type 0
Shape OrderStatus.pending s =
    (s.avg_entry ≡ none) × (s.opened_at ≡ none) × (s.t1_done ≡ false) × (s.final_event_ts ≡ none)
Shape OrderStatus.opened s =
    IsPresent s.avg_entry × IsPresent s.opened_at × (s.t1_done ≡ false) × (s.final_event_ts ≡ none)
Shape OrderStatus.partial s =
    IsPresent s.avg_entry × IsPresent s.opened_at × (s.t1_done ≡ true) × (s.final_event_ts ≡ none)
Shape OrderStatus.closed s =
    IsPresent s.avg_entry
    × IsPresent s.opened_at
    × IsPresent s.close_reason
    × IsPresent s.closed_at
    × IsPresent s.final_event_ts
    × (s.qty_open ≡ zero_decimal)
Shape _ s = IsPresent s.final_event_ts

-- A stop that becomes active later replaces a previous one.
abbrev pub StopPair : {A B : Type 0} → Option A → Option B → Type 0
StopPair none _ = Unit
StopPair (some _) previous = IsPresent previous

pub record IsWellFormed (s : OrderState) : Type 0 where
  pub shape : Shape s.status s
  pub has_stop : IsPresent s.stop_current
  pub stop_pair : StopPair s.stop_active_from s.stop_previous

-- The call returns a state with `P`, or the calendar or a division raises; no other exception.
abbrev pub Safe : (OrderState → Type 0) → Result Outcome → Type 0
Safe P (ok o) = P o.0
Safe P (err calendar_range) = Unit
Safe P (err zero_division) = Unit
Safe P (err _) = ⊥

-- An order with a position.
abbrev pub Held : OrderStatus → Type 0
Held OrderStatus.opened = Unit
Held OrderStatus.partial = Unit
Held _ = ⊥

pub record IsHeld (s : OrderState) : Type 0 where
  pub well_formed : IsWellFormed s
  pub held : Held s.status

pub bind-Safe :
    (P Q : OrderState → Type 0) (m : Result Outcome) (f : Outcome → Result Outcome)
    → Safe P m
    → ((o : Outcome) → P o.0 → Safe Q (f o))
    → Safe Q (m >>= f)
bind-Safe P Q (ok o) f h k = k o h
bind-Safe P Q (err calendar_range) f h k = tt
bind-Safe P Q (err zero_division) f h k = tt
bind-Safe P Q (err value_error) f h k = absurd h
bind-Safe P Q (err type_error) f h k = absurd h
bind-Safe P Q (err runtime_error) f h k = absurd h
bind-Safe P Q (err assertion_error) f h k = absurd h
bind-Safe P Q (err out_of_fuel) f h k = absurd h
bind-Safe P Q (err invalid_operation) f h k = absurd h
bind-Safe P Q (err index_error) f h k = absurd h

-- A call that goes on from a query of the calendar.
pub query-Safe :
    {A : Type 0} (P : OrderState → Type 0) (m : Result A) (f : A → Result Outcome)
    → SafeQuery m
    → ((a : A) → Safe P (f a))
    → Safe P (m >>= f)
query-Safe P (ok a) f h k = k a
query-Safe P (err calendar_range) f h k = tt
query-Safe P (err zero_division) f h k = absurd h
query-Safe P (err value_error) f h k = absurd h
query-Safe P (err type_error) f h k = absurd h
query-Safe P (err runtime_error) f h k = absurd h
query-Safe P (err assertion_error) f h k = absurd h
query-Safe P (err out_of_fuel) f h k = absurd h
query-Safe P (err invalid_operation) f h k = absurd h
query-Safe P (err index_error) f h k = absurd h

-- The same, where the rest also has the equation of the query.
pub query_eq-Safe :
    {A : Type 0} (P : OrderState → Type 0) (m : Result A) (f : A → Result Outcome)
    → SafeQuery m
    → ((a : A) → m ≡ ok a → Safe P (f a))
    → Safe P (m >>= f)
query_eq-Safe P (ok a) f h k = k a refl
query_eq-Safe P (err calendar_range) f h k = tt
query_eq-Safe P (err zero_division) f h k = absurd h
query_eq-Safe P (err value_error) f h k = absurd h
query_eq-Safe P (err type_error) f h k = absurd h
query_eq-Safe P (err runtime_error) f h k = absurd h
query_eq-Safe P (err assertion_error) f h k = absurd h
query_eq-Safe P (err out_of_fuel) f h k = absurd h
query_eq-Safe P (err invalid_operation) f h k = absurd h
query_eq-Safe P (err index_error) f h k = absurd h
