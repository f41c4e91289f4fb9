-- ===== src/Domain/Signal.antt =====
-- src/core/domain/models.py: bars, signals and the fill configuration, with their checks.
use research_platform.Prelude.{ℕ, Bool, ◌&&◌, ◌||◌, Option, none, some, String, [], ◌∷◌, ltb, any}
use research_platform.Prelude.Int.{ℤ, pos}
use research_platform.Result.{
  Result, ok, err, value_error, type_error, ◌>>=◌, ◌>>◌, guard, raise_if,
}
use research_platform.Decimal
use research_platform.Decimal.{Decimal, zero_decimal, from_ℕ}
use research_platform.Calendar.{Datetime, require_utc, is_whole_minute}
use research_platform.Domain.Values.{Value}

pub data Direction : Type 0 where
  long short : Direction

pub data ZoneLostPolicy : Type 0 where
  reclaim cancel : ZoneLostPolicy

-- `coerce_decimal(value, name)`. `parse` is the constructor `Decimal(str)`: `none` where it raises
-- `InvalidOperation`, else a finite or a non-finite value.
abbrev finite_decimal : Value → Result Decimal
finite_decimal (Value.decimal d) = ok d
finite_decimal Value.not_finite = err value_error
finite_decimal _ = err type_error

abbrev parsed_decimal : Option Value → Result Decimal
parsed_decimal none = err value_error
parsed_decimal (some v) = finite_decimal v

unfoldable pub coerce_decimal : (String → Option Value) → Value → Result Decimal
coerce_decimal parse (Value.flag _) = err type_error
coerce_decimal parse Value.float = err type_error
coerce_decimal parse (Value.int n) = ok (record { int = n; exp = pos 0 })
coerce_decimal parse (Value.str s) = parsed_decimal (parse s)
coerce_decimal parse (Value.enum s) = parsed_decimal (parse s)
coerce_decimal parse v = finite_decimal v

-- `coerce_decimal(value, name, optional=True)`
unfoldable pub coerce_optional : (String → Option Value) → Value → Result (Option Decimal)
unfolding coerce_decimal
coerce_optional parse Value.null = ok none
coerce_optional parse v = coerce_decimal parse v >>= λ d. ok (some d)

pub record Bar : Type 0 where
  pub ts : ℕ
  pub open_price : Decimal
  pub high : Decimal
  pub low : Decimal
  pub close : Decimal
  pub volume : Decimal
  pub batch_id : Option ℕ

-- `Bar.__post_init__`, given the fields as `Decimal`s.
unfoldable pub make_bar :
    Datetime → (open_price high low close volume : Decimal) → Option ℕ → Result Bar
unfolding require_utc Decimal.lt Decimal.min Decimal.max
make_bar at open_price high low close volume batch_id = do
  ts ← require_utc at
  guard (is_whole_minute ts) value_error
  raise_if
      (Decimal.lt (Decimal.min open_price close) low
        || Decimal.lt high (Decimal.max open_price close))
      value_error
  ok (record {
    ts = ts;
    open_price = open_price;
    high = high;
    low = low;
    close = close;
    volume = volume;
    batch_id = batch_id;
  })

pub record SignalSpec : Type 0 where
  pub ticker : String
  pub direction : Direction
  pub entry_zone_low : Decimal
  pub entry_zone_high : Decimal
  pub stop : Decimal
  pub target1 : Decimal
  pub target2 : Option Decimal
  pub trigger_price : Option Decimal
  pub valid_sessions : ℤ

pub record FillConfig : Type 0 where
  pub risk_amount : Decimal
  pub entry_slippage_bps : Decimal
  pub stop_slippage_bps : Decimal
  pub commission_per_execution : Decimal
  pub sec_taf_fees_enabled : Bool
  pub sec_fee_rate : Decimal
  pub taf_fee_per_share : Decimal
  pub taf_fee_max : Decimal
  pub zone_lost_policy : ZoneLostPolicy
  pub target1_scale_out_pct : Decimal
  pub data_gap_minutes : ℕ
  pub crosscheck_tolerance_pct : Decimal
  pub dividend_tolerance : Decimal

abbrev negative : Decimal → Bool
negative d = Decimal.lt d zero_decimal

-- The range checks of `FillConfig.__post_init__`, after the types are checked.
unfoldable pub check_config : FillConfig → Result FillConfig
unfolding Decimal.lt Decimal.le
check_config c = do
  raise_if (Decimal.le c.risk_amount zero_decimal) value_error
  guard
      (Decimal.lt zero_decimal c.target1_scale_out_pct
        && Decimal.lt c.target1_scale_out_pct (from_ℕ 100))
      value_error
  raise_if
      (any negative (
        c.entry_slippage_bps ∷ c.stop_slippage_bps ∷ c.commission_per_execution ∷ c.sec_fee_rate
        ∷ c.taf_fee_per_share ∷ c.taf_fee_max ∷ c.crosscheck_tolerance_pct ∷ c.dividend_tolerance
        ∷ []))
      value_error
  raise_if (ltb c.data_gap_minutes 1) value_error
  ok c
