-- ===== src/Conversion/Nested.antt =====
-- `discards_fractional_seconds`: which values lose digits, through arrays, maps and rows.
use stackable_odbc_trino.Base.{ℕ, ℤ, Bool, false, ◌||◌}
use stackable_odbc_trino.Base.Text.{Text}
use stackable_odbc_trino.Conversion.Temporal.{fraction_exceeds_nanoseconds}

-- The variants of the client's `TrinoTy` that hold neither other types nor a time; `char` has its
-- length, `decimal` its precision and its scale.
pub data PlainType : Type 0 where
  int8 int16 int32 int64 float32 float64 boolean varchar date uuid json ip_address : PlainType
  interval_year_to_month interval_day_to_second var_binary unknown : PlainType
  char : ℕ → PlainType
  decimal : ℕ → ℕ → PlainType

-- The client's `TrinoTy`.
mutual
  pub data TrinoTy : Type 0 where
    time time_with_time_zone timestamp timestamp_with_time_zone : TrinoTy
    option array : TrinoTy → TrinoTy
    map_of : TrinoTy → TrinoTy → TrinoTy
    row : NamedTypes → TrinoTy
    tuple : Types → TrinoTy
    plain_type : PlainType → TrinoTy

  pub data Types : Type 0 where
    no_types : Types
    with_type : TrinoTy → Types → Types

  pub data NamedTypes : Type 0 where
    no_fields : NamedTypes
    with_field : Text → TrinoTy → NamedTypes → NamedTypes

-- A JSON value of `serde_json` that is neither a text nor a container. A number is an integer, if it
-- is written as one that 64 bits hold, or else a float, by its IEEE 754 bit pattern.
pub data Scalar : Type 0 where
  null : Scalar
  bool : Bool → Scalar
  integer : ℤ → Scalar
  float : ℕ → Scalar

-- A JSON value.
mutual
  pub data Value : Type 0 where
    string : Text → Value
    items : Values → Value
    object : Members → Value
    scalar : Scalar → Value

  pub data Values : Type 0 where
    no_values : Values
    with_value : Value → Values → Values

  pub data Members : Type 0 where
    no_members : Members
    with_member : Text → Value → Members → Members

-- `iter().any(test)` on an array, and on the pairs of an object.
unfoldable pub any_value : (Value → Bool) → Values → Bool
any_value test no_values = false
any_value test (with_value v vs) = test v || any_value test vs

unfoldable pub any_member : (Text → Value → Bool) → Members → Bool
any_member test no_members = false
any_member test (with_member k v ms) = test k v || any_member test ms

-- `matches!(val, Value::String(s) if ..)` and its like for the other two.
unfoldable pub text_exceeds : Value → Bool
text_exceeds (string s) = fraction_exceeds_nanoseconds s
text_exceeds _ = false

unfoldable pub in_items : (Values → Bool) → Value → Bool
in_items test (items vs) = test vs
in_items test _ = false

unfoldable pub in_object : (Members → Bool) → Value → Bool
in_object test (object ms) = test ms
in_object test _ = false

-- The first value of an array goes with the first type, as `zip` pairs them.
unfoldable pub first_value : (Value → Bool) → (Values → Bool) → Values → Bool
first_value test rest no_values = false
first_value test rest (with_value v vs) = test v || rest vs

unfoldable mutual
  pub discards_fractional_seconds : TrinoTy → Value → Bool
  discards_fractional_seconds TrinoTy.time v = text_exceeds v
  discards_fractional_seconds TrinoTy.time_with_time_zone v = text_exceeds v
  discards_fractional_seconds TrinoTy.timestamp v = text_exceeds v
  discards_fractional_seconds TrinoTy.timestamp_with_time_zone v = text_exceeds v
  discards_fractional_seconds (TrinoTy.option inner) v = discards_fractional_seconds inner v
  discards_fractional_seconds (TrinoTy.array inner) v =
      in_items (any_value (discards_fractional_seconds inner)) v
  discards_fractional_seconds (TrinoTy.map_of key_ty val_ty) v =
      in_object
        (any_member (λ k w.
          discards_fractional_seconds key_ty (string k) || discards_fractional_seconds val_ty w))
        v
  discards_fractional_seconds (TrinoTy.row fields) v = in_items (discards_in_row fields) v
  discards_fractional_seconds (TrinoTy.tuple fields) v = in_items (discards_in_tuple fields) v
  discards_fractional_seconds (TrinoTy.plain_type plain) v = false

  pub discards_in_row : NamedTypes → Values → Bool
  discards_in_row no_fields vs = false
  discards_in_row (with_field name ty fields) vs =
      first_value (discards_fractional_seconds ty) (discards_in_row fields) vs

  pub discards_in_tuple : Types → Values → Bool
  discards_in_tuple no_types vs = false
  discards_in_tuple (with_type ty types) vs =
      first_value (discards_fractional_seconds ty) (discards_in_tuple types) vs
