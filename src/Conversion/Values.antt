-- ===== src/Conversion/Values.antt =====
-- `json_to_column_value`: a JSON value of the coordinator as core's `ColumnValue`.
use stackable_odbc_trino.Base.{
  ℕ, ◌^◌, ℤ, pos, negsuc, Bool, not, ◌||◌, ltb, leb, Option, none, some, if◌then◌else◌,
}
use stackable_odbc_trino.Base.Fallible.{◌>>=◌, get_or}
use stackable_odbc_trino.Base.Text.{Text, codes, eq_text}
use stackable_odbc_trino.Base.Text.Parts.{or_else}
use stackable_odbc_trino.Column
use stackable_odbc_trino.Column.{ColumnValue}
use stackable_odbc_trino.Params.Literal.{is_finite_f32, is_finite_f64}
use stackable_odbc_trino.Conversion.Temporal.{
  parse_trino_date, parse_trino_time, parse_trino_timestamp,
}
use stackable_odbc_trino.Conversion.Offsets.{parse_trino_time_with_tz}
use stackable_odbc_trino.Conversion.Nested.{
  TrinoTy, PlainType, Types, no_types, with_type, NamedTypes, no_fields, with_field, Value, string,
  items, object, scalar, Scalar, Values, no_values, with_value, Members, no_members, with_member,
}
use stackable_odbc_trino.Conversion.Zones.{
  Chrono, SessionZone, offset_minutes_at, parse_i64, parse_trino_timestamp_tz,
}

-- `Value::as_i64`
unfoldable pub as_i64 : Value → Option ℤ
as_i64 (scalar (Scalar.integer (pos n))) = if leb n 9223372036854775807 then some (pos n) else none
as_i64 (scalar (Scalar.integer (negsuc n))) =
    if leb n 9223372036854775807 then some (negsuc n) else none
as_i64 _ = none

-- `Value::as_str`
unfoldable pub as_str : Value → Option Text
as_str (string s) = some s
as_str _ = none

-- `Value::as_bool`
unfoldable pub as_bool : Value → Option Bool
as_bool (scalar (Scalar.bool b)) = some b
as_bool _ = none

-- `iN::try_from`, for the width in bits less one.
abbrev pub fits : ℕ → ℤ → Bool
fits bits (pos n) = ltb n (2 ^ bits)
fits bits (negsuc n) = ltb n (2 ^ bits)

-- The bit patterns of a quiet NaN and of the two infinities.
unfoldable pub trino_special_float : Text → Option ℕ
unfolding eq_text
trino_special_float s =
    if eq_text s (codes "NaN")
    then some 0x7ff8000000000000
    else if eq_text s (codes "Infinity")
    then some 0x7ff0000000000000
    else if eq_text s (codes "-Infinity")
    then some 0xfff0000000000000
    else none

-- `serde_json`'s text of a value, Rust's conversions of numbers to floats, the reader of the
-- standard base64 alphabet, and the current instant.
pub record Readers (x : Chrono) : Type 0 where
  pub to_string : Value → Text
  pub float_of : ℤ → ℕ
  pub narrow : ℕ → ℕ
  pub decode_standard : Text → Option Text
  pub utc_now : x.DateTime

-- A null is a null whatever the type.
unfoldable pub unless_null : Value → ColumnValue → ColumnValue
unless_null (scalar Scalar.null) v = ColumnValue.null
unless_null (scalar (Scalar.bool b)) v = v
unless_null (scalar (Scalar.integer n)) v = v
unless_null (scalar (Scalar.float b)) v = v
unless_null (string s) v = v
unless_null (items vs) v = v
unless_null (object ms) v = v

-- `into_iter().map(f).collect()`, of an array and of an object.
unfoldable pub map_values : (Value → ColumnValue) → Values → Column.Values
map_values f no_values = Column.nil
map_values f (with_value v vs) = Column.cons (f v) (map_values f vs)

unfoldable pub map_members : (Text → ColumnValue) → (Value → ColumnValue) → Members → Column.Pairs
map_members f g no_members = Column.end
map_members f g (with_member k v ms) = Column.pair (f k) (g v) (map_members f g ms)

-- The first value with the first type, as `zip` pairs them.
unfoldable pub zip_first : (Value → ColumnValue) → (Values → Column.Values) → Values → Column.Values
zip_first f rest no_values = Column.nil
zip_first f rest (with_value v vs) = Column.cons (f v) (rest vs)

module _ (x : Chrono) (r : Readers x) where
  unfoldable pub json_as_text : Value → Text
  json_as_text (string s) = s
  json_as_text v = r.to_string v

  -- The value as text, of a type that is not read further.
  unfoldable pub as_string : Value → ColumnValue
  as_string v = ColumnValue.string (json_as_text v)

  -- `Value::as_f64`
  unfoldable pub as_f64 : Value → Option ℕ
  as_f64 (scalar (Scalar.integer n)) = some (r.float_of n)
  as_f64 (scalar (Scalar.float b)) = some b
  as_f64 _ = none

  unfoldable pub float_value : Value → Option ℕ
  unfolding as_f64 as_str trino_special_float
  float_value v = or_else (as_f64 v) (as_str v >>= trino_special_float)

  -- An integer type: the number, if it fits, and the text otherwise.
  unfoldable pub integer_value : ℕ → (ℤ → ColumnValue) → Value → ColumnValue
  unfolding as_i64 as_string
  integer_value bits typed v =
      get_or (as_i64 v >>= λ n. some (if fits bits n then typed n else as_string v)) (as_string v)

  -- A float that fits its 32 bits, or is no finite number.
  unfoldable pub real_value : Value → ℕ → ColumnValue
  unfolding as_string
  real_value v f =
      if is_finite_f32 (r.narrow f) || not (is_finite_f64 f)
      then ColumnValue.f32 (r.narrow f)
      else as_string v

  -- A text that is parsed, and is delivered as it is where that fails.
  unfoldable pub parsed : (Text → Option ColumnValue) → Value → ColumnValue
  parsed parse (string s) = get_or (parse s) (ColumnValue.string s)
  parsed parse v = ColumnValue.string (r.to_string v)

  unfoldable pub base64_decode : Text → Option ColumnValue
  base64_decode s = r.decode_standard s >>= λ b. some (ColumnValue.bytes b)

  unfoldable pub plain_value : PlainType → Value → ColumnValue
  unfolding integer_value float_value real_value as_bool parsed
  plain_value PlainType.int64 v =
      get_or (or_else (as_i64 v) (as_str v >>= parse_i64) >>= λ n. some (ColumnValue.i64 n))
        (as_string v)
  plain_value PlainType.int32 v = integer_value 31 ColumnValue.i32 v
  plain_value PlainType.int16 v = integer_value 15 ColumnValue.i16 v
  plain_value PlainType.int8 v = integer_value 7 ColumnValue.i8 v
  plain_value PlainType.float64 v =
      get_or (float_value v >>= λ f. some (ColumnValue.f64 f)) (as_string v)
  plain_value PlainType.float32 v =
      get_or (float_value v >>= λ f. some (real_value v f)) (as_string v)
  plain_value PlainType.boolean v =
      get_or (as_bool v >>= λ b. some (ColumnValue.bool b)) (as_string v)
  plain_value PlainType.date v = parsed parse_trino_date v
  plain_value (PlainType.decimal p s) v = ColumnValue.decimal (json_as_text v)
  plain_value PlainType.json v = ColumnValue.json (json_as_text v)
  plain_value PlainType.var_binary v = parsed base64_decode v
  plain_value PlainType.varchar v = as_string v
  plain_value PlainType.uuid v = as_string v
  plain_value PlainType.ip_address v = as_string v
  plain_value PlainType.interval_year_to_month v = as_string v
  plain_value PlainType.interval_day_to_second v = as_string v
  plain_value PlainType.unknown v = as_string v
  plain_value (PlainType.char n) v = as_string v

  -- Arrays and objects; any other value of such a type is delivered as its JSON text.
  unfoldable pub of_items : (Values → ColumnValue) → Value → ColumnValue
  of_items f (items vs) = f vs
  of_items f v = ColumnValue.string (r.to_string v)

  unfoldable pub of_object : (Members → ColumnValue) → Value → ColumnValue
  of_object f (object ms) = f ms
  of_object f v = ColumnValue.string (r.to_string v)

  module _ (session : SessionZone x) where
    unfoldable mutual
      pub json_to_column_value : TrinoTy → Value → ColumnValue
      json_to_column_value TrinoTy.time v = unless_null v (parsed parse_trino_time v)
      json_to_column_value TrinoTy.time_with_time_zone v =
          unless_null v
            (parsed (λ s. parse_trino_time_with_tz s (offset_minutes_at x session r.utc_now)) v)
      json_to_column_value TrinoTy.timestamp v = unless_null v (parsed parse_trino_timestamp v)
      json_to_column_value TrinoTy.timestamp_with_time_zone v =
          unless_null v (parsed (λ s. parse_trino_timestamp_tz x s session) v)
      json_to_column_value (TrinoTy.option inner) v = unless_null v (json_to_column_value inner v)
      json_to_column_value (TrinoTy.array inner) v =
          unless_null v
            (of_items (λ vs. ColumnValue.array (map_values (json_to_column_value inner) vs)) v)
      json_to_column_value (TrinoTy.map_of key_ty val_ty) v = unless_null v (
          of_object
            (λ ms. ColumnValue.map_of (
              map_members (λ k. json_to_column_value key_ty (string k))
                (json_to_column_value val_ty) ms))
            v)
      json_to_column_value (TrinoTy.row fields) v =
          unless_null v (of_items (λ vs. ColumnValue.row (row_values fields vs)) v)
      json_to_column_value (TrinoTy.tuple fields) v =
          unless_null v (of_items (λ vs. ColumnValue.row (tuple_values fields vs)) v)
      json_to_column_value (TrinoTy.plain_type plain) v = unless_null v (plain_value plain v)

      pub row_values : NamedTypes → Values → Column.Values
      row_values no_fields vs = Column.nil
      row_values (with_field name ty fields) vs =
          zip_first (json_to_column_value ty) (row_values fields) vs

      pub tuple_values : Types → Values → Column.Values
      tuple_values no_types vs = Column.nil
      tuple_values (with_type ty types) vs =
          zip_first (json_to_column_value ty) (tuple_values types) vs
