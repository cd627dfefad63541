-- ===== src/Conversion/ValueTests.antt =====
-- Values of the coordinator read in a session two hours east of Greenwich, with a clock that counts
-- seconds beside the fields it was given.
use stackable_odbc_trino.Base.{
  ℕ, [], ◌∷◌, ◌++◌, min, sym, ◌≡◌, refl, ap, ℤ, pos, negsuc, ◌+ℤ◌, ◌-ℤ◌, true, Option, none, some,
  arith, int_laws, eq_of_parts, if◌then◌else◌,
}
use stackable_odbc_trino.Base.Text.{Text, codes, eq_text}
use stackable_odbc_trino.Column
use stackable_odbc_trino.Column.{ColumnValue}
use stackable_odbc_trino.Conversion.Nested.{
  TrinoTy, PlainType, with_type, no_types, Value, items, scalar, Scalar, with_value, no_values,
}
use stackable_odbc_trino.Conversion.Zones.{Chrono, SessionZone, fixed, parse_trino_timestamp_tz}
use stackable_odbc_trino.Params.Literal.{date_text, time_text, offset_text}
use stackable_odbc_trino.Conversion.Offsets.{times}
use stackable_odbc_trino.Conversion.OwnZone.{KeepsTime}
use stackable_odbc_trino.Conversion.SessionOffset.{
  parse_session_zone-offset_text, parse_trino_timestamp_tz-parse_session_zone,
}
use stackable_odbc_trino.Conversion.Values.{
  Readers, json_to_column_value, unless_null, of_items, zip_first, plain_value, integer_value,
  as_i64, as_string, json_as_text, map_values, as_bool,
}
use stackable_odbc_trino.Conversion.Typed.{IsOf}
use stackable_odbc_trino.Conversion.TypedValues.{json_to_column_value-IsOf}

pub record Moment : Type 0 where
  pub y : ℤ
  pub mo : ℕ
  pub d : ℕ
  pub h : ℕ
  pub mi : ℕ
  pub s : ℕ
  pub shift : ℤ

abbrev pub moment : ℤ → ℕ → ℕ → ℕ → ℕ → ℕ → ℕ → Option Moment
moment year mo d h mi s f =
    some (record { y = year; mo = mo; d = d; h = h; mi = mi; s = s; shift = pos 0 })

abbrev pub greenwich : Text → Option ℤ
greenwich name = if eq_text name (codes "UTC") then some (pos 0) else none

-- A zone is its offset in seconds.
abbrev pub clock : Chrono
clock = record {
  DateTime = Moment;
  Zone = ℤ;
  from_fields = moment;
  year = λ t. t.y;
  month = λ t. t.mo;
  day = λ t. t.d;
  hour = λ t. t.h;
  minute = λ t. t.mi;
  second = λ t. t.s;
  try_seconds = λ n. some n;
  earlier = λ t n. record t { shift = t.shift -ℤ n };
  later = λ t n. record t { shift = t.shift +ℤ n };
  parse_zone = greenwich;
  earliest = λ z t. some (record t { shift = t.shift -ℤ z });
  local_time = λ z t. record t { shift = t.shift +ℤ z };
  offset_at = λ z t. z;
}

there_and_back : (k n : ℤ) → (k -ℤ n) +ℤ n ≡ k
there_and_back k n = eq_of_parts _ _ (omega int_laws)

clock-KeepsTime : KeepsTime clock
clock-KeepsTime = record {
  shifted_back = λ t n. ap (λ k. record t { shift = k }) (there_and_back t.shift n);
  keeps_fields = λ y mo d h mi s f t e.
      let k : record { y = y; mo = mo; d = d; h = h; mi = mi; s = s; shift = pos 0 } ≡ t = cc in
      (
        ap (λ m. m.y) (sym k),
        ap (λ m. m.mo) (sym k),
        ap (λ m. m.d) (sym k),
        ap (λ m. m.h) (sym k),
        ap (λ m. m.mi) (sym k),
        ap (λ m. m.s) (sym k),
      );
  spans_days = λ s b. refl;
}

abbrev pub at_noon : Moment
at_noon = record { y = pos 2026; mo = 2; d = 28; h = 12; mi = 0; s = 5; shift = pos 0 }

parse_trino_timestamp_tz-parse_session_zone_example :
    parse_trino_timestamp_tz clock
      (date_text (pos 2026) 2 28 ++ b' ' ∷ (time_text 12 0 5 250 ++ b' ' ∷ offset_text (pos 120)))
      (fixed (times 60 (pos 120)))
    ≡ some (ColumnValue.timestamp (pos 2026) 2 28 12 0 5 (min 250 999_999_999))
parse_trino_timestamp_tz-parse_session_zone_example =
    parse_trino_timestamp_tz-parse_session_zone clock clock-KeepsTime (fixed (times 60 (pos 120)))
      (pos 2026) 2 28 12 0 5 250 (pos 120) at_noon
      (parse_session_zone-offset_text clock (pos 120) (omega arith)) (omega arith) (omega arith)
      (omega arith) (omega arith) (omega arith) (omega arith) (omega arith) refl

-- JSON is not written out by these readers, numbers become no floats, and nothing is base64.
abbrev pub readers : Readers clock
readers = record {
  to_string = λ v. [];
  float_of = λ n. 0;
  narrow = λ b. b;
  decode_standard = λ s. none;
  utc_now = at_noon;
}

abbrev pub east : SessionZone clock
east = fixed (pos 7200)

-- A row of a number, of one too large for its type, and of an array with a null in it.
abbrev mixed_type : TrinoTy
mixed_type = TrinoTy.tuple (
    with_type (TrinoTy.plain_type PlainType.int32) (
      with_type (TrinoTy.plain_type PlainType.int8)
        (with_type (TrinoTy.array (TrinoTy.plain_type PlainType.boolean)) no_types)))

abbrev mixed_value : Value
mixed_value = items (
    with_value (scalar (Scalar.integer (negsuc 6))) (
      with_value (scalar (Scalar.integer (pos 128))) (
        with_value
          (items
            (with_value (scalar (Scalar.bool true)) (with_value (scalar Scalar.null) no_values)))
          no_values)))

abbrev mixed : ColumnValue
mixed = ColumnValue.row (
    Column.cons (ColumnValue.i32 (negsuc 6)) (
      Column.cons (ColumnValue.string []) (
        Column.cons
          (ColumnValue.array
            (Column.cons (ColumnValue.bool true) (Column.cons ColumnValue.null Column.nil)))
          Column.nil)))

mixed-json_to_column_value : json_to_column_value clock readers east mixed_type mixed_value ≡ mixed
unfolding json_to_column_value unless_null of_items zip_first plain_value integer_value as_i64
    as_string json_as_text map_values as_bool
mixed-json_to_column_value = refl

json_to_column_value-IsOf_example :
    IsOf clock readers mixed_type mixed_value
      (json_to_column_value clock readers east mixed_type mixed_value)
json_to_column_value-IsOf_example =
    json_to_column_value-IsOf clock readers east mixed_type mixed_value
