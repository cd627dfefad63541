-- ===== src/Conversion/Tests.antt =====
-- Wire texts on their way into values and back, and the theorems applied to them.
use Prim.Native.Nat.{min}
use stackable_odbc_trino.Conversion.Nested.{
  TrinoTy, PlainType, Scalar, with_field, no_fields, Value, string, items, scalar, with_value,
  no_values, any_value, in_items, first_value, text_exceeds, discards_fractional_seconds,
}
use stackable_odbc_trino.Conversion.Offsets.{
  parse_trino_time_with_tz, with_zone, with_offset, offset_minutes_of, offset_fields, signed,
  split_sign, shift_time, shift_clock, second_of, at_minute, to_u16, minute_of_day, times, checked,
}
use stackable_odbc_trino.Conversion.DayBounds.{InDay, parse_trino_time_with_tz-InDay}
use stackable_odbc_trino.Conversion.ZoneShift.{shift_time_back}
use stackable_odbc_trino.Base.{
  ℕ, true, ◌<◌, ◌%◌, pos_part, neg_part, ◌-ℤ◌, ◌+ℤ◌, ◌+◌, ◌*◌, ◌^◌, ◌≡◌, refl, ◌≢◌, ◌↔◌, ℤ, pos,
  false, ◌∷◌, ◌++◌, some, arith, length, All,
}
use stackable_odbc_trino.Base.Text.{
  Text, IsDigit, codes, value, split_once, parse_digits, all_digits, parse_unsigned,
}
use stackable_odbc_trino.Base.Text.Space.{trim, trim_start, trim_end, is_whitespace}
use stackable_odbc_trino.Column.{ColumnValue}
use stackable_odbc_trino.Params.Literal.{date_text, time_text}
use stackable_odbc_trino.Conversion.Temporal.{
  exceeds_behind, any_nonzero, take_digits, split_three, pad_end, parse_fraction_nanos,
  fraction_exceeds_nanoseconds, parse_trino_timestamp,
}
use stackable_odbc_trino.Conversion.RoundTrip.{parse_trino_timestamp-rendered}
use stackable_odbc_trino.Conversion.TypeName.{SqlDataType}
use stackable_odbc_trino.Conversion.TypeParams.{rsplit_once, parse_i32}
use stackable_odbc_trino.Conversion.Fractions.{fraction_exceeds_nanoseconds_iff}

parse_trino_timestamp-rendered_example :
    parse_trino_timestamp (date_text (pos 2026) 2 28 ++ b' ' ∷ time_text 23 59 59 1)
    ≡ some (ColumnValue.timestamp (pos 2026) 2 28 23 59 59 (min 1 999_999_999))
parse_trino_timestamp-rendered_example =
    parse_trino_timestamp-rendered (pos 2026) 2 28 23 59 59 1 (omega arith) (omega arith)
      (omega arith) (omega arith) (omega arith) (omega arith)

abbrev clock : Text
clock = codes "13:14:15"

abbrev picoseconds : Text
picoseconds = codes "123456789012"

clock_lacks_dot : All (λ c. c ≢ b'.') clock
clock_lacks_dot = ground arith

picoseconds-IsDigit : All IsDigit picoseconds
picoseconds-IsDigit = ground arith

fraction_exceeds_nanoseconds_iff_example :
    (fraction_exceeds_nanoseconds (clock ++ b'.' ∷ picoseconds) ≡ false)
    ↔ (value 0 picoseconds * 10 ^ 9 ≡ parse_fraction_nanos picoseconds * 10 ^ length picoseconds)
fraction_exceeds_nanoseconds_iff_example =
    fraction_exceeds_nanoseconds_iff clock picoseconds clock_lacks_dot picoseconds-IsDigit

-- The appendix of ODBC on column sizes, for the two temporal types.
abbrev column_size : SqlDataType → ℤ → ℤ → ℤ
column_size SqlDataType.time p (pos s) = pos (9 + s)
column_size SqlDataType.timestamp p (pos s) = pos (20 + s)
column_size ty p s = p

-- Half past midnight at +02:00 is the evening before in UTC.
abbrev early : Text
early = codes "00:30:05.250+02:00"

early-parse_trino_time_with_tz :
    parse_trino_time_with_tz early (pos 0) ≡ some (ColumnValue.time 22 30 5 250000000)
unfolding parse_trino_time_with_tz with_zone with_offset offset_minutes_of offset_fields signed
    split_sign shift_time shift_clock second_of at_minute to_u16 minute_of_day times checked
    rsplit_once split_once split_three parse_i32 parse_digits all_digits parse_fraction_nanos
    pad_end parse_unsigned trim trim_start trim_end is_whitespace ◌+ℤ◌ ◌-ℤ◌
early-parse_trino_time_with_tz = refl

parse_trino_time_with_tz-InDay_example : InDay (ColumnValue.time 22 30 5 250000000)
parse_trino_time_with_tz-InDay_example =
    parse_trino_time_with_tz-InDay early (pos 0) {v = ColumnValue.time 22 30 5 250000000}
      early-parse_trino_time_with_tz

shift_time_back_example :
    (h' : ℕ) × (m' : ℕ) × (h' < 24)
    × (m' < 60)
    × ((60 * h' + m' + pos_part (pos 120)) % 1440 ≡ (60 * 0 + 30 + neg_part (pos 120)) % 1440)
    × (shift_time (time_text 0 30 5 7) (pos 120) ≡ some (ColumnValue.time h' m' 5 7))
    × (shift_time (time_text h' m' 5 7) (pos 0 -ℤ pos 120) ≡ some (ColumnValue.time 0 30 5 7))
shift_time_back_example =
    shift_time_back 0 30 5 7 (pos 120) (omega arith) (omega arith) (omega arith) (omega arith)
      (omega arith)

-- A row whose second field is an array of timestamps with twelve digits.
abbrev nested_type : TrinoTy
nested_type = TrinoTy.row (
    with_field (codes "id") (TrinoTy.plain_type PlainType.int64)
      (with_field (codes "at") (TrinoTy.array TrinoTy.timestamp) no_fields))

abbrev nested_value : Value
nested_value = items (
    with_value (scalar (Scalar.integer (pos 7))) (
      with_value (items (with_value (string (codes "2026-01-01 00:00:00.000000000001")) no_values))
        no_values))

nested_loses : discards_fractional_seconds nested_type nested_value ≡ true
unfolding discards_fractional_seconds in_items any_value first_value text_exceeds
    fraction_exceeds_nanoseconds exceeds_behind any_nonzero take_digits split_once
nested_loses = refl
