-- ===== src/Conversion/DayBounds.antt =====
-- Every time of day with a zone is delivered within the day (`parse_trino_time_with_tz`).
use stackable_odbc_trino.Base.{
  ℕ, ◌/◌, ◌%◌, ◌≤◌, ◌<◌, ◌≡◌, ℤ, pos, negsuc, ◌+ℤ◌, ◌-ℤ◌, Option, none, some, arith,
}
use stackable_odbc_trino.Base.Fallible.{>>=-eq-some}
use stackable_odbc_trino.Base.Text.{Text, split_once}
use stackable_odbc_trino.Base.Text.Space.{trim}
use stackable_odbc_trino.Column.{ColumnValue}
use stackable_odbc_trino.Conversion.Temporal.{split_three}
use stackable_odbc_trino.Conversion.TypeParams.{rsplit_once, parse_i32}
use stackable_odbc_trino.Conversion.Offsets.{
  checked, times, minute_of_day, to_u16, second_of, at_minute, shift_clock, shift_time, split_sign,
  offset_minutes_of, with_offset, with_zone, parse_trino_time_with_tz,
}

-- A time whose hour and minute a clock can show, and whose fields fit their types.
abbrev pub InDay : ColumnValue → Type 0
InDay v =
    (h : ℕ) × (m : ℕ) × (s : ℕ) × (f : ℕ) × (v ≡ ColumnValue.time h m s f)
    × (h < 24)
    × (m < 60)
    × (s ≤ 65535)

minute_of_day_bound : (n : ℤ) → minute_of_day n < 1440
unfolding minute_of_day
minute_of_day_bound (pos n) = omega arith
minute_of_day_bound (negsuc n) = omega arith

to_u16_bound : (n : ℤ) {s : ℕ} → to_u16 n ≡ some s → s ≤ 65535
unfolding to_u16
to_u16_bound (pos n) h = ground arith
to_u16_bound (negsuc n) h = cc

at_minute-InDay :
    (total : ℤ) (fraction : ℕ) (second : ℤ) {v : ColumnValue}
    → at_minute total fraction second ≡ some v
    → InDay v
unfolding at_minute
at_minute-InDay total fraction second {v} h =
    let (s, fits, made) = >>=-eq-some (to_u16 second) _ {final = v} h in
    let bound = minute_of_day_bound total in
    (
      minute_of_day total / 60,
      minute_of_day total % 60,
      s,
      fraction,
      cc,
      omega (arith, bound),
      omega arith,
      to_u16_bound second {s = s} fits,
    )

shift_time-InDay :
    (t : Text) (offset : ℤ) {v : ColumnValue} → shift_time t offset ≡ some v → InDay v
unfolding shift_time shift_clock
shift_time-InDay t offset {v} h =
    let ((hour_text, minute_text, rest), _, h₁) =
      >>=-eq-some (split_three b':' (trim t)) _ {final = v} h in
    let (hour, _, h₂) = >>=-eq-some (parse_i32 hour_text) _ {final = v} h₁ in
    let (minute, _, h₃) = >>=-eq-some (parse_i32 minute_text) _ {final = v} h₂ in
    let ((second, fraction), _, h₄) =
      >>=-eq-some (second_of rest (split_once b'.' rest)) _ {final = v} h₃ in
    let (minutes, _, h₅) = >>=-eq-some (checked (times 60 hour)) _ {final = v} h₄ in
    let (clock, _, h₆) = >>=-eq-some (checked (minutes +ℤ minute)) _ {final = v} h₅ in
    let (total, _, h₇) = >>=-eq-some (checked (clock -ℤ offset)) _ {final = v} h₆ in
    at_minute-InDay total fraction second {v = v} h₇

with_offset-InDay :
    (session : ℤ) (parts : Option (Text × ℕ × Text)) {v : ColumnValue}
    → with_offset session parts ≡ some v
    → InDay v
unfolding with_offset
with_offset-InDay session none h = cc
with_offset-InDay session (some (time_part, sign, body)) {v} h =
    let (own, _, h₁) = >>=-eq-some (offset_minutes_of sign body) _ {final = v} h in
    let (shift, _, h₂) = >>=-eq-some (checked (own -ℤ session)) _ {final = v} h₁ in
    shift_time-InDay time_part shift {v = v} h₂

with_zone-InDay :
    (session : ℤ) (t : Text) (parts : Option (Text × Text)) {v : ColumnValue}
    → with_zone session t parts ≡ some v
    → InDay v
unfolding with_zone
with_zone-InDay session t none {v} h = with_offset-InDay session (split_sign t) {v = v} h
with_zone-InDay session t (some (time_part, zone)) {v} h =
    shift_time-InDay time_part (pos 0 -ℤ session) {v = v} h

-- Whatever the text says and whichever zone the session is in, a time with a zone that is delivered at
-- all is a time of day: the hour is below 24 and the minute below 60, and the seconds fit their type,
-- also where the text's own hour or its offset lies far outside a day.
pub parse_trino_time_with_tz-InDay :
    (s : Text) (session_offset_minutes : ℤ) {v : ColumnValue}
    → parse_trino_time_with_tz s session_offset_minutes ≡ some v
    → InDay v
unfolding parse_trino_time_with_tz
parse_trino_time_with_tz-InDay s session {v} h =
    with_zone-InDay session (trim s) (rsplit_once b' ' (trim s)) {v = v} h
