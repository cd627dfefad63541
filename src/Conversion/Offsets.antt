-- ===== src/Conversion/Offsets.antt =====
-- `TIME WITH TIME ZONE`: `parse_trino_time_with_tz` and `shift_time`. Numbers of 32 bits are ℤ, and a
-- checked operation fails where its result does not fit.
use stackable_odbc_trino.Base.{
  ℕ, suc, ◌-◌, ◌*◌, ◌/◌, ◌%◌, ℤ, pos, negsuc, sub_ℕ, ◌+ℤ◌, ◌-ℤ◌, ◌||◌, ◌==◌, leb, [], ◌∷◌, Option,
  none, some, if◌then◌else◌,
}
use stackable_odbc_trino.Base.Fallible.{◌>>=◌}
use stackable_odbc_trino.Base.Text.{Text, split_once}
use stackable_odbc_trino.Base.Text.Space.{trim}
use stackable_odbc_trino.Column.{ColumnValue}
use stackable_odbc_trino.Conversion.Temporal.{split_three, parse_fraction_nanos}
use stackable_odbc_trino.Conversion.TypeParams.{rsplit_once, parse_i32}

-- Whether a result fits into 32 bits.
unfoldable pub checked : ℤ → Option ℤ
checked (pos n) = if leb n 2147483647 then some (pos n) else none
checked (negsuc n) = if leb n 2147483647 then some (negsuc n) else none

-- `k * n`
unfoldable pub times : ℕ → ℤ → ℤ
times k (pos n) = pos (k * n)
times k (negsuc n) = sub_ℕ 0 (k * suc n)

-- `n.rem_euclid(24 * 60)`
unfoldable pub minute_of_day : ℤ → ℕ
minute_of_day (pos n) = n % 1440
minute_of_day (negsuc n) = 1439 - n % 1440

-- `u16::try_from`
unfoldable pub to_u16 : ℤ → Option ℕ
to_u16 (pos n) = if leb n 65535 then some n else none
to_u16 (negsuc n) = none

-- The seconds and the fraction behind them.
unfoldable pub second_of : Text → Option (Text × Text) → Option (ℤ × ℕ)
second_of t none = parse_i32 t >>= λ s. some (s, 0)
second_of t (some (whole, fraction)) =
    parse_i32 whole >>= λ s. some (s, parse_fraction_nanos fraction)

-- The time of day at a number of minutes that is in range.
unfoldable pub at_minute : ℤ → ℕ → ℤ → Option ColumnValue
at_minute total fraction second = to_u16 second >>= λ s.
    some (ColumnValue.time (minute_of_day total / 60) (minute_of_day total % 60) s fraction)

unfoldable pub shift_clock : ℤ → Text × Text × Text → Option ColumnValue
shift_clock offset_minutes (h, m, rest) = parse_i32 h >>= λ hour.
    (parse_i32 m >>= λ minute.
    (second_of rest (split_once b'.' rest) >>= λ (second, fraction).
    (checked (times 60 hour) >>= λ minutes.
    (checked (minutes +ℤ minute) >>= λ clock.
    (checked (clock -ℤ offset_minutes) >>= λ total. at_minute total fraction second)))))

unfoldable pub shift_time : Text → ℤ → Option ColumnValue
shift_time time_part offset_minutes =
    split_three b':' (trim time_part) >>= shift_clock offset_minutes

-- `t.split_at(t.rfind(['+', '-'])?)`, with the sign by itself.
abbrev sign_here : ℕ → Text → Option (Text × ℕ × Text) → Option (Text × ℕ × Text)
sign_here c s none = if (c == b'+') || (c == b'-') then some ([], c, s) else none
sign_here c s (some (a, sign, b)) = some (c ∷ a, sign, b)

unfoldable pub split_sign : Text → Option (Text × ℕ × Text)
split_sign [] = none
split_sign (c ∷ s) = sign_here c s (split_sign s)

-- The hours and minutes of an offset; the minutes may be missing.
unfoldable pub offset_fields : Text → Option (Text × Text) → Option (ℤ × ℤ)
offset_fields t none = parse_i32 t >>= λ h. some (h, pos 0)
offset_fields t (some (h, m)) = parse_i32 h >>= λ oh. (parse_i32 m >>= λ om. some (oh, om))

unfoldable pub signed : ℕ → ℤ → ℤ
signed sign n = if sign == b'-' then pos 0 -ℤ n else n

unfoldable pub offset_minutes_of : ℕ → Text → Option ℤ
offset_minutes_of sign body = offset_fields body (split_once b':' body) >>= λ (oh, om).
    (checked (times 60 oh) >>= λ hours. (checked (hours +ℤ om) >>= λ n. checked (signed sign n)))

-- A zone by its name counts as UTC.
unfoldable pub with_offset : ℤ → Option (Text × ℕ × Text) → Option ColumnValue
with_offset session none = none
with_offset session (some (time_part, sign, body)) = offset_minutes_of sign body >>= λ own.
    (checked (own -ℤ session) >>= λ shift. shift_time time_part shift)

unfoldable pub with_zone : ℤ → Text → Option (Text × Text) → Option ColumnValue
with_zone session t (some (time_part, zone)) = shift_time time_part (pos 0 -ℤ session)
with_zone session t none = with_offset session (split_sign t)

unfoldable pub parse_trino_time_with_tz : Text → ℤ → Option ColumnValue
parse_trino_time_with_tz s session_offset_minutes =
    with_zone session_offset_minutes (trim s) (rsplit_once b' ' (trim s))
