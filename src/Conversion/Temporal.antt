-- ===== src/Conversion/Temporal.antt =====
-- `parse_trino_date`, `parse_trino_time`, `parse_trino_timestamp`, and what they share.
use stackable_odbc_trino.Base.{
  ℕ, zero, suc, ◌-◌, ℤ, pos, negsuc, Bool, true, false, [], ◌∷◌, ◌++◌, Option, none, some, ◌==◌,
  if◌then◌else◌, take, drop, length, replicate,
}
use stackable_odbc_trino.Base.Fallible.{◌>>=◌, get_or}
use stackable_odbc_trino.Base.Text.{Text, is_digit, parse_unsigned, split_once}
use stackable_odbc_trino.Base.Text.Space.{first_token}
use stackable_odbc_trino.Column.{ColumnValue}

-- The three fields of `s.splitn(3, sep)`, if there are as many.
unfoldable pub split_three : ℕ → Text → Option (Text × Text × Text)
split_three sep s =
    split_once sep s >>= λ (a, rest). (split_once sep rest >>= λ (b, c). some (a, b, c))

-- `checked_neg` of a magnitude that is not negative.
abbrev pub negate : ℕ → ℤ
negate zero = pos 0
negate (suc n) = negsuc n

abbrev pub max_u16 : ℕ
max_u16 = 65535

-- The fields behind the sign. A field of the split holds no `-`, so that `parse::<i16>` on the year
-- accepts what an unsigned parser with the bound of `i16` does.
unfoldable pub ymd : Bool → Text → Option (ℤ × ℕ × ℕ)
unfolding split_three
ymd negative rest = split_three b'-' rest >>= λ (year, month, day).
    (parse_unsigned 32767 year >>= λ y.
    (parse_unsigned max_u16 month >>= λ m.
    (parse_unsigned max_u16 day >>= λ d. some (if negative then negate y else pos y, m, d))))

unfoldable pub parse_ymd : Text → Option (ℤ × ℕ × ℕ)
unfolding ymd
parse_ymd [] = ymd false []
parse_ymd (c ∷ s) = if c == b'-' then ymd true s else ymd false (c ∷ s)

-- `{t:0<w}`: at least `w` characters, zeros on the right.
unfoldable pub pad_end : ℕ → Text → Text
pad_end w t = t ++ replicate (w - length t) b'0'

-- The byte range `..9` is read as nine characters: where the two differ, one of these is not ASCII,
-- and the result is 0 for both.
unfoldable pub parse_fraction_nanos : Text → ℕ
unfolding pad_end
parse_fraction_nanos frac = get_or (parse_unsigned 4294967295 (take 9 (pad_end 9 frac))) 0

unfoldable pub take_digits : Text → Text
take_digits [] = []
take_digits (c ∷ s) = if is_digit c then c ∷ take_digits s else []

-- `any(|c| c != '0')`
unfoldable pub any_nonzero : Text → Bool
any_nonzero [] = false
any_nonzero (c ∷ s) = if c == b'0' then any_nonzero s else true

-- The test on what stands behind the first dot, if there is one.
unfoldable pub exceeds_behind : Option (Text × Text) → Bool
unfolding take_digits any_nonzero
exceeds_behind none = false
exceeds_behind (some (before, rest)) = any_nonzero (drop 9 (take_digits rest))

unfoldable pub fraction_exceeds_nanoseconds : Text → Bool
unfolding exceeds_behind
fraction_exceeds_nanoseconds text = exceeds_behind (split_once b'.' text)

-- The seconds and the nanoseconds of `sec_part.splitn(2, '.')`: `sec_part` itself, if it has no dot,
-- or what stands before and after the dot.
unfoldable pub seconds_of : Text → Option (Text × Text) → Option (ℕ × ℕ)
unfolding parse_fraction_nanos
seconds_of sec_part none = parse_unsigned max_u16 sec_part >>= λ n. some (n, 0)
seconds_of sec_part (some (whole, frac)) =
    parse_unsigned max_u16 whole >>= λ n. some (n, parse_fraction_nanos frac)

unfoldable pub parse_seconds : Text → Option (ℕ × ℕ)
unfolding seconds_of
parse_seconds s = seconds_of s (split_once b'.' s)

-- `HH:MM:SS[.fraction]`, as `parse_trino_time` and `parse_trino_timestamp` read it.
unfoldable pub parse_clock : Text → Option (ℕ × ℕ × ℕ × ℕ)
unfolding split_three parse_seconds
parse_clock s = split_three b':' s >>= λ (hour, minute, sec_part).
    (parse_unsigned max_u16 hour >>= λ h.
    (parse_unsigned max_u16 minute >>= λ m.
    (parse_seconds sec_part >>= λ t. some (h, m, t.0, t.1))))

unfoldable pub parse_trino_date : Text → Option ColumnValue
unfolding parse_ymd
parse_trino_date s = parse_ymd s >>= λ (y, m, d). some (ColumnValue.date y m d)

unfoldable pub parse_trino_time : Text → Option ColumnValue
unfolding parse_clock
parse_trino_time s =
    first_token s >>= λ t. (parse_clock t >>= λ (h, m, sec, f). some (ColumnValue.time h m sec f))

unfoldable pub parse_trino_timestamp : Text → Option ColumnValue
unfolding parse_ymd parse_clock
parse_trino_timestamp s = split_once b' ' s >>= λ p.
    (first_token p.1 >>= λ t.
    (parse_ymd p.0 >>= λ (y, mo, d).
    (parse_clock t >>= λ (h, mi, sec, f). some (ColumnValue.timestamp y mo d h mi sec f))))
