-- ===== src/Params/Literal.antt =====
-- Rendering of one bound value as a Trino SQL literal: `render_literal` and its helpers.
use Prim.Native.Nat.{min}
use stackable_odbc_trino.Base.{
  ℕ, ◌+◌, ◌-◌, ◌/◌, ◌%◌, ◌^◌, ℤ, pos, negsuc, Bool, false, not, ◌&&◌, ◌||◌, [], ◌∷◌, ◌++◌, none,
  some, ltb, leb, ◌==◌, if◌then◌else◌, take, drop,
}
use stackable_odbc_trino.Base.Outcome.{Result, ok, err, ◌>>◌}
use stackable_odbc_trino.Base.Text.{Text, codes, show, pad, all_digits, split_once, is_empty}
use stackable_odbc_trino.Column.{ColumnValue}
use stackable_odbc_trino.Errors.{
  TrinoError, general, odbc, SqlState, unsupported_parameter, invalid_decimal, invalid_date_value,
  invalid_time_value,
}

-- What the rendering takes from outside the repository: whether chrono has a date for a year, a
-- month and a day, and the `Display` of a finite float given by its bits.
pub record Externals : Type 0 where
  pub from_ymd_opt : ℤ → ℕ → ℕ → Bool
  pub show_f32 : ℕ → Text
  pub show_f64 : ℕ → Text

abbrev pub quote : ℕ
quote = b'\''

-- `f32::is_finite` and `f64::is_finite` on the bit patterns.
unfoldable pub is_finite_f32 : ℕ → Bool
is_finite_f32 b = not ((b / 2 ^ 23) % 2 ^ 8 == 255)

unfoldable pub is_finite_f64 : ℕ → Bool
is_finite_f64 b = not ((b / 2 ^ 52) % 2 ^ 11 == 2047)

-- `to_string` of a signed integer.
unfoldable pub show_int : ℤ → Text
show_int (pos n) = show n
show_int (negsuc n) = b'-' ∷ show (n + 1)

-- The hexadecimal digit `d`, with `a` the letter that stands for ten.
unfoldable pub hex_digit : ℕ → ℕ → ℕ
hex_digit a d = if ltb d 10 then b'0' + d else a + (d - 10)

-- `{byte:02X}` or `{byte:02x}` for each byte.
unfoldable pub hex : ℕ → Text → Text
unfolding hex_digit
hex a [] = []
hex a (b ∷ s) = hex_digit a (b / 16) ∷ hex_digit a (b % 16) ∷ hex a s

-- The five groups of a UUID over its sixteen bytes.
unfoldable pub uuid_text : Text → Text
unfolding hex
uuid_text b =
    hex b'a' (take 4 b)
    ++ b'-'
      ∷ (hex b'a' (take 2 (drop 4 b))
          ++ b'-'
            ∷ (hex b'a' (take 2 (drop 6 b))
                ++ b'-' ∷ (hex b'a' (take 2 (drop 8 b)) ++ b'-' ∷ hex b'a' (take 6 (drop 10 b)))))

unfoldable pub nanos : ℕ → Text
nanos fraction = pad 9 (show (min fraction 999_999_999))

unfoldable pub year4 : ℤ → Text
year4 (pos y) = pad 4 (show y)
year4 (negsuc y) = b'-' ∷ pad 4 (show (y + 1))

-- Every quote of the text is doubled.
unfoldable pub double_quotes : Text → Text
double_quotes [] = []
double_quotes (c ∷ s) = if c == quote then quote ∷ c ∷ double_quotes s else c ∷ double_quotes s

unfoldable pub quote_string : Text → Text
unfolding double_quotes
quote_string s = quote ∷ (double_quotes s ++ quote ∷ [])

-- `s.strip_prefix('-').or_else(|| s.strip_prefix('+')).unwrap_or(s)`
unfoldable pub strip_sign : Text → Text
strip_sign [] = []
strip_sign (c ∷ s) = if (c == b'-') || (c == b'+') then s else c ∷ s

unfoldable pub is_plain_decimal : Text → Bool
unfolding strip_sign split_once is_empty all_digits
is_plain_decimal s =
    let body = strip_sign s in
    if is_empty body then false else elim (split_once b'.' body) [
      | none ↦ all_digits body
      | some (int, frac) ↦
          not (is_empty int) && not (is_empty frac) && all_digits int && all_digits frac
    ]

-- `YYYY-MM-DD` and `hh:mm:ss`.
unfoldable pub date_text : ℤ → ℕ → ℕ → Text
unfolding year4
date_text y m d = year4 y ++ b'-' ∷ (pad 2 (show m) ++ b'-' ∷ pad 2 (show d))

unfoldable pub clock_text : ℕ → ℕ → ℕ → Text
clock_text h m s = pad 2 (show h) ++ b':' ∷ (pad 2 (show m) ++ b':' ∷ pad 2 (show s))

-- `hh:mm:ss.nnnnnnnnn`
unfoldable pub time_text : ℕ → ℕ → ℕ → ℕ → Text
unfolding clock_text nanos
time_text h m s f = clock_text h m s ++ b'.' ∷ nanos f

unfoldable pub offset_text : ℤ → Text
offset_text (pos o) = b'+' ∷ (pad 2 (show (o / 60)) ++ b':' ∷ pad 2 (show (o % 60)))
offset_text (negsuc o) = b'-' ∷ (pad 2 (show ((o + 1) / 60)) ++ b':' ∷ pad 2 (show ((o + 1) % 60)))

unfoldable pub check_time : ℕ → ℕ → ℕ → Result TrinoError (Unit {0})
check_time hour minute second =
    if ltb hour 24 && ltb minute 60 && leb second 61
    then ok tt
    else err
        (odbc (invalid_time_value (clock_text hour minute second)) SqlState.invalid_datetime_format)

abbrev unsupported : Result TrinoError Text
unsupported = err (general unsupported_parameter)

-- A keyword, a space and a text between quotes.
unfoldable pub tagged : Text → Text → Text
tagged keyword body = keyword ++ quote ∷ (body ++ quote ∷ [])

module _ (x : Externals) where
  unfoldable pub check_date : ℤ → ℕ → ℕ → Result TrinoError (Unit {0})
  check_date year month day =
      if x.from_ymd_opt year month day
      then ok tt
      else err
          (odbc (invalid_date_value (date_text year month day)) SqlState.invalid_datetime_format)

  unfoldable pub render_literal : ColumnValue → Result TrinoError Text
  render_literal ColumnValue.null = ok (codes "NULL")
  render_literal (ColumnValue.bool b) = ok (if b then codes "TRUE" else codes "FALSE")
  render_literal (ColumnValue.i8 v) = ok (show_int v)
  render_literal (ColumnValue.i16 v) = ok (show_int v)
  render_literal (ColumnValue.i32 v) = ok (show_int v)
  render_literal (ColumnValue.i64 v) = ok (show_int v)
  render_literal (ColumnValue.f32 v) =
      if is_finite_f32 v then ok (tagged (codes "REAL ") (x.show_f32 v)) else unsupported
  render_literal (ColumnValue.f64 v) =
      if is_finite_f64 v then ok (tagged (codes "DOUBLE ") (x.show_f64 v)) else unsupported
  render_literal (ColumnValue.string s) = ok (quote_string s)
  render_literal (ColumnValue.json s) = ok (codes "JSON " ++ quote_string s)
  render_literal (ColumnValue.decimal s) =
      if is_plain_decimal s
      then ok (tagged (codes "DECIMAL ") s)
      else err (general (invalid_decimal s))
  render_literal (ColumnValue.bytes b) = ok (tagged (codes "X") (hex b'A' b))
  render_literal (ColumnValue.guid b) = ok (tagged (codes "UUID ") (uuid_text b))
  render_literal (ColumnValue.date y m d) =
      check_date y m d >> ok (tagged (codes "DATE ") (date_text y m d))
  render_literal (ColumnValue.time h m s f) =
      check_time h m s >> ok (tagged (codes "TIME ") (time_text h m s f))
  render_literal (ColumnValue.timestamp y mo d h mi s f) =
      check_date y mo d
      >> (check_time h mi s
          >> ok (tagged (codes "TIMESTAMP ") (date_text y mo d ++ b' ' ∷ time_text h mi s f)))
  render_literal (ColumnValue.timestamp_tz y mo d h mi s f o) =
      check_date y mo d
      >> (check_time h mi s
          >> ok (
              tagged (codes "TIMESTAMP ")
                (date_text y mo d ++ b' ' ∷ (time_text h mi s f ++ b' ' ∷ offset_text o))))
  render_literal (ColumnValue.array v) = unsupported
  render_literal (ColumnValue.row v) = unsupported
  render_literal (ColumnValue.map_of v) = unsupported
  render_literal ColumnValue.interval_year_month = unsupported
  render_literal ColumnValue.interval_day_time = unsupported
  render_literal ColumnValue.other = unsupported
