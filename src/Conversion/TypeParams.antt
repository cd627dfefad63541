-- ===== src/Conversion/TypeParams.antt =====
-- `type_name_precision` and `type_name_scale`: the numbers in a type-name string.
use stackable_odbc_trino.Base.{
  ℕ, ℤ, pos, negsuc, Bool, true, false, [], ◌∷◌, Option, none, some, ◌==◌, leb, if◌then◌else◌,
}
use stackable_odbc_trino.Base.Fallible.{◌>>=◌, get_or}
use stackable_odbc_trino.Base.Text.{Text, parse_digits, split_once}
use stackable_odbc_trino.Conversion.Temporal.{negate}
use stackable_odbc_trino.Conversion.TypeName.{TrinoTypeName, SqlDataType, parse, sql_type, trim}

-- `s.rsplit_once(sep)`: what stands before and after the last `sep`.
abbrev first_or : Text → Option (Text × Text) → Option (Text × Text)
first_or s none = some ([], s)
first_or s (some p) = some p

abbrev here_or_later : ℕ → ℕ → Text → Option (Text × Text) → Option (Text × Text)
here_or_later sep c s none = if c == sep then some ([], s) else none
here_or_later sep c s (some (a, b)) = some (c ∷ a, b)

unfoldable pub rsplit_once : ℕ → Text → Option (Text × Text)
rsplit_once sep [] = none
rsplit_once sep (c ∷ s) = here_or_later sep c s (rsplit_once sep s)

-- `s.parse::<i32>()`
unfoldable pub parse_i32 : Text → Option ℤ
unfolding parse_digits
parse_i32 [] = none
parse_i32 (c ∷ s) =
    let negative = (parse_digits 2147483648 s >>= λ n. some (negate n)) in
    let plus = (parse_digits 2147483647 s >>= λ n. some (pos n)) in
    let bare = (parse_digits 2147483647 (c ∷ s) >>= λ n. some (pos n)) in
    if c == b'-' then negative else if c == b'+' then plus else bare

-- The range between the first `(` and the last `)`: with none behind it there is no such range.
unfoldable pub arguments : Text → Option Text
unfolding rsplit_once
arguments s = split_once b'(' s >>= λ (before, rest).
    (rsplit_once b')' rest >>= λ (inside, after). some inside)

-- `split(',').next()`, and what is left for the next call.
unfoldable pub first_part : Text → Option (Text × Text) → Text
first_part s none = s
first_part s (some (a, b)) = a

unfoldable pub parse_precision_param : Text → Option ℤ
unfolding arguments first_part trim parse_i32
parse_precision_param s =
    arguments s >>= λ inside. parse_i32 (trim (first_part inside (split_once b',' inside)))

unfoldable pub parse_scale_param : Text → Option ℤ
unfolding arguments first_part trim parse_i32
parse_scale_param s = arguments s >>= λ inside.
    (split_once b',' inside >>= λ (a, rest).
    parse_i32 (trim (first_part rest (split_once b',' rest))))

abbrev pub default_temporal_scale : ℤ
default_temporal_scale = pos 3

-- `i16::try_from`
unfoldable pub in_i16 : ℤ → Option ℤ
in_i16 (pos n) = if leb n 32767 then some (pos n) else none
in_i16 (negsuc n) = if leb n 32767 then some (negsuc n) else none

unfoldable pub temporal_scale_param : Text → ℤ
unfolding parse_precision_param in_i16
temporal_scale_param s = get_or (parse_precision_param s >>= in_i16) default_temporal_scale

unfoldable pub has_precision_param : TrinoTypeName → Bool
has_precision_param TrinoTypeName.varchar = true
has_precision_param TrinoTypeName.char = true
has_precision_param TrinoTypeName.decimal = true
has_precision_param _ = false

unfoldable pub has_scale_param : TrinoTypeName → Bool
has_scale_param TrinoTypeName.decimal = true
has_scale_param _ = false

unfoldable pub has_temporal_scale_param : TrinoTypeName → Bool
has_temporal_scale_param TrinoTypeName.time = true
has_temporal_scale_param TrinoTypeName.time_with_time_zone = true
has_temporal_scale_param TrinoTypeName.timestamp = true
has_temporal_scale_param TrinoTypeName.timestamp_with_time_zone = true
has_temporal_scale_param _ = false

unfoldable pub type_name_scale : Text → Option ℤ
unfolding parse parse_scale_param temporal_scale_param has_scale_param has_temporal_scale_param
type_name_scale s = parse s >>= λ ty.
    (if has_scale_param ty
      then parse_scale_param s
      else if has_temporal_scale_param ty
      then some (temporal_scale_param s)
      else none)

-- Core's `column_size`, of a type, a precision and a scale, is a parameter.
module _ (column_size : SqlDataType → ℤ → ℤ → ℤ) where
  unfoldable pub fixed_precision : TrinoTypeName → Option ℤ
  fixed_precision TrinoTypeName.tiny_int =
      some (column_size SqlDataType.ext_tiny_int (pos 0) (pos 0))
  fixed_precision TrinoTypeName.small_int = some (column_size SqlDataType.smallint (pos 0) (pos 0))
  fixed_precision TrinoTypeName.integer = some (column_size SqlDataType.integer (pos 0) (pos 0))
  fixed_precision TrinoTypeName.big_int = some (column_size SqlDataType.ext_big_int (pos 0) (pos 0))
  fixed_precision TrinoTypeName.real = some (column_size SqlDataType.real (pos 0) (pos 0))
  fixed_precision TrinoTypeName.double = some (column_size SqlDataType.double (pos 0) (pos 0))
  fixed_precision TrinoTypeName.boolean = some (column_size SqlDataType.ext_bit (pos 0) (pos 0))
  fixed_precision TrinoTypeName.date = some (column_size SqlDataType.date (pos 0) (pos 0))
  fixed_precision TrinoTypeName.time =
      some (column_size SqlDataType.time (pos 0) default_temporal_scale)
  fixed_precision TrinoTypeName.time_with_time_zone =
      some (column_size SqlDataType.time (pos 0) default_temporal_scale)
  fixed_precision TrinoTypeName.timestamp =
      some (column_size SqlDataType.timestamp (pos 0) default_temporal_scale)
  fixed_precision TrinoTypeName.timestamp_with_time_zone =
      some (column_size SqlDataType.timestamp (pos 0) default_temporal_scale)
  fixed_precision _ = none

  unfoldable pub type_name_precision : Text → Option ℤ
  unfolding parse parse_precision_param temporal_scale_param has_precision_param
      has_temporal_scale_param sql_type fixed_precision
  type_name_precision s = parse s >>= λ ty.
      (if has_precision_param ty
        then parse_precision_param s
        else if has_temporal_scale_param ty
        then some (column_size (sql_type ty) (pos 0) (temporal_scale_param s))
        else fixed_precision ty)
