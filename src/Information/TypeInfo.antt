-- ===== src/Information/TypeInfo.antt =====
-- `trino_type_info`: the rows of SQLGetTypeInfo. Core's `catalog_column_size` is a parameter.
use stackable_odbc_trino.Base.{
  ℕ, ℤ, pos, ◌+ℤ◌, Bool, true, false, List, [], ◌∷◌, Option, none, some,
}
use stackable_odbc_trino.Base.Text.{Text, codes}
use stackable_odbc_trino.Conversion.TypeName.{SqlDataType, TrinoTypeName, name}
use stackable_odbc_trino.Catalog.Rows.{DatetimeCode, code_date, code_time, code_timestamp}

-- What a row of core's result set is built from. A row with a datetime code is reported with the
-- verbose type `DATETIME`, any other with the type itself.
pub record TypeInfoRow : Type 0 where
  pub type_name : Text
  pub data_type : SqlDataType
  pub column_size : ℤ
  pub literal_prefix : Option Text
  pub literal_suffix : Option Text
  pub create_params : Option Text
  pub case_sensitive : Bool
  pub unsigned : Option Bool
  pub auto_unique_value : Option Bool
  pub minimum_scale : Option ℤ
  pub maximum_scale : Option ℤ
  pub num_prec_radix : Option ℕ
  pub datetime_code : Option DatetimeCode
  pub preferred : Bool

abbrev pub new : Text → SqlDataType → ℤ → TypeInfoRow
new type_name data_type column_size = record {
  type_name = type_name;
  data_type = data_type;
  column_size = column_size;
  literal_prefix = none;
  literal_suffix = none;
  create_params = none;
  case_sensitive = false;
  unsigned = none;
  auto_unique_value = none;
  minimum_scale = none;
  maximum_scale = none;
  num_prec_radix = none;
  datetime_code = none;
  preferred = false;
}

abbrev with_literal_affixes : Text → Text → TypeInfoRow → TypeInfoRow
with_literal_affixes p s r = record r { literal_prefix = some p; literal_suffix = some s }

abbrev with_create_params : Text → TypeInfoRow → TypeInfoRow
with_create_params p r = record r { create_params = some p }

abbrev with_case_sensitive : TypeInfoRow → TypeInfoRow
with_case_sensitive r = record r { case_sensitive = true }

abbrev with_preferred : TypeInfoRow → TypeInfoRow
with_preferred r = record r { preferred = true }

abbrev signed : TypeInfoRow → TypeInfoRow
signed r = record r { unsigned = some false }

abbrev with_scale_range : ℤ → ℤ → TypeInfoRow → TypeInfoRow
with_scale_range low high r = record r { minimum_scale = some low; maximum_scale = some high }

abbrev with_num_prec_radix : ℕ → TypeInfoRow → TypeInfoRow
with_num_prec_radix n r = record r { num_prec_radix = some n }

abbrev with_datetime : DatetimeCode → TypeInfoRow → TypeInfoRow
with_datetime c r = record r { datetime_code = some c }

-- An exact number with digits behind the point up to a scale.
abbrev exact_number : ℤ → TypeInfoRow → TypeInfoRow
exact_number scale r =
    with_num_prec_radix 10
      (with_scale_range (pos 0) scale (record (signed r) { auto_unique_value = some false }))

abbrev quoted : TypeInfoRow → TypeInfoRow
quoted r = with_literal_affixes (codes "'") (codes "'") r

-- The longest text, the longest CHAR, and the limits of a DECIMAL.
abbrev pub unbounded : ℤ
unbounded = pos 2147483647

abbrev pub max_char : ℤ
max_char = pos 65535

abbrev pub max_decimal_precision : ℤ
max_decimal_precision = pos 38

abbrev pub max_decimal_scale : ℤ
max_decimal_scale = pos 38

-- The widths of `+HH:MM`, and of the space before it.
abbrev pub trino_tz_offset_suffix_len : ℤ
trino_tz_offset_suffix_len = pos 6

abbrev pub trino_tz_timestamp_space_len : ℤ
trino_tz_timestamp_space_len = pos 1

-- Trino's most digits of a second's fraction.
abbrev pub max_fraction : ℤ
max_fraction = pos 12

module _ (catalog_column_size : SqlDataType → ℤ → ℤ → ℤ) where
  abbrev row : Text → SqlDataType → ℤ → ℤ → TypeInfoRow
  row type_name ty precision scale = new type_name ty (catalog_column_size ty precision scale)

  abbrev text_row : TrinoTypeName → ℤ → TypeInfoRow
  text_row n length = quoted (row (name n) SqlDataType.ext_w_varchar length (pos 0))

  abbrev fixed_row : TrinoTypeName → SqlDataType → TypeInfoRow
  fixed_row n ty = row (name n) ty (pos 0) (pos 0)

  abbrev fractional : DatetimeCode → Text → TypeInfoRow → TypeInfoRow
  fractional code prefix r = with_datetime code (
      with_scale_range (pos 0) max_fraction
        (with_create_params (codes "precision") (with_literal_affixes prefix (codes "'") r)))

  unfoldable pub trino_type_info : List TypeInfoRow
  unfolding name
  trino_type_info =
      text_row TrinoTypeName.interval_day_to_second unbounded
      ∷ text_row TrinoTypeName.interval_year_to_month unbounded
      ∷ with_case_sensitive (text_row TrinoTypeName.json unbounded)
      ∷ text_row TrinoTypeName.uuid (pos 36)
      ∷ with_preferred (
          with_case_sensitive
            (with_create_params (codes "max length") (text_row TrinoTypeName.varchar unbounded)))
      ∷ with_case_sensitive (
          with_create_params (codes "length")
            (quoted (row (name TrinoTypeName.char) SqlDataType.ext_w_char max_char (pos 0))))
      ∷ fixed_row TrinoTypeName.boolean SqlDataType.ext_bit
      ∷ exact_number (pos 0) (fixed_row TrinoTypeName.tiny_int SqlDataType.ext_tiny_int)
      ∷ exact_number (pos 0) (fixed_row TrinoTypeName.big_int SqlDataType.ext_big_int)
      ∷ with_literal_affixes (codes "X'") (codes "'")
          (row (name TrinoTypeName.varbinary) SqlDataType.ext_long_var_binary unbounded (pos 0))
      ∷ with_case_sensitive (
          with_create_params (codes "length")
            (quoted (row (codes "SQL_CHAR") SqlDataType.char max_char (pos 0))))
      ∷ exact_number max_decimal_scale (
          with_create_params (codes "precision,scale") (
            row (name TrinoTypeName.decimal) SqlDataType.decimal max_decimal_precision
              max_decimal_scale))
      ∷ exact_number (pos 0) (fixed_row TrinoTypeName.integer SqlDataType.integer)
      ∷ exact_number (pos 0) (fixed_row TrinoTypeName.small_int SqlDataType.smallint)
      ∷ with_num_prec_radix 2 (signed (fixed_row TrinoTypeName.real SqlDataType.real))
      ∷ with_num_prec_radix 2 (signed (fixed_row TrinoTypeName.double SqlDataType.double))
      ∷ with_case_sensitive (
          with_create_params (codes "max length")
            (quoted (row (codes "SQL_VARCHAR") SqlDataType.varchar unbounded (pos 0))))
      ∷ with_datetime code_date (
          with_literal_affixes (codes "DATE '") (codes "'")
            (fixed_row TrinoTypeName.date SqlDataType.date))
      ∷ with_preferred (
          fractional code_time (codes "TIME '")
            (row (name TrinoTypeName.time) SqlDataType.time (pos 0) max_fraction))
      ∷ fractional code_time (codes "TIME '") (
          new (name TrinoTypeName.time_with_time_zone) SqlDataType.time (
            catalog_column_size SqlDataType.time (pos 0) max_fraction
            +ℤ trino_tz_offset_suffix_len))
      ∷ with_preferred (
          fractional code_timestamp (codes "TIMESTAMP '")
            (row (name TrinoTypeName.timestamp) SqlDataType.timestamp (pos 0) max_fraction))
      ∷ fractional code_timestamp (codes "TIMESTAMP '") (
          new (name TrinoTypeName.timestamp_with_time_zone) SqlDataType.timestamp (
            catalog_column_size SqlDataType.timestamp (pos 0) max_fraction
            +ℤ trino_tz_timestamp_space_len
            +ℤ trino_tz_offset_suffix_len))
      ∷ []
