-- ===== src/Conversion/Reported.antt =====
-- What the driver reports of the client's `TrinoTy`. Core's `column_size`, of a type, a precision and
-- a scale, and its mark for a precision that cannot be determined are parameters.
use stackable_odbc_trino.Base.{ℕ, ◌-◌, ◌%◌, ◌^◌, ℤ, pos, negsuc, ltb, min, if◌then◌else◌}
use stackable_odbc_trino.Conversion.Nested.{TrinoTy, PlainType}
use stackable_odbc_trino.Conversion.TypeName.{SqlDataType}
use stackable_odbc_trino.Conversion.TypeParams.{default_temporal_scale}

unfoldable pub plain_sql_type : PlainType → SqlDataType
plain_sql_type PlainType.int64 = SqlDataType.ext_big_int
plain_sql_type PlainType.int32 = SqlDataType.integer
plain_sql_type PlainType.int16 = SqlDataType.smallint
plain_sql_type PlainType.int8 = SqlDataType.ext_tiny_int
plain_sql_type PlainType.float64 = SqlDataType.double
plain_sql_type PlainType.float32 = SqlDataType.real
plain_sql_type PlainType.boolean = SqlDataType.ext_bit
plain_sql_type PlainType.date = SqlDataType.date
plain_sql_type (PlainType.decimal p s) = SqlDataType.decimal
plain_sql_type PlainType.var_binary = SqlDataType.ext_long_var_binary
plain_sql_type PlainType.varchar = SqlDataType.ext_w_varchar
plain_sql_type (PlainType.char n) = SqlDataType.ext_w_varchar
plain_sql_type PlainType.uuid = SqlDataType.ext_w_varchar
plain_sql_type PlainType.json = SqlDataType.ext_w_varchar
plain_sql_type PlainType.ip_address = SqlDataType.ext_w_varchar
plain_sql_type PlainType.interval_year_to_month = SqlDataType.ext_w_varchar
plain_sql_type PlainType.interval_day_to_second = SqlDataType.ext_w_varchar
plain_sql_type PlainType.unknown = SqlDataType.ext_w_varchar

unfoldable pub trino_ty_to_sql_type : TrinoTy → SqlDataType
unfolding plain_sql_type
trino_ty_to_sql_type TrinoTy.time = SqlDataType.time
trino_ty_to_sql_type TrinoTy.time_with_time_zone = SqlDataType.time
trino_ty_to_sql_type TrinoTy.timestamp = SqlDataType.timestamp
trino_ty_to_sql_type TrinoTy.timestamp_with_time_zone = SqlDataType.timestamp
trino_ty_to_sql_type (TrinoTy.option inner) = trino_ty_to_sql_type inner
trino_ty_to_sql_type (TrinoTy.array inner) = SqlDataType.ext_w_varchar
trino_ty_to_sql_type (TrinoTy.map_of k v) = SqlDataType.ext_w_varchar
trino_ty_to_sql_type (TrinoTy.row named) = SqlDataType.ext_w_varchar
trino_ty_to_sql_type (TrinoTy.tuple types) = SqlDataType.ext_w_varchar
trino_ty_to_sql_type (TrinoTy.plain_type plain) = plain_sql_type plain

-- `s as i16`
unfoldable pub as_i16 : ℕ → ℤ
as_i16 n = if ltb (n % 2 ^ 16) (2 ^ 15) then pos (n % 2 ^ 16) else negsuc (2 ^ 16 - 1 - n % 2 ^ 16)

unfoldable pub trino_ty_scale : TrinoTy → ℤ
unfolding as_i16
trino_ty_scale (TrinoTy.plain_type (PlainType.decimal p s)) = as_i16 s
trino_ty_scale (TrinoTy.option inner) = trino_ty_scale inner
trino_ty_scale _ = pos 0

-- A size that is no `u32` is reported as none.
unfoldable pub precision_as_u32 : ℤ → ℕ
precision_as_u32 (pos n) = n
precision_as_u32 (negsuc n) = 0

module _ (column_size : SqlDataType → ℤ → ℤ → ℤ) (undeterminable : ℕ) where
  -- The size of a type with a default size.
  abbrev fixed_size : SqlDataType → ℤ → ℕ
  fixed_size ty scale = precision_as_u32 (column_size ty (pos 0) scale)

  -- The size of a type whose length or precision is capped at `i32::MAX`.
  abbrev sized : SqlDataType → ℕ → ℕ
  sized ty n = precision_as_u32 (column_size ty (pos (min n 2147483647)) (pos 0))

  unfoldable pub plain_precision : PlainType → ℕ
  unfolding precision_as_u32
  plain_precision PlainType.int8 = fixed_size SqlDataType.ext_tiny_int (pos 0)
  plain_precision PlainType.int16 = fixed_size SqlDataType.smallint (pos 0)
  plain_precision PlainType.int32 = fixed_size SqlDataType.integer (pos 0)
  plain_precision PlainType.int64 = fixed_size SqlDataType.ext_big_int (pos 0)
  plain_precision PlainType.float32 = fixed_size SqlDataType.real (pos 0)
  plain_precision PlainType.float64 = fixed_size SqlDataType.double (pos 0)
  plain_precision (PlainType.char n) = sized SqlDataType.ext_w_char n
  plain_precision PlainType.boolean = fixed_size SqlDataType.ext_bit (pos 0)
  plain_precision PlainType.date = fixed_size SqlDataType.date (pos 0)
  plain_precision (PlainType.decimal p s) = sized SqlDataType.decimal p
  plain_precision PlainType.varchar = undeterminable
  plain_precision PlainType.uuid = undeterminable
  plain_precision PlainType.json = undeterminable
  plain_precision PlainType.ip_address = undeterminable
  plain_precision PlainType.interval_year_to_month = undeterminable
  plain_precision PlainType.interval_day_to_second = undeterminable
  plain_precision PlainType.var_binary = undeterminable
  plain_precision PlainType.unknown = undeterminable

  unfoldable pub trino_ty_precision : TrinoTy → ℕ
  unfolding plain_precision
  trino_ty_precision TrinoTy.time = fixed_size SqlDataType.time default_temporal_scale
  trino_ty_precision TrinoTy.time_with_time_zone =
      fixed_size SqlDataType.time default_temporal_scale
  trino_ty_precision TrinoTy.timestamp = fixed_size SqlDataType.timestamp default_temporal_scale
  trino_ty_precision TrinoTy.timestamp_with_time_zone =
      fixed_size SqlDataType.timestamp default_temporal_scale
  trino_ty_precision (TrinoTy.option inner) = trino_ty_precision inner
  trino_ty_precision (TrinoTy.array inner) = undeterminable
  trino_ty_precision (TrinoTy.map_of k v) = undeterminable
  trino_ty_precision (TrinoTy.row named) = undeterminable
  trino_ty_precision (TrinoTy.tuple types) = undeterminable
  trino_ty_precision (TrinoTy.plain_type plain) = plain_precision plain
