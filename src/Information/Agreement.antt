-- ===== src/Information/Agreement.antt =====
-- The rows of SQLGetTypeInfo and the columns that the driver reports.
use stackable_odbc_trino.Base.{ℕ, ℤ, ◌≡◌, refl, List, [], ◌∷◌, Option, none, some, if◌then◌else◌}
use stackable_odbc_trino.Base.Text.{Text, eq_text}
use stackable_odbc_trino.Conversion.Nested.{TrinoTy}
use stackable_odbc_trino.Conversion.TypeName.{SqlDataType, TrinoTypeName, name, parse, sql_type}
use stackable_odbc_trino.Conversion.Reported.{trino_ty_to_sql_type}
use stackable_odbc_trino.Catalog.Rows.{trino_bare_type_name, verbose_type}
use stackable_odbc_trino.Statement.Described.{column_descriptor, column_sql_type}
use stackable_odbc_trino.Information.TypeInfo.{TypeInfoRow, trino_type_info}

-- The row that an application finds under the name of a type.
unfoldable pub row_named : Text → List TypeInfoRow → Option TypeInfoRow
unfolding eq_text
row_named n [] = none
row_named n (r ∷ rs) = if eq_text r.type_name n then some r else row_named n rs

-- A row that says of a type what the columns of that type say: its SQL type, and the code of a date
-- or time.
abbrev pub Says : SqlDataType → Option TypeInfoRow → Type 0
Says ty found =
    (r : TypeInfoRow) × (found ≡ some r)
    × (r.data_type ≡ ty)
    × (r.datetime_code ≡ (verbose_type ty).1)

bare_unknown :
    (native : Text)
    → parse native ≡ none
    → trino_bare_type_name native SqlDataType.ext_w_varchar ≡ name TrinoTypeName.varchar
unfolding trino_bare_type_name
bare_unknown native e = rw (e, trino_bare_type_name) refl

bare_known :
    (native : Text) (ty : SqlDataType) (n : TrinoTypeName)
    → parse native ≡ some n
    → trino_bare_type_name native ty ≡ name n
unfolding trino_bare_type_name
bare_known native ty n e = rw (e, trino_bare_type_name) refl

column_unknown :
    (native : Text) (ty : TrinoTy)
    → parse native ≡ none
    → column_sql_type native ty ≡ trino_ty_to_sql_type ty
unfolding column_sql_type
column_unknown native ty e = rw e refl

column_known :
    (native : Text) (ty : TrinoTy) (n : TrinoTypeName)
    → parse native ≡ some n
    → column_sql_type native ty ≡ sql_type n
unfolding column_sql_type
column_known native ty n e = rw e refl

module _ (size : SqlDataType → ℤ → ℤ → ℤ) where
  row_named-name :
      (n : TrinoTypeName) → Says (sql_type n) (row_named (name n) (trino_type_info size))
  unfolding row_named trino_type_info name sql_type verbose_type
  row_named-name TrinoTypeName.boolean = (_, refl, refl, refl)
  row_named-name TrinoTypeName.tiny_int = (_, refl, refl, refl)
  row_named-name TrinoTypeName.small_int = (_, refl, refl, refl)
  row_named-name TrinoTypeName.integer = (_, refl, refl, refl)
  row_named-name TrinoTypeName.big_int = (_, refl, refl, refl)
  row_named-name TrinoTypeName.real = (_, refl, refl, refl)
  row_named-name TrinoTypeName.double = (_, refl, refl, refl)
  row_named-name TrinoTypeName.decimal = (_, refl, refl, refl)
  row_named-name TrinoTypeName.varchar = (_, refl, refl, refl)
  row_named-name TrinoTypeName.char = (_, refl, refl, refl)
  row_named-name TrinoTypeName.varbinary = (_, refl, refl, refl)
  row_named-name TrinoTypeName.date = (_, refl, refl, refl)
  row_named-name TrinoTypeName.time = (_, refl, refl, refl)
  row_named-name TrinoTypeName.time_with_time_zone = (_, refl, refl, refl)
  row_named-name TrinoTypeName.timestamp = (_, refl, refl, refl)
  row_named-name TrinoTypeName.timestamp_with_time_zone = (_, refl, refl, refl)
  row_named-name TrinoTypeName.json = (_, refl, refl, refl)
  row_named-name TrinoTypeName.uuid = (_, refl, refl, refl)
  row_named-name TrinoTypeName.interval_day_to_second = (_, refl, refl, refl)
  row_named-name TrinoTypeName.interval_year_to_month = (_, refl, refl, refl)

  by_parse :
      (native : Text) (ty : TrinoTy) (found : Option TrinoTypeName)
      → parse native ≡ found
      → (found ≡ none → trino_ty_to_sql_type ty ≡ SqlDataType.ext_w_varchar)
      → Says (column_sql_type native ty) (
          row_named
            (trino_bare_type_name native (column_sql_type native ty))
            (trino_type_info size))
  unfolding sql_type
  by_parse native ty none e h =
      rw (column_unknown native ty e, h refl, bare_unknown native e)
        (row_named-name TrinoTypeName.varchar)
  by_parse native ty (some n) e h =
      rw (column_known native ty n e, bare_known native (sql_type n) n e) (row_named-name n)

  -- Whatever the type of a column of a result, SQLGetTypeInfo has a row under the name in the
  -- column's descriptor, and the row says what the descriptor says: the same SQL type, and the code
  -- that goes with it as a date or time. A type whose name the driver does not know is one that it
  -- reports as text.
  pub column_descriptor-row_named :
      (column_size : SqlDataType → ℤ → ℤ → ℤ) (undeterminable : ℕ) (column native : Text)
      (ty : TrinoTy)
      → (parse native ≡ none → trino_ty_to_sql_type ty ≡ SqlDataType.ext_w_varchar)
      → Says (column_descriptor column_size undeterminable column native ty).reported_type (
          row_named
            (column_descriptor column_size undeterminable column native ty).type_name
            (trino_type_info size))
  unfolding column_descriptor
  column_descriptor-row_named column_size undeterminable column native ty h =
      by_parse native ty (parse native) refl h
