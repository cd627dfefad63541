-- ===== src/Statement/Described.antt =====
-- How `exec_direct` describes a column of a result, and the values that the column delivers.
use stackable_odbc_trino.Base.{ℕ, ℤ, pos, negsuc, ◌≡◌, refl, Option, none, some}
use stackable_odbc_trino.Base.Fallible.{◌>>=◌, get_or}
use stackable_odbc_trino.Base.Text.{Text}
use stackable_odbc_trino.Conversion.Nested.{TrinoTy, Value}
use stackable_odbc_trino.Conversion.TypeName.{SqlDataType, TrinoTypeName, parse, sql_type}
use stackable_odbc_trino.Conversion.TypeParams.{in_i16, type_name_precision, type_name_scale}
use stackable_odbc_trino.Conversion.Zones.{Chrono, SessionZone}
use stackable_odbc_trino.Conversion.Values.{Readers, json_to_column_value}
use stackable_odbc_trino.Conversion.TypedValues.{json_to_column_value-IsOf}
use stackable_odbc_trino.Conversion.Reported.{
  trino_ty_to_sql_type, trino_ty_precision, trino_ty_scale,
}
use stackable_odbc_trino.Conversion.Agreement.{Names, Fits, IsOf-Fits, IsOf-named}
use stackable_odbc_trino.Catalog.Rows.{trino_bare_type_name}

-- What core's `ColumnDescriptor` is built from; whether a column accepts nulls is left unknown.
pub record ColumnDescriptor : Type 0 where
  pub column_name : Text
  pub reported_type : SqlDataType
  pub type_name : Text
  pub precision : ℕ
  pub scale : ℤ

-- `u32::try_from`
abbrev to_u32 : ℤ → Option ℕ
to_u32 (pos n) = some n
to_u32 (negsuc n) = none

-- The name of a column's type decides, and the client's type where the name is not known.
unfoldable pub column_sql_type : Text → TrinoTy → SqlDataType
unfolding parse sql_type trino_ty_to_sql_type
column_sql_type native ty =
    get_or (parse native >>= λ n. some (sql_type n)) (trino_ty_to_sql_type ty)

module _ (column_size : SqlDataType → ℤ → ℤ → ℤ) (undeterminable : ℕ) where
  unfoldable pub column_descriptor : Text → Text → TrinoTy → ColumnDescriptor
  unfolding column_sql_type type_name_precision type_name_scale trino_ty_precision trino_ty_scale
      trino_bare_type_name in_i16
  column_descriptor name native ty =
      let sql = column_sql_type native ty in
      record {
        column_name = name;
        reported_type = sql;
        type_name = trino_bare_type_name native sql;
        precision =
            get_or (type_name_precision column_size native >>= to_u32)
              (trino_ty_precision column_size undeterminable ty);
        scale = get_or (type_name_scale native >>= in_i16) (trino_ty_scale ty);
      }

module _ (x : Chrono) (r : Readers x) (session : SessionZone x) where
  -- A null, a text, or a variant for the SQL type.
  by_name :
      (found : Option TrinoTypeName) (ty : TrinoTy) (v : Value)
      → ((n : TrinoTypeName) → found ≡ some n → Names n ty)
      → Fits
          (get_or (found >>= λ n. some (sql_type n)) (trino_ty_to_sql_type ty))
          (json_to_column_value x r session ty v)
  by_name none ty v h = IsOf-Fits x r (json_to_column_value-IsOf x r session ty v)
  by_name (some n) ty v h = IsOf-named x r (h n refl) (json_to_column_value-IsOf x r session ty v)

  -- Every value of a column is one that the SQL type in its descriptor allows: a null, a text, or the
  -- variant for that type. The client's type is one that the declared type's name stands for, where
  -- the driver knows the name.
  pub column_descriptor-Fits :
      (column_size : SqlDataType → ℤ → ℤ → ℤ) (undeterminable : ℕ) (name native : Text)
      (ty : TrinoTy) (v : Value)
      → ((n : TrinoTypeName) → parse native ≡ some n → Names n ty)
      → Fits
          (column_descriptor column_size undeterminable name native ty).reported_type
          (json_to_column_value x r session ty v)
  unfolding column_descriptor column_sql_type
  column_descriptor-Fits column_size undeterminable name native ty v h =
      by_name (parse native) ty v h
