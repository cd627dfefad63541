-- ===== src/Information/Tests.antt =====
-- The row for a column of an unknown type that is delivered as text.
use stackable_odbc_trino.Base.{ℤ, ◌≡◌, refl, none}
use stackable_odbc_trino.Base.Text.{Text, codes, split_once, is_empty}
use stackable_odbc_trino.Base.Text.Space.{is_whitespace}
use stackable_odbc_trino.Conversion.Nested.{TrinoTy}
use stackable_odbc_trino.Conversion.TypeName.{
  SqlDataType, parse, spelled, strip_precision_param, open_argument, close_argument, around, trim,
  lower,
}
use stackable_odbc_trino.Conversion.Reported.{trino_ty_to_sql_type}
use stackable_odbc_trino.Statement.Described.{column_descriptor}
use stackable_odbc_trino.Information.TypeInfo.{trino_type_info}
use stackable_odbc_trino.Information.Agreement.{Says, row_named, column_descriptor-row_named}

abbrev of_times : Text
of_times = codes "array(time)"

abbrev core_size : SqlDataType → ℤ → ℤ → ℤ
core_size ty p s = p

of_times-trino_ty_to_sql_type :
    trino_ty_to_sql_type (TrinoTy.array TrinoTy.time) ≡ SqlDataType.ext_w_varchar
unfolding trino_ty_to_sql_type
of_times-trino_ty_to_sql_type = refl

of_times-parse : parse of_times ≡ none
unfolding parse spelled strip_precision_param open_argument close_argument around trim lower
    split_once is_empty is_whitespace
of_times-parse = refl

column_descriptor-row_named_example :
    Says
      (column_descriptor core_size 0
        (codes "t")
        of_times
        (TrinoTy.array TrinoTy.time)).reported_type
      (row_named
        (column_descriptor core_size 0 (codes "t") of_times (TrinoTy.array TrinoTy.time)).type_name
        (trino_type_info core_size))
column_descriptor-row_named_example =
    column_descriptor-row_named core_size core_size 0 (codes "t") of_times
      (TrinoTy.array TrinoTy.time) (λ _. of_times-trino_ty_to_sql_type)
