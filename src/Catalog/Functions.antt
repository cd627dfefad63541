-- ===== src/Catalog/Functions.antt =====
-- The catalog functions of backend/metadata.rs: `tables`, `columns` and `table_privileges`, and those
-- for which Trino has nothing to report.
use stackable_odbc_trino.Base.{ℤ, List, [], ◌++◌, Option, map}
use stackable_odbc_trino.Base.Outcome.{Result, ok}
use stackable_odbc_trino.Base.Text.{Text, codes}
use stackable_odbc_trino.Errors.{TrinoError}
use stackable_odbc_trino.Session.Client.{Client}
use stackable_odbc_trino.Session.Shared.{Store}
use stackable_odbc_trino.Conversion.TypeName.{SqlDataType}
use stackable_odbc_trino.Catalog.Patterns.{
  information_schema_ref, build_tables_where_clause, build_columns_where_clause,
}
use stackable_odbc_trino.Catalog.Queries.{Queries, query_information_schema, each_row}
use stackable_odbc_trino.Catalog.Rows.{
  TableRow, table_row, to_uppercase, ColumnRow, column_row, TablePrivilegeRow, table_privilege_row,
}

-- The statement of `tables`.
unfoldable pub tables_sql : Option Text → Option Text → Option Text → Text
tables_sql catalog schema table =
    codes "SELECT table_catalog, table_schema, table_name, table_type FROM "
    ++ (information_schema_ref catalog (codes "tables")
        ++ build_tables_where_clause catalog schema table)

unfoldable pub columns_sql : Option Text → Option Text → Option Text → Option Text → Text
columns_sql catalog schema table column =
    codes "SELECT table_catalog, table_schema, table_name, column_name, "
    ++ (codes "ordinal_position, column_default, is_nullable, data_type FROM "
        ++ (information_schema_ref catalog (codes "columns")
            ++ build_columns_where_clause catalog schema table column))

unfoldable pub privileges_sql : Option Text → Option Text → Option Text → Text
privileges_sql catalog schema table =
    codes "SELECT table_catalog, table_schema, table_name, grantor, grantee, "
    ++ (codes "privilege_type, is_grantable FROM "
        ++ (information_schema_ref catalog (codes "table_privileges")
            ++ build_tables_where_clause catalog schema table))

module _ {c : Client} (q : Queries c) (catalog schema table : Option Text) where
  -- `table_types` is the list of types that the application asks for.
  unfoldable pub tables : List Text → Store c → Result TrinoError (List TableRow) × Store c
  unfolding tables_sql
  tables table_types w =
      each_row (table_row (map to_uppercase table_types))
        (query_information_schema q (tables_sql catalog schema table) w)

  unfoldable pub columns :
      (SqlDataType → ℤ → ℤ → ℤ)
      → Option Text
      → Store c
      → Result TrinoError (List ColumnRow) × Store c
  unfolding columns_sql
  columns column_size column w =
      each_row (column_row column_size)
        (query_information_schema q (columns_sql catalog schema table column) w)

  unfoldable pub table_privileges : Store c → Result TrinoError (List TablePrivilegeRow) × Store c
  unfolding privileges_sql
  table_privileges w =
      each_row table_privilege_row
        (query_information_schema q (privileges_sql catalog schema table) w)

-- The functions for which Trino has nothing to report, whatever they are asked.
module _ {Query Answer : Type 0} {c : Client} where
  unfoldable pub column_privileges : Query → Store c → Result TrinoError (List Answer) × Store c
  column_privileges query w = (ok [], w)

  unfoldable pub procedures : Query → Store c → Result TrinoError (List Answer) × Store c
  procedures query w = (ok [], w)

  unfoldable pub procedure_columns : Query → Store c → Result TrinoError (List Answer) × Store c
  procedure_columns query w = (ok [], w)

  unfoldable pub primary_keys : Query → Store c → Result TrinoError (List Answer) × Store c
  primary_keys query w = (ok [], w)

  unfoldable pub foreign_keys : Query → Store c → Result TrinoError (List Answer) × Store c
  foreign_keys query w = (ok [], w)

  unfoldable pub statistics : Query → Store c → Result TrinoError (List Answer) × Store c
  statistics query w = (ok [], w)

  unfoldable pub special_columns : Query → Store c → Result TrinoError (List Answer) × Store c
  special_columns query w = (ok [], w)
