-- ===== src/Catalog/Tests.antt =====
-- Runs of the catalog functions, and their theorems at concrete arguments.
use stackable_odbc_trino.Base.{◌≡◌, refl, true, false, ◌&&◌, List, [], ◌∷◌, none, some, arith, pos}
use mathlib.Core.Option
use stackable_odbc_trino.Base.Outcome.{ok, err}
use stackable_odbc_trino.Base.Text.{Text, codes, eq_text, is_empty}
use stackable_odbc_trino.Errors.Mapping.{ClientError}
use stackable_odbc_trino.Session.Shared.{no_query, Store}
use stackable_odbc_trino.Session.Tests.{slot_client}
use stackable_odbc_trino.Conversion.Nested.{string}
use stackable_odbc_trino.Catalog.Patterns.{
  build_tables_where_clause, build_columns_where_clause, information_schema_ref, push_argument,
  push_filter, restricts, where_clause, join_and, condition, has_odbc_wildcards, wildcard_behind,
  unescaped, unescape,
}
use stackable_odbc_trino.Params.Literal.{double_quotes}
use stackable_odbc_trino.Catalog.Reader.{Item, any_run, exact, print, print_with, selects, wanted}
use stackable_odbc_trino.Catalog.Selection.{build_columns_where_clause-selects}
use stackable_odbc_trino.Catalog.Identifier.{read_schema, queried, information_schema_ref_lem}
use stackable_odbc_trino.Catalog.Queries.{
  Row, Queries, query_information_schema, each_row, query_all_rows, filter_map, as_str,
}
use stackable_odbc_trino.Catalog.Rows.{
  TableRow, table_row, to_uppercase, is_allowed, any_text, odbc_table_type,
}
use stackable_odbc_trino.Catalog.Functions.{tables}
use stackable_odbc_trino.Catalog.Answers.{catalog_in_transaction}

-- `o'b%`, `my_cat` and `call"s`.
abbrev quoted : List Item
quoted = exact b'o' ∷ exact 39 ∷ exact b'b' ∷ any_run ∷ []

abbrev underscored : List Item
underscored = exact b'm' ∷ exact b'y' ∷ exact b'_' ∷ exact b'c' ∷ []

abbrev delimited : List Item
delimited = exact b'c' ∷ exact b'"' ∷ exact b'_' ∷ []

clause_text :
    build_tables_where_clause none (some (codes "my\\_c")) (some (codes "o'b%"))
    ≡ codes " WHERE table_schema = 'my_c' AND table_name LIKE 'o''b%' ESCAPE '\\'"
unfolding build_tables_where_clause push_argument push_filter restricts where_clause join_and
    condition has_odbc_wildcards wildcard_behind unescaped unescape double_quotes is_empty eq_text
clause_text = refl

printed : print underscored ≡ codes "my\\_c"
unfolding print_with
printed = refl

abbrev in_columns : Text → Text
in_columns column = codes "o'brien"

build_columns_where_clause-selects_example :
    selects 4
      (build_columns_where_clause none
        (Option.map print (some quoted))
        none
        (Option.map print (some underscored)))
      in_columns
    ≡ some (
        wanted none (codes "o'brien")
        && (wanted (some quoted) (codes "o'brien")
            && (wanted none (codes "o'brien")
                && (wanted (some underscored) (codes "o'brien") && true))))
build_columns_where_clause-selects_example =
    build_columns_where_clause-selects none (some quoted) none in_columns tt (omega arith) tt
      (some underscored) (omega arith)

information_schema_ref_lem_example :
    read_schema (information_schema_ref (Option.map print (some delimited)) (codes "tables"))
    ≡ some (queried (some delimited), codes "tables")
information_schema_ref_lem_example =
    information_schema_ref_lem (some delimited) (codes "tables") (omega arith)

-- A coordinator with one view, and one that has no such catalog.
abbrev view_row : Row
view_row = string (codes "c") ∷ string (codes "s") ∷ string (codes "v") ∷ string (codes "view") ∷ []

abbrev with_view : Queries slot_client
with_view = record { get_all = λ sql s. (ok (view_row ∷ []), s); execute = λ sql s. (ok tt, s) }

abbrev no_such_catalog : ClientError
no_such_catalog = ClientError.query (pos 44) (codes "CATALOG_NOT_FOUND") []

abbrev without_catalog : Queries slot_client
without_catalog = record {
  get_all = λ sql s. (err no_such_catalog, s);
  execute = λ sql s. (ok tt, s);
}

abbrev in_manual_transaction : Store slot_client
in_manual_transaction = record {
  client = true;
  txn = record { autocommit = false; aborted = false; epoch = 0 };
  dead = false;
  cancels = λ k. no_query;
}

abbrev the_view : TableRow
the_view = record {
  catalog = some (codes "c");
  schema = some (codes "s");
  table_name = codes "v";
  table_type = codes "VIEW";
}

lists_the_view :
    (tables with_view none none none (codes "View" ∷ []) in_manual_transaction).0
    ≡ ok (the_view ∷ [])
unfolding tables each_row query_information_schema query_all_rows filter_map table_row is_allowed
    any_text odbc_table_type to_uppercase eq_text as_str
lists_the_view = refl

reads_the_view :
    (each_row
      (table_row [])
      (query_information_schema with_view (codes "SELECT 1") in_manual_transaction)).0
    ≡ ok (the_view ∷ [])
unfolding each_row query_information_schema query_all_rows filter_map table_row is_allowed
    odbc_table_type to_uppercase eq_text as_str
reads_the_view = refl

catalog_in_transaction_example :
    ((read : List Row) × ((with_view.get_all (codes "SELECT 1") true).0 ≡ ok read)
      × ((the_view ∷ []) ≡ filter_map (table_row []) read))
    × ((each_row
          (table_row [])
          (query_information_schema with_view (codes "SELECT 1") in_manual_transaction)).1.txn
        ≡ in_manual_transaction.txn)
catalog_in_transaction_example =
    catalog_in_transaction with_view (table_row []) (codes "SELECT 1") in_manual_transaction
      (the_view ∷ []) refl reads_the_view
