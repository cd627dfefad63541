-- ===== src/Catalog/Queries.antt =====
-- Queries for metadata: `query_all_rows` of backend.rs, and what backend/metadata.rs makes of its
-- failures. The rest of the client's interface is a parameter.
use stackable_odbc_trino.Base.{
  ℤ, pos, negsuc, Bool, false, not, ◌&&◌, List, [], ◌∷◌, Option, none, some, ◌==◌, if◌then◌else◌,
}
use stackable_odbc_trino.Base.Outcome.{Result, ok, err}
use stackable_odbc_trino.Base.Text.{Text, codes}
use stackable_odbc_trino.Errors.{TrinoError}
use stackable_odbc_trino.Errors.Mapping.{ClientError}
use stackable_odbc_trino.Session.Client.{Client}
use stackable_odbc_trino.Session.Shared.{Store, statement_error}
use stackable_odbc_trino.Conversion.Nested.{Value}
unfoldable pub use stackable_odbc_trino.Conversion.Values.{as_str, as_i64}

-- A row's JSON values.
abbrev pub Row : Type 0
Row = List Value

-- `Client::get_all`, which collects all rows of a query, and `Client::execute`, for statements
-- without rows.
pub record Queries (c : Client) : Type 0 where
  pub get_all : Text → c.State → Result ClientError (List Row) × c.State
  pub execute : Text → c.State → Result ClientError (Unit {0}) × c.State

-- `iter().filter_map(f).collect()`
abbrev pub keep : {B : Type 0} → Option B → List B → List B
keep none ys = ys
keep (some y) ys = y ∷ ys

unfoldable pub filter_map : {A B : Type 0} → (A → Option B) → List A → List B
filter_map f [] = []
filter_map f (x ∷ xs) = keep (f x) (filter_map f xs)

-- `error_code == TRINO_CATALOG_NOT_FOUND`
abbrev pub is_catalog_not_found : ℤ → Bool
is_catalog_not_found (pos n) = n == 44
is_catalog_not_found (negsuc n) = false

unfoldable pub trino_error_code : TrinoError → Option ℤ
trino_error_code (TrinoError.query cause native) = some native
trino_error_code _ = none

unfoldable pub not_found : Option ℤ → Bool
not_found none = false
not_found (some code) = is_catalog_not_found code

-- The text in a row's first column.
unfoldable pub first_text : Row → Option Text
unfolding as_str
first_text [] = none
first_text (v ∷ row) = as_str v

module _ {c : Client} where
  -- The reply of the client, a failure of which is reported by `conn.statement_error`.
  unfoldable pub collected :
      {A : Type 0} → Result ClientError A × c.State → Store c → Result TrinoError A × Store c
  collected (ok rows, s) w = (ok rows, record w { client = s })
  collected (err e, s) w =
      let (mapped, w') = statement_error e (record w { client = s }) in (err mapped, w')

  -- A catalog that does not exist has no rows, unless a transaction was open.
  unfoldable pub or_empty :
      Bool → Result TrinoError (List Row) × Store c → Result TrinoError (List Row) × Store c
  unfolding trino_error_code not_found
  or_empty in_transaction (ok rows, w) = (ok rows, w)
  or_empty in_transaction (err e, w) =
      if not_found (trino_error_code e) && not in_transaction then (ok [], w) else (err e, w)

  -- What a catalog function makes of its rows.
  unfoldable pub each_row :
      {A : Type 0}
      → (Row → Option A)
      → Result TrinoError (List Row) × Store c
      → Result TrinoError (List A) × Store c
  unfolding filter_map
  each_row f (ok rows, w) = (ok (filter_map f rows), w)
  each_row f (err e, w) = (err e, w)

module _ {c : Client} (q : Queries c) where
  unfoldable pub query_all_rows : Text → Store c → Result TrinoError (List Row) × Store c
  unfolding collected
  query_all_rows sql w = collected (q.get_all sql w.client) w

  unfoldable pub query_information_schema : Text → Store c → Result TrinoError (List Row) × Store c
  unfolding or_empty
  query_information_schema sql w = or_empty (c.is_active w.client) (query_all_rows sql w)

  unfoldable pub catalogs : Store c → Result TrinoError (List Text) × Store c
  catalogs w =
      each_row first_text (query_all_rows (codes "SELECT table_cat FROM system.jdbc.catalogs") w)

  unfoldable pub schemas : Store c → Result TrinoError (List Text) × Store c
  schemas w =
      each_row first_text (query_all_rows (codes "SELECT table_schem FROM system.jdbc.schemas") w)
