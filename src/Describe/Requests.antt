-- ===== src/Describe/Requests.antt =====
-- `describe_param` with its cache, and the round trip behind it (backend/describe_param.rs).
use stackable_odbc_trino.Base.{
  ℕ, zero, suc, ℤ, Bool, false, List, ◌++◌, Option, none, some, if◌then◌else◌, get_elem?,
}
use stackable_odbc_trino.Base.Outcome.{Result, ok, err}
use stackable_odbc_trino.Base.Text.{Text, codes, eq_text}
use stackable_odbc_trino.Errors.{TrinoError}
use stackable_odbc_trino.Errors.Mapping.{ClientError}
use stackable_odbc_trino.Session.Client.{Client}
use stackable_odbc_trino.Session.Shared.{Store, map_trino_error_on}
use stackable_odbc_trino.Statement.Terminator.{strip_trailing_semicolons}
use stackable_odbc_trino.Conversion.TypeName.{SqlDataType}
use stackable_odbc_trino.Catalog.Queries.{Row, Queries, query_all_rows}
use stackable_odbc_trino.Describe.Params.{ParamDescriptor, describe_input_rows_to_params}

-- `DESCRIBE_PARAM_STATEMENT`
abbrev pub describe_param_statement : Text
describe_param_statement = codes "stackable_odbc_describe_input"

abbrev pub prepare_sql : Text → Text
prepare_sql sql =
    codes "PREPARE "
    ++ (describe_param_statement ++ (codes " FROM " ++ strip_trailing_semicolons sql))

abbrev pub describe_input_sql : Text
describe_input_sql = codes "DESCRIBE INPUT " ++ describe_param_statement

abbrev pub deallocate_sql : Text
deallocate_sql = codes "DEALLOCATE PREPARE " ++ describe_param_statement

pub record CachedParams : Type 0 where
  pub sql : Text
  pub params : List ParamDescriptor

-- A connection's store with the cache of `describe_param`.
pub record Described (c : Client) : Type 0 where
  pub store : Store c
  pub cache : Option CachedParams

module _ {c : Client} where
  -- The reply to a statement without rows.
  unfoldable pub executed :
      Result ClientError (Unit {0}) × c.State → Store c → Result TrinoError (Unit {0}) × Store c
  executed (ok _, s) w = (ok tt, record w { client = s })
  executed (err e, s) w =
      let (mapped, w') = map_trino_error_on e (record w { client = s }) in (err mapped, w')

-- The answer from the cache, and the cache after a fetch.
unfoldable pub answer_at : ℕ → Option CachedParams → Option ParamDescriptor
answer_at index none = none
answer_at index (some cached) = get_elem? cached.params index

-- `cache.is_none_or(|cached| cached.sql != sql)`, negated.
unfoldable pub is_cached : Text → Option CachedParams → Bool
unfolding eq_text
is_cached sql none = false
is_cached sql (some cached) = eq_text cached.sql sql

module _ {c : Client} where
  unfoldable pub refreshed :
      ℕ
      → Text
      → Bool
      → Option CachedParams
      → Result TrinoError (List ParamDescriptor) × Store c
      → Result TrinoError (Option ParamDescriptor) × Described c
  unfolding answer_at
  refreshed index sql in_transaction cache (ok params, w) =
      let fresh = some (record { sql = sql; params = params }) in
      (ok (answer_at index fresh), record { store = w; cache = fresh })
  refreshed index sql in_transaction cache (err e, w) =
      if in_transaction
      then (err e, record { store = w; cache = cache })
      else (ok none, record { store = w; cache = cache })

module _ {c : Client} (q : Queries c) where
  unfoldable pub execute_statement : Text → Store c → Result TrinoError (Unit {0}) × Store c
  unfolding executed
  execute_statement sql w = executed (q.execute sql w.client) w

module _ {c : Client} (q : Queries c) (column_size : SqlDataType → ℤ → ℤ → ℤ) where
  -- Behind the description: the statement is dropped whatever came of it, and a failure of that is
  -- only logged.
  unfoldable pub dropped :
      Result TrinoError (List Row) × Store c → Result TrinoError (List ParamDescriptor) × Store c
  dropped (ok rows, w) = (
    ok (describe_input_rows_to_params column_size rows),
    (execute_statement q deallocate_sql w).1,
  )
  dropped (err e, w) = (err e, (execute_statement q deallocate_sql w).1)

  -- Behind the `PREPARE`.
  unfoldable pub prepared :
      Result TrinoError (Unit {0}) × Store c → Result TrinoError (List ParamDescriptor) × Store c
  unfolding dropped
  prepared (ok _, w) = dropped (query_all_rows q describe_input_sql w)
  prepared (err e, w) = (err e, w)

  unfoldable pub fetch_input_params :
      Text → Store c → Result TrinoError (List ParamDescriptor) × Store c
  unfolding prepared
  fetch_input_params sql w = prepared (execute_statement q (prepare_sql sql) w)

  -- The parameter's number counts from 1.
  unfoldable pub describe_param :
      Text → ℕ → Described c → Result TrinoError (Option ParamDescriptor) × Described c
  unfolding is_cached refreshed
  describe_param sql zero d = (ok none, d)
  describe_param sql (suc index) d =
      if is_cached sql d.cache
      then (ok (answer_at index d.cache), d)
      else refreshed index sql (c.is_active d.store.client) d.cache (fetch_input_params sql d.store)
