-- ===== src/Statement/Execute.antt =====
-- `execute`: the prepared text with its parameters, run on the same handle again and again.
use stackable_odbc_trino.Base.{ℕ, List, Option, none, some}
use stackable_odbc_trino.Base.Outcome.{Result, ok, err}
use stackable_odbc_trino.Base.Text.{Text}
use stackable_odbc_trino.Column.{ColumnValue}
use stackable_odbc_trino.Errors.{TrinoError, general, no_prepared_statement}
use stackable_odbc_trino.Params.Literal.{Externals}
use stackable_odbc_trino.Params.Interpolate.{interpolate_params}
use stackable_odbc_trino.Statement.State.{Statement}
use stackable_odbc_trino.Statement.Fetch.{Driver, Machine}
use stackable_odbc_trino.Statement.Close.{drop_statement}
use stackable_odbc_trino.Statement.Submit.{Step, exec_direct}

module _ (x : Externals) (d : Driver) where
  abbrev pub Executed : Type 0
  Executed = Option (Result TrinoError (Unit {0}) × Machine d)

  -- The old statement is dropped, and the new one keeps the template.
  unfoldable pub swap_in : Text → Statement d.Descriptor d.TrinoTy → Option (Machine d) → Executed
  swap_in template result none = none
  swap_in template result (some (old, w)) =
      some (ok tt, (record result { pending_sql = some template }, w))

  -- What follows the submission: an error leaves the statement as it was.
  unfoldable pub installed :
      ℕ
      → Text
      → Statement d.Descriptor d.TrinoTy
      → Step d.client (Statement d.Descriptor d.TrinoTy)
      → Executed
  installed fuel template s none = none
  installed fuel template s (some (err e, w)) = some (err e, (s, w))
  installed fuel template s (some (ok result, w)) =
      swap_in template result (drop_statement d fuel (s, w))

  unfoldable pub submit : ℕ → ℕ → Text → Result TrinoError Text → Machine d → Executed
  submit fuel token template (err e) (s, w) = some (err e, (s, w))
  submit fuel token template (ok sql) (s, w) =
      installed fuel template s (exec_direct d fuel token sql w)

  unfoldable pub execute_template : ℕ → ℕ → List ColumnValue → Option Text → Machine d → Executed
  execute_template fuel token params none (s, w) =
      some (err (general no_prepared_statement), (s, w))
  execute_template fuel token params (some template) m =
      submit fuel token template (interpolate_params x params template) m

  unfoldable pub execute : ℕ → ℕ → List ColumnValue → Machine d → Executed
  execute fuel token params m = execute_template fuel token params m.0.pending_sql m
