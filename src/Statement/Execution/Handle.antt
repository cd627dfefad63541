-- ===== src/Statement/Execution/Handle.antt =====
-- A prepared handle over its runs (`execute` of backend/execute.rs).
use mathlib.Core.Path.{subst}
use stackable_odbc_trino.Base.{ℕ, ◌≡◌, refl, ap, true, false, List, Option, none, some}
use stackable_odbc_trino.Base.Outcome.{Result, ok, err}
use stackable_odbc_trino.Base.Text.{Text}
use stackable_odbc_trino.Column.{ColumnValue}
use stackable_odbc_trino.Errors.{TrinoError}
use stackable_odbc_trino.Session.Shared.{Store}
use stackable_odbc_trino.Params.Literal.{Externals}
use stackable_odbc_trino.Params.Interpolate.{interpolate_params}
use stackable_odbc_trino.Statement.State.{Statement}
use stackable_odbc_trino.Statement.Fetch.{Driver, Machine}
use stackable_odbc_trino.Statement.Close.{drop_statement}
use stackable_odbc_trino.Statement.Invariant.{IsValid}
use stackable_odbc_trino.Statement.Submit.{Step, exec_direct}
use stackable_odbc_trino.Statement.Execute.{
  Executed, swap_in, installed, submit, execute_template, execute,
}
use stackable_odbc_trino.Statement.Execution.Fresh.{IsFresh, exec_direct-IsFresh}

module _ (x : Externals) (d : Driver) where
  -- What a run of the handle leaves of it.
  abbrev Handled : Option Text → Machine d → Result TrinoError (Unit {0}) → Machine d → Type 0
  Handled template m (ok u) m' =
      (m'.0.pending_sql ≡ template)
      × IsValid m'.0
      × (m'.0.online ≡ true)
      × (m'.0.fetch_failed ≡ false)
      × (m'.0.batch_cursor ≡ 0)
  Handled template m (err e) m' = m'.0 ≡ m.0

  handled :
      (template : Option Text) (m : Machine d) {r r' : Result TrinoError (Unit {0})}
      {n m' : Machine d}
      → ◌≡◌ {A = Executed x d} (some (r, n)) (some (r', m'))
      → Handled template m r n
      → Handled template m r' m'
  handled template m {r} {r'} {n} {m'} h k =
      let same_result : r ≡ r' = cc in
      let same_machine : n ≡ m' = cc in
      subst (λ v. Handled template m r' v) same_machine
        (subst (λ s. Handled template m s n) same_result k)

  swap_in-Handled :
      (token : ℕ) (template : Text) (result : Statement d.Descriptor d.TrinoTy)
      (dropped : Option (Machine d)) (m : Machine d) (w : Store d.client)
      {r : Result TrinoError (Unit {0})} {m' : Machine d}
      → IsFresh d token result w
      → swap_in x d template result dropped ≡ some (r, m')
      → Handled (some template) m r m'
  unfolding swap_in
  swap_in-Handled token template result none m w f h = cc
  swap_in-Handled token template result (some (old, v)) m w {r} {m'} f h =
      handled (some template) m h (
        refl,
        record { within = f.valid.within; abandoned = f.valid.abandoned },
        f.online,
        f.live,
        f.before_first,
      )

  installed-Handled :
      (fuel token : ℕ) (template : Text) (s : Statement d.Descriptor d.TrinoTy) (w : Store d.client)
      (run : Step d.client (Statement d.Descriptor d.TrinoTy)) {r : Result TrinoError (Unit {0})}
      {m' : Machine d}
      → ((result : Statement d.Descriptor d.TrinoTy) (v : Store d.client)
          → run ≡ some (ok result, v)
          → IsFresh d token result v)
      → installed x d fuel template s run ≡ some (r, m')
      → Handled (some template) (s, w) r m'
  unfolding installed
  installed-Handled fuel token template s w none fresh h = cc
  installed-Handled fuel token template s w (some (err e, v)) fresh h =
      handled (some template) (s, w) h refl
  installed-Handled fuel token template s w (some (ok result, v)) {r} {m'} fresh h =
      swap_in-Handled token template result (drop_statement d fuel (s, v)) (s, w) v {r = r}
        {m' = m'} (fresh result v refl) h

  submit-Handled :
      (fuel token : ℕ) (template : Text) (sql : Result TrinoError Text) (m : Machine d)
      {r : Result TrinoError (Unit {0})} {m' : Machine d}
      → submit x d fuel token template sql m ≡ some (r, m')
      → Handled (some template) m r m'
  unfolding submit
  submit-Handled fuel token template (err e) (s, w) h = handled (some template) (s, w) h refl
  submit-Handled fuel token template (ok sql) (s, w) {r} {m'} h =
      installed-Handled fuel token template s w (exec_direct d fuel token sql w) {r = r} {m' = m'}
        (λ result v e. exec_direct-IsFresh d fuel token sql w {s = result} {w' = v} e) h

  execute_template-Handled :
      (fuel token : ℕ) (params : List ColumnValue) (template : Option Text) (m : Machine d)
      {r : Result TrinoError (Unit {0})} {m' : Machine d}
      → execute_template x d fuel token params template m ≡ some (r, m')
      → Handled template m r m'
  unfolding execute_template
  execute_template-Handled fuel token params none (s, w) h = handled none (s, w) h refl
  execute_template-Handled fuel token params (some template) m {r} {m'} h =
      submit-Handled fuel token template (interpolate_params x params template) m {r = r} {m' = m'}
        h

  -- The template.
  template_kept :
      (m : Machine d) (r : Result TrinoError (Unit {0})) (m' : Machine d)
      → Handled m.0.pending_sql m r m'
      → m'.0.pending_sql ≡ m.0.pending_sql
  template_kept m (ok u) m' h = h.0
  template_kept m (err e) m' h = ap (λ s. s.pending_sql) h

  -- Whatever becomes of a run, the handle keeps its prepared text and can run again with other
  -- parameters. A run that fails leaves the statement as it was, with any earlier result set; one
  -- that succeeds leaves a valid statement that stands before its first row.
  pub execute_keeps_handle :
      (fuel token : ℕ) (params : List ColumnValue) (m : Machine d)
      {r : Result TrinoError (Unit {0})} {m' : Machine d}
      → execute x d fuel token params m ≡ some (r, m')
      → (m'.0.pending_sql ≡ m.0.pending_sql)
        × ((e : TrinoError) → r ≡ err e → m'.0 ≡ m.0)
        × (r ≡ ok tt
            → IsValid m'.0
              × (m'.0.online ≡ true)
              × (m'.0.fetch_failed ≡ false)
              × (m'.0.batch_cursor ≡ 0))
  unfolding execute
  execute_keeps_handle fuel token params m {r} {m'} h =
      let kept = execute_template-Handled fuel token params m.0.pending_sql m {r = r} {m' = m'} h in
      (
        template_kept m r m' kept,
        λ e q. subst (λ s. Handled m.0.pending_sql m s m') q kept,
        λ q.
            let (_, valid, online, live, first) =
              subst (λ s. Handled m.0.pending_sql m s m') q kept in
            (valid, online, live, first),
      )
