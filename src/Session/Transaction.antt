-- ===== src/Session/Transaction.antt =====
-- `ensure_transaction`, `end_tran`, `set_autocommit` and `disconnect`.
use stackable_odbc_trino.Base.{Bool, true, false, not, ◌&&◌, ◌||◌, if◌then◌else◌}
use stackable_odbc_trino.Base.Outcome.{Result, ok, err}
use stackable_odbc_trino.Errors.{TrinoError, odbc, SqlState, rolled_back_transaction}
use stackable_odbc_trino.Errors.Mapping.{ClientError}
use stackable_odbc_trino.Session.Client.{Client}
use stackable_odbc_trino.Session.Shared.{Store, set_mode, begun, ended, map_trino_error_on}

abbrev pub Reply : Client → Type 0
Reply c = Result TrinoError (Unit {0}) × Store c

module _ {c : Client} where
  -- What follows a request: a failure is mapped, a success goes on.
  unfoldable pub after_request :
      Result ClientError (Unit {0}) → Store c → (Store c → Reply c) → Reply c
  unfolding map_trino_error_on
  after_request (ok _) w k = k w
  after_request (err e) w k = let (mapped, w') = map_trino_error_on e w in (err mapped, w')

  unfoldable pub ensure_transaction : Store c → Reply c
  unfolding after_request begun
  ensure_transaction w =
      let (r, s) = c.begin_transaction w.client in
      let opened : Reply c =
        after_request r (record w { client = s }) (λ v. (ok tt, record v { txn = begun v.txn })) in
      if w.txn.autocommit || c.is_active w.client then (ok tt, w) else opened

  unfoldable pub end_tran : Bool → Store c → Reply c
  unfolding after_request begun ended
  end_tran commit w =
      let aborted = w.txn.aborted in
      let w₁ : Store c = record w { txn = ended w.txn } in
      let (r, s) = if commit && not aborted then c.commit w₁.client else c.rollback w₁.client in
      let sent : Reply c =
        after_request r (record w₁ { client = s })
          (λ v.
            if aborted && commit
            then (err (odbc rolled_back_transaction SqlState.transaction_rolled_back), v)
            else (ok tt, v)) in
      if not (c.is_active w.client) then (ok tt, record w { txn = begun w.txn }) else sent

  unfoldable pub set_autocommit : Bool → Store c → Reply c
  unfolding end_tran set_mode
  set_autocommit enabled w =
      let (result, v) = if enabled && c.is_active w.client then end_tran true w else (ok tt, w) in
      (result, record v { txn = set_mode enabled v.txn })

  -- A rollback that fails on disconnect is logged and not reported.
  unfoldable pub disconnect : Store c → Reply c
  unfolding end_tran
  disconnect w = (ok tt, if c.is_active w.client then (end_tran false w).1 else w)
