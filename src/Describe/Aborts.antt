-- ===== src/Describe/Aborts.antt =====
-- What a failed round trip of `describe_param` (backend/describe_param.rs) does to a transaction.
use stackable_odbc_trino.Base.{ℕ, suc, ℤ, ◌≡◌, refl, ap, ◌∙◌, true, false, List, arith}
use stackable_odbc_trino.Base.Outcome.{Result, ok, err}
use stackable_odbc_trino.Base.Text.{Text}
use stackable_odbc_trino.Errors.{TrinoError}
use stackable_odbc_trino.Errors.Mapping.{ClientError, map_trino_error}
use stackable_odbc_trino.Session.Client.{Client}
use stackable_odbc_trino.Session.Shared.{
  Store, TransactionState, note_error, statement_error, map_trino_error_on,
}
use stackable_odbc_trino.Session.Transaction.{end_tran}
use stackable_odbc_trino.Conversion.TypeName.{SqlDataType}
use stackable_odbc_trino.Catalog.Queries.{Row, Queries, query_all_rows, collected}
use stackable_odbc_trino.Describe.Params.{ParamDescriptor}
use stackable_odbc_trino.Describe.Requests.{
  Described, executed, execute_statement, dropped, prepared, prepare_sql, deallocate_sql,
  describe_input_sql, fetch_input_params, is_cached, refreshed, describe_param,
}

module _ {c : Client} where
  -- A transaction that is not known to be aborted is committed.
  commit_refused :
      (w : Store c) (e : ClientError)
      → c.is_active w.client ≡ true
      → w.txn.aborted ≡ false
      → (c.commit w.client).0 ≡ err e
      → ((end_tran true w).0 ≡ err (map_trino_error e))
        × ((end_tran true w).1.client ≡ (c.commit w.client).1)
  unfolding end_tran map_trino_error_on
  commit_refused w e active fine refused = ground arith

  executed-err :
      (r : Result ClientError (Unit {0}) × c.State) (w : Store c) (e : ClientError)
      → r.0 ≡ err e
      → ((executed r w).0 ≡ err (map_trino_error e)) × ((executed r w).1.txn ≡ w.txn)
  unfolding executed map_trino_error_on
  executed-err (ok _, s) w e h = cc
  executed-err (err e', s) w e h = ground arith

  executed_txn :
      (r : Result ClientError (Unit {0}) × c.State) (w : Store c) → (executed r w).1.txn ≡ w.txn
  unfolding executed map_trino_error_on
  executed_txn (ok _, s) w = refl
  executed_txn (err e', s) w = refl

  executed_client :
      (r : Result ClientError (Unit {0}) × c.State) (w : Store c) → (executed r w).1.client ≡ r.1
  unfolding executed map_trino_error_on
  executed_client (ok _, s) w = refl
  executed_client (err e', s) w = refl

  executed-ok :
      (r : Result ClientError (Unit {0}) × c.State) (w : Store c)
      → r.0 ≡ ok tt
      → executed r w ≡ (ok tt, record w { client = r.1 })
  unfolding executed
  executed-ok (ok _, s) w h = refl
  executed-ok (err e, s) w h = cc

  collected-err :
      {A : Type 0} (r : Result ClientError A × c.State) (w : Store c) (e : ClientError)
      → r.0 ≡ err e
      → ((collected r w).0 ≡ err (map_trino_error e))
        × ((collected r w).1.txn ≡ note_error w.txn)
        × ((collected r w).1.client ≡ r.1)
  unfolding collected statement_error map_trino_error_on
  collected-err (ok _, s) w e h = cc
  collected-err (err e', s) w e h = ground arith

module _ {c : Client} (q : Queries c) (column_size : SqlDataType → ℤ → ℤ → ℤ) (sql : Text)
    (w : Store c) where
  prepared_err :
      (r : Result TrinoError (Unit {0}) × Store c) (e : TrinoError)
      → r.0 ≡ err e
      → prepared q column_size r ≡ (err e, r.1)
  unfolding prepared
  prepared_err (ok _, v) e h = cc
  prepared_err (err e', v) e h = ground arith

  -- A `PREPARE` that fails: the round trip ends there.
  fetch_unprepared :
      (e : ClientError)
      → (q.execute (prepare_sql sql) w.client).0 ≡ err e
      → ((fetch_input_params q column_size sql w).0 ≡ err (map_trino_error e))
        × ((fetch_input_params q column_size sql w).1.txn ≡ w.txn)
  unfolding fetch_input_params execute_statement
  fetch_unprepared e h =
      let failed = executed-err (q.execute (prepare_sql sql) w.client) w e h in
      rw
        (prepared_err (executed (q.execute (prepare_sql sql) w.client) w) (map_trino_error e)
          failed.0)
        (refl, failed.1)

  dropped_err :
      (r : Result TrinoError (List Row) × Store c) (e : TrinoError)
      → r.0 ≡ err e
      → ((dropped q column_size r).0 ≡ err e)
        × ((dropped q column_size r).1.txn ≡ r.1.txn)
        × ((dropped q column_size r).1.client ≡ (q.execute deallocate_sql r.1.client).1)
  unfolding dropped execute_statement
  dropped_err (ok rows, v) e h = cc
  dropped_err (err e', v) e h =
      let r = q.execute deallocate_sql v.client in (cc, executed_txn r v, executed_client r v)

  -- A description that fails: the statement that was prepared for it is dropped all the same.
  fetch_undescribed :
      (e : ClientError)
      → (q.execute (prepare_sql sql) w.client).0 ≡ ok tt
      → (q.get_all describe_input_sql (q.execute (prepare_sql sql) w.client).1).0 ≡ err e
      → ((fetch_input_params q column_size sql w).0 ≡ err (map_trino_error e))
        × ((fetch_input_params q column_size sql w).1.txn ≡ note_error w.txn)
        × ((fetch_input_params q column_size sql w).1.client
            ≡ (q.execute deallocate_sql
                (q.get_all describe_input_sql (q.execute (prepare_sql sql) w.client).1).1).1)
  unfolding fetch_input_params execute_statement prepared query_all_rows
  fetch_undescribed e prepares h =
      let s = (q.execute (prepare_sql sql) w.client).1 in
      let v : Store c = record w { client = s } in
      let failed = collected-err (q.get_all describe_input_sql s) v e h in
      let gone = dropped_err (collected (q.get_all describe_input_sql s) v) _ failed.0 in
      rw (executed-ok (q.execute (prepare_sql sql) w.client) w prepares)
        (gone.0, gone.1 ∙ failed.1, gone.2 ∙ ap (λ t. (q.execute deallocate_sql t).1) failed.2)

module _ {c : Client} (q : Queries c) (column_size : SqlDataType → ℤ → ℤ → ℤ) (sql : Text)
    (index : ℕ) (d : Described c) (e : ClientError) (active : c.is_active d.store.client ≡ true)
    (missed : is_cached sql d.cache ≡ false) where
  refreshed_active :
      (r : Result TrinoError (List ParamDescriptor) × Store c) (m : TrinoError)
      → r.0 ≡ err m
      → refreshed index sql true d.cache r ≡ (err m, record { store = r.1; cache = d.cache })
  unfolding refreshed
  refreshed_active (ok params, v) m h = cc
  refreshed_active (err m', v) m h = ground arith

  described-err :
      (m : TrinoError)
      → (fetch_input_params q column_size sql d.store).0 ≡ err m
      → describe_param q column_size sql (suc index) d ≡ (
        err m,
        record { store = (fetch_input_params q column_size sql d.store).1; cache = d.cache },
      )
  unfolding describe_param
  described-err m h = rw (missed, active) (refreshed_active _ m h)

  -- When Trino declines to prepare a statement inside an open transaction, the error is reported, but
  -- not recorded as the abort of the transaction that it is: the next commit goes out as a commit,
  -- and when Trino refuses it, its error is reported as it is, in place of the rollback and the
  -- state 25S03 that every other failed statement leads to.
  pub describe_param_unprepared :
      (refusal : ClientError)
      → d.store.txn.aborted ≡ false
      → (q.execute (prepare_sql sql) d.store.client).0 ≡ err e
      → c.is_active (describe_param q column_size sql (suc index) d).1.store.client ≡ true
      → (c.commit (describe_param q column_size sql (suc index) d).1.store.client).0 ≡ err refusal
      → ((describe_param q column_size sql (suc index) d).0 ≡ err (map_trino_error e))
        × ((end_tran true (describe_param q column_size sql (suc index) d).1.store).0
            ≡ err (map_trino_error refusal))
        × ((end_tran true (describe_param q column_size sql (suc index) d).1.store).1.client
            ≡ (c.commit (describe_param q column_size sql (suc index) d).1.store.client).1)
  describe_param_unprepared refusal fine h still refused =
      let failed = fetch_unprepared q column_size sql d.store e h in
      let v = (fetch_input_params q column_size sql d.store).1 in
      let answer = described-err (map_trino_error e) failed.0 in
      let unnoted : v.txn.aborted ≡ false =
        ap (λ (t : TransactionState). t.aborted) failed.1 ∙ fine in
      let sent = commit_refused v refusal (rw answer at still) unnoted (rw answer at refused) in
      rw answer (refl, sent.0, sent.1)

  -- When the statement is prepared inside an open transaction and its description then fails, the
  -- error is reported, the transaction is recorded as aborted, and the prepared statement is dropped
  -- from the session.
  pub describe_param_undescribed :
      (q.execute (prepare_sql sql) d.store.client).0 ≡ ok tt
      → (q.get_all describe_input_sql (q.execute (prepare_sql sql) d.store.client).1).0 ≡ err e
      → ((describe_param q column_size sql (suc index) d).0 ≡ err (map_trino_error e))
        × ((describe_param q column_size sql (suc index) d).1.store.txn ≡ note_error d.store.txn)
        × ((describe_param q column_size sql (suc index) d).1.store.client
            ≡ (q.execute deallocate_sql
                (q.get_all describe_input_sql (q.execute (prepare_sql sql) d.store.client).1).1).1)
  describe_param_undescribed prepares h =
      let failed = fetch_undescribed q column_size sql d.store e prepares h in
      rw (described-err (map_trino_error e) failed.0) (refl, failed.1, failed.2)
