-- ===== src/Session/Commit.antt =====
-- What `end_tran` and `set_autocommit` promise about commits and rollbacks.
use stackable_odbc_trino.Base.{
  inl, inr, List, [], ◌∷◌, ◌^◌, ◌<◌, ◌≡◌, ◌≢◌, Bool, true, false, arith,
}
use stackable_odbc_trino.Base.Outcome.{ok, err, Result-cases}
use stackable_odbc_trino.Errors.{odbc, SqlState, rolled_back_transaction}
use stackable_odbc_trino.Errors.Mapping.{ClientError}
use stackable_odbc_trino.Session.Client.{Client, TracksTransactions}
use stackable_odbc_trino.Session.Shared.{
  Store, note_error, outlived, statement_error, map_trino_error_on,
}
use stackable_odbc_trino.Session.Transaction.{ensure_transaction, end_tran, set_autocommit}

module _ (c : Client) where
  -- With no transaction open, ending one succeeds, sends nothing and leaves the mode, the epoch and
  -- the liveness flag alone.
  pub end_tran_idle :
      (commit : Bool) (w : Store c)
      → c.is_active w.client ≡ false
      → (end_tran commit w).0 ≡ ok tt
        × ((end_tran commit w).1 ≡ record w { txn = record w.txn { aborted = false } })
  unfolding end_tran
  end_tran_idle commit w h = ground arith

  -- A commit of a transaction that a failed statement has aborted is never reported as a success:
  -- a rollback goes out in its place, and if that succeeds the answer is 25S03.
  pub end_tran_aborted :
      (w : Store c)
      → c.is_active w.client ≡ true
      → w.txn.aborted ≡ true
      → ((end_tran true w).0 ≢ ok tt)
        × ((end_tran true w).1.client ≡ (c.rollback w.client).1)
        × ((c.rollback w.client).0 ≡ ok tt
            → (end_tran true w).0
              ≡ err (odbc rolled_back_transaction SqlState.transaction_rolled_back))
  unfolding end_tran
  end_tran_aborted w h a = elim (Result-cases (c.rollback w.client).0) [
    | inl (u, e) ↦ ground arith
    | inr (x, e) ↦ ground arith
  ]

  -- Ending an open transaction, whatever the reply, makes every result set executed before it
  -- outlive its transaction.
  pub end_tran-outlived :
      (commit : Bool) (w : Store c)
      → c.is_active w.client ≡ true
      → w.txn.epoch < 2 ^ 64
      → outlived w.txn.epoch (end_tran commit w).1.txn ≡ true
  unfolding end_tran outlived
  end_tran-outlived commit w h b = ground arith

  -- The mode asked for is recorded whatever became of the commit, and a failing commit is reported.
  pub set_autocommit_records :
      (enabled : Bool) (w : Store c)
      → ((set_autocommit enabled w).1.txn.autocommit ≡ enabled)
        × (enabled ≡ true
            → c.is_active w.client ≡ true
            → (set_autocommit enabled w).0 ≡ (end_tran true w).0)
        × (enabled ≡ false → (set_autocommit enabled w).0 ≡ ok tt)
  unfolding set_autocommit
  set_autocommit_records enabled w = ground arith

-- What a statement path does to the store, as far as the transaction is concerned: it makes sure
-- that a transaction is open, or it reports a failure of its own.
pub data Event : Type 0 where
  statement_starts : Event
  statement_fails : ClientError → Event

module _ {c : Client} where
  pub apply : Event → Store c → Store c
  apply statement_starts w = (ensure_transaction w).1
  apply (statement_fails e) w = (statement_error e w).1

  pub run : List Event → Store c → Store c
  run [] w = w
  run (e ∷ es) w = run es (apply e w)

-- A manual-commit transaction is open and has been aborted.
pub record IsDoomed (c : Client) (w : Store c) : Type 0 where
  pub manual : w.txn.autocommit ≡ false
  pub active : c.is_active w.client ≡ true
  pub aborted : w.txn.aborted ≡ true

module _ (c : Client) where
  apply-IsDoomed : (e : Event) (w : Store c) → IsDoomed c w → IsDoomed c (apply e w)
  unfolding apply ensure_transaction statement_error map_trino_error_on note_error
  apply-IsDoomed statement_starts w d = ground arith
  apply-IsDoomed (statement_fails e) w d = ground arith

  run-IsDoomed : (es : List Event) (w : Store c) → IsDoomed c w → IsDoomed c (run es w)
  unfolding run
  run-IsDoomed [] w d = d
  run-IsDoomed (e ∷ es) w d = run-IsDoomed es (apply e w) (apply-IsDoomed e w d)

  fails-IsDoomed :
      (e : ClientError) (w : Store c)
      → w.txn.autocommit ≡ false
      → c.is_active w.client ≡ true
      → IsDoomed c (apply (statement_fails e) w)
  unfolding apply statement_error map_trino_error_on note_error
  fails-IsDoomed e w m a = ground arith

  -- Once a statement has failed inside an open manual-commit transaction, no commit reports
  -- success, whatever statements start or fail in between; what goes out is a rollback.
  pub end_tran_after_failure :
      (e : ClientError) (es : List Event) (w : Store c)
      → w.txn.autocommit ≡ false
      → c.is_active w.client ≡ true
      → let v = run (statement_fails e ∷ es) w in
        ((end_tran true v).0 ≢ ok tt) × ((end_tran true v).1.client ≡ (c.rollback v.client).1)
  unfolding run
  end_tran_after_failure e es w m a =
      let d = run-IsDoomed es (apply (statement_fails e) w) (fails-IsDoomed e w m a) in
      let (refused, sent, _) =
        end_tran_aborted c (run es (apply (statement_fails e) w)) d.active d.aborted in
      (refused, sent)

  -- In manual-commit mode a start that succeeds leaves a transaction open, and one that it had to
  -- open is not aborted, whatever failed before.
  pub ensure_transaction_opens :
      (w : Store c)
      → TracksTransactions c
      → w.txn.autocommit ≡ false
      → (ensure_transaction w).0 ≡ ok tt
      → (c.is_active (ensure_transaction w).1.client ≡ true)
        × (c.is_active w.client ≡ false → (ensure_transaction w).1.txn.aborted ≡ false)
  unfolding ensure_transaction
  ensure_transaction_opens w laws m h = ground (arith, laws.begin_opens w.client)
