-- ===== src/Statement/Execution/Failures.antt =====
-- What a submission that fails leaves (`exec_direct` of backend/execute.rs).
use stackable_odbc_trino.Base.{
  ℕ, zero, suc, ◌+◌, ◌%◌, ◌^◌, ◌≡◌, sym, ap, ◌∙◌, ◌⊎◌, inl, inr, true, false, List, Option, none,
  some, arith,
}
use stackable_odbc_trino.Base.Outcome.{Result, ok, err}
use stackable_odbc_trino.Base.Text.{Text}
use stackable_odbc_trino.Errors.{TrinoError, general, no_columns}
use stackable_odbc_trino.Errors.Mapping.{ClientError}
use stackable_odbc_trino.Session.Client.{Column, Page}
use stackable_odbc_trino.Session.Shared.{
  Store, statement_error, map_trino_error_on, note_error, begin_query,
}
use stackable_odbc_trino.Session.Transaction.{ensure_transaction}
use stackable_odbc_trino.Statement.Fetch.{Driver, decode_page_rows}
use stackable_odbc_trino.Statement.Terminator.{strip_trailing_semicolons}
use stackable_odbc_trino.Statement.Submit.{
  Step, and_then, client_step, Polled, poll_at, poll, opened_statement, decoded, polled, submitted,
  exec_direct,
}
use stackable_odbc_trino.Statement.Execution.{
  and_then-err, client_step-ok, client_step_aborts, poll-ok,
}

module _ (d : Driver) where
  -- What a polling that fails leaves: an aborted transaction, unless the reply was short of columns.
  abbrev Reported : TrinoError → Store d.client → Type 0
  Reported e w = (w.txn.aborted ≡ true) ⊎ (e ≡ general no_columns)

  poll_at-Reported :
      (cols : Option (List Column)) (error : Option ClientError) (next : Option Text)
      (found : List Column → Polled d.client.Payload)
      (continue : Text → Step d.client (Polled d.client.Payload)) (w : Store d.client)
      {e : TrinoError} {w' : Store d.client}
      → w.txn.autocommit ≡ false
      → ((url : Text) → continue url ≡ some (err e, w') → Reported e w')
      → poll_at d cols error next found continue w ≡ some (err e, w')
      → Reported e w'
  unfolding poll_at statement_error map_trino_error_on note_error
  poll_at-Reported cols (some x) next found continue w m more h = inl (ground arith)
  poll_at-Reported (some cs) none next found continue w m more h = cc
  poll_at-Reported none none none found continue w m more h = inr cc
  poll_at-Reported none none (some url) found continue w m more h = more url h

  poll-Reported :
      (fuel : ℕ) (page : Page d.client.Payload) (n k : ℕ) (w : Store d.client) {e : TrinoError}
      {w' : Store d.client}
      → w.txn.autocommit ≡ false
      → poll d fuel page n k w ≡ some (err e, w')
      → Reported e w'
  unfolding poll
  poll-Reported zero page n k w {e} {w'} m h =
      poll_at-Reported page.columns page.error page.next_uri _ _ w {e = e} {w' = w'} m (λ url x. cc)
        h
  poll-Reported (suc fuel) page n k w {e} {w'} m h =
      poll_at-Reported page.columns page.error page.next_uri _ _ w {e = e} {w' = w'} m
        (λ url x.
          elim (and_then-err (client_step (d.client.get_next url w.client) w)
            (λ next v. poll d fuel next ((n + 1) % 2 ^ 32) ((k + 1) % 2 ^ 32) v) {e = e} {w' = w'}
            x) [
              | inl failed ↦
                  inl (
                    client_step_aborts (d.client.get_next url w.client) w {e = e} {w' = w'} m
                      failed)
              | inr (next, v, asked, rest) ↦
                  let (st, same) =
                    client_step-ok (d.client.get_next url w.client) w {a = next} {w' = v} asked in
                  poll-Reported fuel next _ _ v {e = e} {w' = w'}
                    (ap (λ u. u.txn.autocommit) same ∙ m) rest
            ])
        h

  ensure_transaction_manual :
      (w : Store d.client)
      → w.txn.autocommit ≡ false
      → (ensure_transaction w).1.txn.autocommit ≡ false
  unfolding ensure_transaction
  ensure_transaction_manual w m = ground arith

  ok_err : {A : Type 0} {a : A} {e : TrinoError} → ◌≡◌ {A = Result TrinoError A} (ok a) (err e) → ⊥
  ok_err h = cc

  begin_query_manual :
      (token : ℕ) (id : Text) (w : Store d.client)
      → w.txn.autocommit ≡ false
      → (begin_query token id w).txn.autocommit ≡ false
  unfolding begin_query
  begin_query_manual token id w m = m

  decoded-Reported :
      (token : ℕ) (before : d.client.State) (p : Polled d.client.Payload) (w : Store d.client)
      {e : TrinoError} {w' : Store d.client}
      → w.txn.autocommit ≡ false
      → decoded d token before p w ≡ some (err e, w')
      → Reported e w'
  unfolding decoded
  decoded-Reported token before p w {e} {w'} m h =
      let reply = decode_page_rows d.client p.page.payload w.client in
      elim (and_then-err (client_step reply w)
        (λ rows v. some (ok (opened_statement d token before p rows v), v)) {e = e} {w' = w'} h) [
          | inl failed ↦ inl (client_step_aborts reply w {e = e} {w' = w'} m failed)
          | inr (rows, v, _, rest) ↦ cc
        ]

  polled-Reported :
      (fuel token : ℕ) (before : d.client.State) (first : Page d.client.Payload)
      (w : Store d.client) {e : TrinoError} {w' : Store d.client}
      → w.txn.autocommit ≡ false
      → polled d fuel token before first w ≡ some (err e, w')
      → Reported e w'
  unfolding polled
  polled-Reported fuel token before first w {e} {w'} m h =
      let begun = begin_query token first.id w in
      let manual = begin_query_manual token first.id w m in
      elim (and_then-err (poll d fuel first 1 0 begun) (decoded d token before) {e = e} {w' = w'}
        h) [
          | inl failed ↦ poll-Reported fuel first 1 0 begun {e = e} {w' = w'} manual failed
          | inr (p, v, found, rest) ↦
              let (st, same) = poll-ok d fuel first 1 0 begun {p = p} {w' = v} found in
              decoded-Reported token before p v {e = e} {w' = w'}
                (ap (λ u. u.txn.autocommit) same ∙ manual) rest
        ]

  submitted-Reported :
      (fuel token : ℕ) (sql : Text) (w : Store d.client) {e : TrinoError} {w' : Store d.client}
      → w.txn.autocommit ≡ false
      → submitted d fuel token sql w ≡ some (err e, w')
      → Reported e w'
  unfolding submitted
  submitted-Reported fuel token sql w {e} {w'} m h =
      let reply = d.client.get (strip_trailing_semicolons sql) w.client in
      elim (and_then-err (client_step reply w) (polled d fuel token w.client) {e = e} {w' = w'} h) [
        | inl failed ↦ inl (client_step_aborts reply w {e = e} {w' = w'} m failed)
        | inr (first, v, asked, rest) ↦
            let (st, same) = client_step-ok reply w {a = first} {w' = v} asked in
            polled-Reported fuel token w.client first v {e = e} {w' = w'}
              (ap (λ u. u.txn.autocommit) same ∙ m) rest
      ]

  -- When a statement of a manual-commit connection fails to be submitted, with the transaction open,
  -- the transaction is aborted, whichever request failed; the one error that leaves it alone is the
  -- driver's own report of a result with neither columns nor a further page.
  pub exec_direct_aborts :
      (fuel token : ℕ) (sql : Text) (w : Store d.client) {e : TrinoError} {w' : Store d.client}
      → w.txn.autocommit ≡ false
      → (ensure_transaction w).0 ≡ ok tt
      → exec_direct d fuel token sql w ≡ some (err e, w')
      → (w'.txn.aborted ≡ true) ⊎ (e ≡ general no_columns)
  unfolding exec_direct and_then
  exec_direct_aborts fuel token sql w {e} {w'} m started h =
      elim (and_then-err (some (ensure_transaction w)) (λ _. submitted d fuel token sql) {e = e}
        {w' = w'} h) [
          | inl failed ↦
              let other : (ensure_transaction w).0 ≡ err e = cc in
              absurd (ok_err (sym started ∙ other))
          | inr (u, v, opened, rest) ↦
              let same : (ensure_transaction w).1 ≡ v = cc in
              submitted-Reported fuel token sql v {e = e} {w' = w'}
                (ap (λ s. s.txn.autocommit) (sym same) ∙ ensure_transaction_manual w m) rest
        ]
