-- ===== src/Statement/Execution.antt =====
-- The steps of `exec_direct` (backend/execute.rs), taken apart.
pub mod Failures
pub mod Fresh
pub mod Delivery
pub mod Handle
use mathlib.Core.Path.{subst}
use stackable_odbc_trino.Base.{
  ℕ, zero, suc, ◌+◌, ◌%◌, ◌^◌, ◌≤◌, ◌<◌, ◌≡◌, refl, sym, ap, ◌∙◌, ◌⊎◌, inl, inr, Bool, true, false,
  ◌||◌, List, [], ◌∷◌, ◌++◌, Option, none, some, arith, length, map, if◌then◌else◌, drop,
  Option-cases, Bool-cases,
}
use stackable_odbc_trino.Base.Outcome.{Result, ok, err, Result-cases}
use stackable_odbc_trino.Base.Text.{Text}
use stackable_odbc_trino.Errors.{TrinoError, general, no_columns}
use stackable_odbc_trino.Errors.Mapping.{ClientError}
use stackable_odbc_trino.Session.Client.{Client, Column, Page}
use stackable_odbc_trino.Session.Shared.{
  Store, statement_error, map_trino_error_on, note_error, begin_query, begun, outlived,
}
use stackable_odbc_trino.Session.Transaction.{ensure_transaction, after_request}
use stackable_odbc_trino.Statement.State.{Statement, Row, convert_rows}
use stackable_odbc_trino.Statement.Fetch.{Driver, decode_page_rows}
use stackable_odbc_trino.Statement.Invariant.{IsValid}
use stackable_odbc_trino.Statement.Streaming.{remaining, IsStreaming, collect}
use stackable_odbc_trino.Statement.Streaming.Delivery.{collect-IsStreaming}
use stackable_odbc_trino.Statement.Terminator.{strip_trailing_semicolons}
use stackable_odbc_trino.Statement.Submit.{
  Step, and_then, client_step, Polled, poll_at, poll, opened_statement, decoded, polled, submitted,
  exec_direct,
}

module _ {c : Client} {A B : Type 0} where
  pub and_then-ok :
      (m : Step c A) (k : A → Store c → Step c B) {b : B} {w' : Store c}
      → and_then m k ≡ some (ok b, w')
      → (a : A) × (w : Store c) × (m ≡ some (ok a, w)) × (k a w ≡ some (ok b, w'))
  unfolding and_then
  and_then-ok none k h = cc
  and_then-ok (some (err e, w)) k h = cc
  and_then-ok (some (ok a, w)) k h = (a, w, refl, h)

  -- A chain that fails does so in its first step, or behind a first step that succeeds.
  pub and_then-err :
      (m : Step c A) (k : A → Store c → Step c B) {e : TrinoError} {w' : Store c}
      → and_then m k ≡ some (err e, w')
      → (m ≡ some (err e, w'))
        ⊎ ((a : A) × (w : Store c) × (m ≡ some (ok a, w)) × (k a w ≡ some (err e, w')))
  unfolding and_then
  and_then-err none k h = cc
  and_then-err (some (err e, w)) k h = inl cc
  and_then-err (some (ok a, w)) k h = inr (a, w, refl, h)

-- Only the client's state differs.
abbrev pub OnlyClient : {c : Client} → Store c → Store c → Type 0
OnlyClient {c} w v = (st : c.State) × (v ≡ record w { client = st })

module _ {c : Client} {A : Type 0} where
  pub client_step-ok :
      (r : Result ClientError A × c.State) (w : Store c) {a : A} {w' : Store c}
      → client_step r w ≡ some (ok a, w')
      → OnlyClient w w'
  unfolding client_step
  client_step-ok (ok a, st) w h = (st, cc)
  client_step-ok (err e, st) w h = cc

  -- In manual-commit mode a request that fails aborts the transaction.
  pub client_step_aborts :
      (r : Result ClientError A × c.State) (w : Store c) {e : TrinoError} {w' : Store c}
      → w.txn.autocommit ≡ false
      → client_step r w ≡ some (err e, w')
      → w'.txn.aborted ≡ true
  unfolding client_step statement_error map_trino_error_on note_error
  client_step_aborts (ok a, st) w m h = cc
  client_step_aborts (err e, st) w m h = ground arith

module _ (d : Driver) where
  poll_at-ok :
      (cols : Option (List Column)) (error : Option ClientError) (next : Option Text)
      (found : List Column → Polled d.client.Payload)
      (continue : Text → Step d.client (Polled d.client.Payload)) (w : Store d.client)
      {p : Polled d.client.Payload} {w' : Store d.client}
      → ((url : Text) → continue url ≡ some (ok p, w') → OnlyClient w w')
      → poll_at d cols error next found continue w ≡ some (ok p, w')
      → OnlyClient w w'
  unfolding poll_at
  poll_at-ok cols (some e) next found continue w more h = cc
  poll_at-ok (some cs) none next found continue w more h = (w.client, cc)
  poll_at-ok none none none found continue w more h = cc
  poll_at-ok none none (some url) found continue w more h = more url h

  pub poll-ok :
      (fuel : ℕ) (page : Page d.client.Payload) (n k : ℕ) (w : Store d.client)
      {p : Polled d.client.Payload} {w' : Store d.client}
      → poll d fuel page n k w ≡ some (ok p, w')
      → OnlyClient w w'
  unfolding poll
  poll-ok zero page n k w {p} {w'} h =
      poll_at-ok page.columns page.error page.next_uri _ _ w {p = p} {w' = w'} (λ url e. cc) h
  poll-ok (suc fuel) page n k w {p} {w'} h =
      poll_at-ok page.columns page.error page.next_uri _ _ w {p = p} {w' = w'}
        (λ url e.
          let (next, v, asked, rest) =
            and_then-ok (client_step (d.client.get_next url w.client) w) _ {b = p} {w' = w'} e in
          let (st, same) =
            client_step-ok (d.client.get_next url w.client) w {a = next} {w' = v} asked in
          let (st', then_same) = poll-ok fuel next _ _ v {p = p} {w' = w'} rest in
          (st', rw same at then_same))
        h
