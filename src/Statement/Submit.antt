-- ===== src/Statement/Submit.antt =====
-- `exec_direct`: the submission of a query, and the polling for the columns of its result.
use stackable_odbc_trino.Base.{
  ℕ, zero, suc, ◌+◌, ◌%◌, ◌^◌, true, false, List, Option, none, some, length, map,
}
use stackable_odbc_trino.Base.Outcome.{Result, ok, err}
use stackable_odbc_trino.Base.Text.{Text}
use stackable_odbc_trino.Errors.{TrinoError, general, no_columns}
use stackable_odbc_trino.Errors.Mapping.{ClientError}
use stackable_odbc_trino.Session.Client.{Client, Column, Page}
use stackable_odbc_trino.Session.Shared.{Store, statement_error, begin_query}
use stackable_odbc_trino.Session.Transaction.{ensure_transaction}
use stackable_odbc_trino.Statement.State.{Statement, convert_rows, truncated_from}
use stackable_odbc_trino.Statement.Fetch.{Driver, decode_page_rows}
use stackable_odbc_trino.Statement.Terminator.{strip_trailing_semicolons}

-- A step of a submission: it runs out of fuel, or it gives a result and leaves a store.
abbrev pub Step : Client → Type 0 → Type 0
Step c A = Option (Result TrinoError A × Store c)

module _ {c : Client} {A B : Type 0} where
  -- `?`: the first error ends the submission.
  unfoldable pub and_then : Step c A → (A → Store c → Step c B) → Step c B
  and_then none k = none
  and_then (some (err e, w)) k = some (err e, w)
  and_then (some (ok a, w)) k = k a w

module _ {c : Client} {A : Type 0} where
  -- The reply to a request, a failure of which is reported by `conn.statement_error`.
  unfoldable pub client_step : Result ClientError A × c.State → Store c → Step c A
  client_step (ok a, st) w = some (ok a, record w { client = st })
  client_step (err e, st) w =
      let (mapped, w') = statement_error e (record w { client = st }) in some (err mapped, w')

-- The page with the columns, and the pages counted up to it.
pub record Polled (P : Type 0) : Type 0 where
  pub page : Page P
  pub found : List Column
  pub pages : ℕ
  pub empties : ℕ

module _ (d : Driver) where
  -- What the loop and the test behind it do with a page; `continue` asks for the next one.
  unfoldable pub poll_at :
      Option (List Column)
      → Option ClientError
      → Option Text
      → (List Column → Polled d.client.Payload)
      → (Text → Step d.client (Polled d.client.Payload))
      → Store d.client
      → Step d.client (Polled d.client.Payload)
  poll_at cols (some e) next found continue w =
      let (mapped, w') = statement_error e w in some (err mapped, w')
  poll_at (some cols) none next found continue w = some (ok (found cols), w)
  poll_at none none none found continue w = some (err (general no_columns), w)
  poll_at none none (some url) found continue w = continue url

  -- The loop, for at most `fuel` further pages; `none` when they do not suffice.
  unfoldable pub poll :
      ℕ → Page d.client.Payload → ℕ → ℕ → Store d.client → Step d.client (Polled d.client.Payload)
  poll zero page n k w =
      poll_at page.columns page.error page.next_uri
        (λ cols. record { page = page; found = cols; pages = n; empties = k }) (λ url. none) w
  poll (suc fuel) page n k w =
      poll_at page.columns page.error page.next_uri
        (λ cols. record { page = page; found = cols; pages = n; empties = k })
        (λ url.
          and_then (client_step (d.client.get_next url w.client) w)
            (λ next v. poll fuel next ((n + 1) % 2 ^ 32) ((k + 1) % 2 ^ 32) v))
        w

  -- The statement over the first page with columns. `before` is the client's state before the
  -- submission, in which the session zone was read.
  unfoldable pub opened_statement :
      ℕ
      → d.client.State
      → Polled d.client.Payload
      → List (List d.client.Json)
      → Store d.client
      → Statement d.Descriptor d.TrinoTy
  opened_statement token before p rows w =
      let types = map (d.parse_type before) p.found in
      let batch = convert_rows d.convert rows types in
      record {
        pending_sql = none;
        columns = map (λ col. d.describe col (d.parse_type before col)) p.found;
        trino_types = types;
        batch = batch;
        truncated_cells = truncated_from d.discards 0 rows types;
        pending_value_warning = false;
        batch_cursor = 0;
        fetch_failed = false;
        next_uri = p.page.next_uri;
        query_id = some p.page.id;
        online = true;
        token = token;
        txn_epoch = w.txn.epoch;
        page_count = p.pages;
        empty_page_count = p.empties;
        total_rows_fetched = length batch % 2 ^ 64;
      }

  -- Behind the columns: the rows of their page.
  unfoldable pub decoded :
      ℕ
      → d.client.State
      → Polled d.client.Payload
      → Store d.client
      → Step d.client (Statement d.Descriptor d.TrinoTy)
  decoded token before p w =
      and_then (client_step (decode_page_rows d.client p.page.payload w.client) w)
        (λ rows v. some (ok (opened_statement token before p rows v), v))

  -- Behind the first page: its id is published before the polling starts.
  unfoldable pub polled :
      ℕ
      → ℕ
      → d.client.State
      → Page d.client.Payload
      → Store d.client
      → Step d.client (Statement d.Descriptor d.TrinoTy)
  polled fuel token before first w =
      and_then (poll fuel first 1 0 (begin_query token first.id w)) (decoded token before)

  -- Behind the start of the transaction.
  unfoldable pub submitted :
      ℕ → ℕ → Text → Store d.client → Step d.client (Statement d.Descriptor d.TrinoTy)
  submitted fuel token sql w =
      and_then (client_step (d.client.get (strip_trailing_semicolons sql) w.client) w)
        (polled fuel token w.client)

  -- With the token that core has made for the call.
  unfoldable pub exec_direct :
      ℕ → ℕ → Text → Store d.client → Step d.client (Statement d.Descriptor d.TrinoTy)
  exec_direct fuel token sql w =
      and_then (some (ensure_transaction w)) (λ started. submitted fuel token sql)
