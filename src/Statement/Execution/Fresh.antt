-- ===== src/Statement/Execution/Fresh.antt =====
-- The statement that `exec_direct` of backend/execute.rs returns, and the store behind it.
use mathlib.Core.Path.{subst}
use stackable_odbc_trino.Base.{
  ℕ, suc, ◌≤◌, ◌<◌, ◌≡◌, refl, ap, ◌∙◌, true, false, List, ◌++◌, some, arith, length, drop,
}
use stackable_odbc_trino.Base.Outcome.{ok}
use stackable_odbc_trino.Base.Text.{Text}
use stackable_odbc_trino.Session.Client.{Page}
use stackable_odbc_trino.Session.Shared.{Store, set_at_same, begin_query}
use stackable_odbc_trino.Session.Transaction.{ensure_transaction}
use stackable_odbc_trino.Statement.State.{Statement, Row}
use stackable_odbc_trino.Statement.Fetch.{Driver, decode_page_rows}
use stackable_odbc_trino.Statement.Invariant.{IsValid}
use stackable_odbc_trino.Statement.Streaming.{remaining, collect}
use stackable_odbc_trino.Statement.Streaming.Delivery.{collect-IsStreaming}
use stackable_odbc_trino.Statement.Terminator.{strip_trailing_semicolons}
use stackable_odbc_trino.Statement.Submit.{
  Step, client_step, Polled, poll, opened_statement, decoded, polled, submitted, exec_direct,
}
use stackable_odbc_trino.Statement.Execution.{and_then-ok, OnlyClient, client_step-ok, poll-ok}

module _ (d : Driver) where
  -- What a submission that succeeds leaves.
  pub record IsFresh (token : ℕ) (s : Statement d.Descriptor d.TrinoTy) (w : Store d.client)
      : Type 0 where
    pub valid : IsValid s
    pub online : s.online ≡ true
    pub live : s.fetch_failed ≡ false
    pub before_first : s.batch_cursor ≡ 0
    pub owned : s.token ≡ token
    pub uncancelled : (w.cancels s.token).cancelled ≡ false
    pub published : (id : Text) × ((w.cancels s.token).query_id ≡ some id)
    pub current : s.txn_epoch ≡ w.txn.epoch

  -- The cancel state of a store in which a query has just begun.
  abbrev HasBegun : ℕ → Store d.client → Type 0
  HasBegun token w =
      (id : Text) × ((w.cancels token).cancelled ≡ false) × ((w.cancels token).query_id ≡ some id)

  OnlyClient-HasBegun :
      (token : ℕ) (w v : Store d.client) → OnlyClient w v → HasBegun token w → HasBegun token v
  OnlyClient-HasBegun token w v (st, same) (id, flag, slot) = (
    id,
    ap (λ u. (u.cancels token).cancelled) same ∙ flag,
    ap (λ u. (u.cancels token).query_id) same ∙ slot,
  )

  begin_query-HasBegun :
      (token : ℕ) (id : Text) (w : Store d.client) → HasBegun token (begin_query token id w)
  unfolding begin_query
  begin_query-HasBegun token id w =
      let e = set_at_same token (record { query_id = some id; cancelled = false }) w.cancels in
      (id, ap (λ c. c.cancelled) e, ap (λ c. c.query_id) e)

  opened_statement-IsFresh :
      (token : ℕ) (before : d.client.State) (p : Polled d.client.Payload)
      (rows : List (List d.client.Json)) (w : Store d.client)
      → HasBegun token w
      → IsFresh token (opened_statement d token before p rows w) w
  unfolding opened_statement
  opened_statement-IsFresh token before p rows w (id, flag, slot) = record {
    valid = record { within = omega arith; abandoned = λ h. cc };
    online = refl;
    live = refl;
    before_first = refl;
    owned = refl;
    uncancelled = flag;
    published = (id, slot);
    current = refl;
  }

  returned-IsFresh :
      {token : ℕ} {s s' : Statement d.Descriptor d.TrinoTy} {w w' : Store d.client}
      → ◌≡◌ {A = Step d.client (Statement d.Descriptor d.TrinoTy)}
          (some (ok s, w))
          (some (ok s', w'))
      → IsFresh token s w
      → IsFresh token s' w'
  returned-IsFresh {token} {s} {s'} {w} {w'} h f =
      let same_statement : s ≡ s' = cc in
      let same_store : w ≡ w' = cc in
      subst (λ v. IsFresh token s' v) same_store (subst (λ t. IsFresh token t w) same_statement f)

  decoded-IsFresh :
      (token : ℕ) (before : d.client.State) (p : Polled d.client.Payload) (w : Store d.client)
      {s : Statement d.Descriptor d.TrinoTy} {w' : Store d.client}
      → HasBegun token w
      → decoded d token before p w ≡ some (ok s, w')
      → IsFresh token s w'
  unfolding decoded
  decoded-IsFresh token before p w {s} {w'} b h =
      let reply = decode_page_rows d.client p.page.payload w.client in
      let (rows, v, done, opened) =
        and_then-ok (client_step reply w)
          (λ rows v. some (ok (opened_statement d token before p rows v), v)) {b = s} {w' = w'} h in
      let begun =
        OnlyClient-HasBegun token w v (client_step-ok reply w {a = rows} {w' = v} done) b in
      returned-IsFresh opened (opened_statement-IsFresh token before p rows v begun)

  polled-IsFresh :
      (fuel token : ℕ) (before : d.client.State) (first : Page d.client.Payload)
      (w : Store d.client) {s : Statement d.Descriptor d.TrinoTy} {w' : Store d.client}
      → polled d fuel token before first w ≡ some (ok s, w')
      → IsFresh token s w'
  unfolding polled
  polled-IsFresh fuel token before first w {s} {w'} h =
      let begun = begin_query token first.id w in
      let (p, v, found, rest) =
        and_then-ok (poll d fuel first 1 0 begun) (decoded d token before) {b = s} {w' = w'} h in
      decoded-IsFresh token before p v {s = s} {w' = w'}
        (OnlyClient-HasBegun token begun v (poll-ok d fuel first 1 0 begun {p = p} {w' = v} found)
          (begin_query-HasBegun token first.id w))
        rest

  -- A statement that `exec_direct` returns is fresh: it runs, its cursor stands before the first row,
  -- the query can be cancelled and has not been, and it belongs to the present transaction.
  pub exec_direct-IsFresh :
      (fuel token : ℕ) (sql : Text) (w : Store d.client) {s : Statement d.Descriptor d.TrinoTy}
      {w' : Store d.client}
      → exec_direct d fuel token sql w ≡ some (ok s, w')
      → IsFresh token s w'
  unfolding exec_direct submitted
  exec_direct-IsFresh fuel token sql w {s} {w'} h =
      let (u, w₁, started, h₁) =
        and_then-ok (some (ensure_transaction w)) (λ _. submitted d fuel token sql) {b = s}
          {w' = w'} h in
      let (first, w₂, asked, h₂) =
        and_then-ok (client_step (d.client.get (strip_trailing_semicolons sql) w₁.client) w₁)
          (polled d fuel token w₁.client) {b = s} {w' = w'} h₁ in
      polled-IsFresh fuel token w₁.client first w₂ {s = s} {w' = w'} h₂

  -- Fetching all rows of a fresh statement gives the rows of the page with the columns and then those
  -- of the later pages.
  pub IsFresh-collect :
      {token : ℕ} {s : Statement d.Descriptor d.TrinoTy} {w : Store d.client} (pages more count : ℕ)
      {later : List Row}
      → IsFresh token s w
      → remaining d s.trino_types pages s.next_uri w.client ≡ some later
      → pages ≤ more
      → length (s.batch ++ later) < count
      → collect d count (suc more) (s, w) ≡ some (s.batch ++ later)
  IsFresh-collect {token} {s} {w} pages more count {later} f serves b l =
      collect-IsStreaming d (s.batch ++ later) count more pages (s, w) b l
        (record {
          online = f.online;
          live = f.live;
          uncancelled = f.uncancelled;
          later = later;
          serves = serves;
          unread = ap (λ n. drop n s.batch ++ later) f.before_first;
        })
