-- ===== src/Statement/Execution/Delivery.antt =====
-- A whole run of a statement against what the coordinator holds (`exec_direct` and `fetch` of
-- backend/execute.rs).
use mathlib.Core.Path.{subst}
use stackable_odbc_trino.Base.{
  ℕ, zero, suc, ◌+◌, ◌%◌, ◌^◌, ◌≤◌, ◌<◌, ◌≡◌, refl, sym, ap, ◌∙◌, List, ◌++◌, Option, none, some,
  length, map,
}
use stackable_odbc_trino.Base.Outcome.{Result, ok, err}
use stackable_odbc_trino.Base.Text.{Text}
use stackable_odbc_trino.Errors.Mapping.{ClientError}
use stackable_odbc_trino.Session.Client.{Column, Page}
use stackable_odbc_trino.Session.Shared.{Store, begin_query}
use stackable_odbc_trino.Session.Transaction.{ensure_transaction}
use stackable_odbc_trino.Statement.State.{Statement, Row, convert_rows}
use stackable_odbc_trino.Statement.Fetch.{Driver, decode_page_rows}
use stackable_odbc_trino.Statement.Streaming.{remaining, page_rows, prepend, collect}
use stackable_odbc_trino.Statement.Terminator.{strip_trailing_semicolons}
use stackable_odbc_trino.Statement.Submit.{
  Step, and_then, client_step, Polled, poll_at, poll, opened_statement, decoded, polled, submitted,
  exec_direct,
}
use stackable_odbc_trino.Statement.Execution.Fresh.{exec_direct-IsFresh, IsFresh-collect}

module _ (d : Driver) where
  -- The rows of a page with columns and of the pages behind it.
  unfoldable pub rows_from :
      d.client.State → ℕ → Page d.client.Payload → d.client.State → List Column → Option (List Row)
  rows_from before pages page st cols =
      let types = map (d.parse_type before) cols in
      page_rows d types page.next_uri (decode_page_rows d.client page.payload st)
        (remaining d types pages)

  unfoldable pub answer_at :
      Option (List Column)
      → Option ClientError
      → Option Text
      → (List Column → Option (List Row))
      → (Text → Option (List Row))
      → Option (List Row)
  answer_at cols (some e) next found more = none
  answer_at (some cols) none next found more = found cols
  answer_at none none none found more = none
  answer_at none none (some url) found more = more url

  unfoldable pub answer_reply :
      Result ClientError (Page d.client.Payload) × d.client.State
      → (Page d.client.Payload → d.client.State → Option (List Row))
      → Option (List Row)
  answer_reply (err e, st) k = none
  answer_reply (ok page, st) k = k page st

  -- The rows behind a page, when at most `fuel` pages without columns precede the columns and at
  -- most `pages` pages follow them.
  unfoldable pub answer :
      d.client.State → ℕ → ℕ → Page d.client.Payload → d.client.State → Option (List Row)
  answer before pages zero page st =
      answer_at page.columns page.error page.next_uri (rows_from before pages page st) (λ url. none)
  answer before pages (suc fuel) page st =
      answer_at page.columns page.error page.next_uri (rows_from before pages page st)
        (λ url. answer_reply (d.client.get_next url st) (answer before pages fuel))

  -- The coordinator's whole answer to a text.
  unfoldable pub answered : ℕ → ℕ → Text → d.client.State → Option (List Row)
  answered pages fuel sql st =
      answer_reply (d.client.get (strip_trailing_semicolons sql) st) (answer st pages fuel)

  -- A polling that finds the columns on a page behind which these rows stand.
  abbrev Found : d.client.State → ℕ → List Row → Step d.client (Polled d.client.Payload) → Type 0
  Found before pages rows m =
      (p : Polled d.client.Payload) × (v : Store d.client) × (m ≡ some (ok p, v))
      × (rows_from before pages p.page v.client p.found ≡ some rows)

  poll_at-Found :
      (before : d.client.State) (pages : ℕ) (page : Page d.client.Payload)
      (cols : Option (List Column)) (error : Option ClientError) (next : Option Text) (n k : ℕ)
      (continue : Text → Step d.client (Polled d.client.Payload)) (more : Text → Option (List Row))
      (w : Store d.client) {rows : List Row}
      → ((url : Text) → more url ≡ some rows → Found before pages rows (continue url))
      → answer_at cols error next (rows_from before pages page w.client) more ≡ some rows
      → Found before pages rows (
          poll_at d cols error next
            (λ cs. record { page = page; found = cs; pages = n; empties = k })
            continue
            w)
  unfolding poll_at answer_at
  poll_at-Found before pages page cols (some e) next n k continue more w later h = cc
  poll_at-Found before pages page (some cs) none next n k continue more w later h = (_, w, refl, h)
  poll_at-Found before pages page none none none n k continue more w later h = cc
  poll_at-Found before pages page none none (some url) n k continue more w later h = later url h

  reply-Found :
      (before : d.client.State) (pages fuel n k : ℕ)
      (r : Result ClientError (Page d.client.Payload) × d.client.State) (w : Store d.client)
      {rows : List Row}
      → ((page : Page d.client.Payload) (v : Store d.client)
          → answer before pages fuel page v.client ≡ some rows
          → Found before pages rows (poll d fuel page n k v))
      → answer_reply r (answer before pages fuel) ≡ some rows
      → Found before pages rows (and_then (client_step r w) (λ page v. poll d fuel page n k v))
  unfolding answer_reply client_step and_then
  reply-Found before pages fuel n k (err e, st) w rest h = cc
  reply-Found before pages fuel n k (ok page, st) w rest h = rest page (record w { client = st }) h

  poll-Found :
      (before : d.client.State) (pages fuel : ℕ) (page : Page d.client.Payload) (n k : ℕ)
      (w : Store d.client) {rows : List Row}
      → answer before pages fuel page w.client ≡ some rows
      → Found before pages rows (poll d fuel page n k w)
  unfolding poll answer
  poll-Found before pages zero page n k w {rows} h =
      poll_at-Found before pages page page.columns page.error page.next_uri n k (λ url. none)
        (λ url. none) w {rows = rows} (λ url e. cc) h
  poll-Found before pages (suc fuel) page n k w {rows} h =
      poll_at-Found before pages page page.columns page.error page.next_uri n k _
        (λ url. answer_reply (d.client.get_next url w.client) (answer before pages fuel)) w
        {rows = rows}
        (λ url g.
          reply-Found before pages fuel ((n + 1) % 2 ^ 32) ((k + 1) % 2 ^ 32)
            (d.client.get_next url w.client) w {rows = rows}
            (λ next v. poll-Found before pages fuel next _ _ v {rows = rows}) g)
        h

  -- A statement that is returned with these rows in its batch and on its further pages.
  abbrev Holding : ℕ → List Row → Step d.client (Statement d.Descriptor d.TrinoTy) → Type 0
  Holding pages rows m =
      (s : Statement d.Descriptor d.TrinoTy) × (v : Store d.client) × (later : List Row) × (m
        ≡ some (ok s, v))
      × (remaining d s.trino_types pages s.next_uri v.client ≡ some later)
      × (s.batch ++ later ≡ rows)

  prepend-eq_some :
      (rows : List Row) (rest : Option (List Row)) {whole : List Row}
      → prepend d rows rest ≡ some whole
      → (later : List Row) × (rest ≡ some later) × (rows ++ later ≡ whole)
  unfolding prepend
  prepend-eq_some rows none h = cc
  prepend-eq_some rows (some later) h = (later, refl, cc)

  opened-Holding :
      (token : ℕ) (before : d.client.State) (pages : ℕ) (p : Polled d.client.Payload)
      (r : Result ClientError (List (List d.client.Json)) × d.client.State) (w : Store d.client)
      {rows : List Row}
      → page_rows d
          (map (d.parse_type before) p.found)
          p.page.next_uri
          r
          (remaining d (map (d.parse_type before) p.found) pages)
        ≡ some rows
      → Holding pages rows (
          and_then
            (client_step r w)
            (λ cells v. some (ok (opened_statement d token before p cells v), v)))
  unfolding page_rows client_step and_then opened_statement
  opened-Holding token before pages p (err e, st) w h = cc
  opened-Holding token before pages p (ok cells, st) w {rows} h =
      let types = map (d.parse_type before) p.found in
      let (later, serves, whole) =
        prepend-eq_some (convert_rows d.convert cells types)
          (remaining d types pages p.page.next_uri st) {whole = rows} h in
      (_, record w { client = st }, later, refl, serves, whole)

  polled-Holding :
      (pages fuel token : ℕ) (before : d.client.State) (first : Page d.client.Payload)
      (w : Store d.client) {rows : List Row}
      → answer before pages fuel first w.client ≡ some rows
      → Holding pages rows (polled d fuel token before first w)
  unfolding polled decoded and_then begin_query rows_from
  polled-Holding pages fuel token before first w {rows} h =
      let (p, v, found, behind) =
        poll-Found before pages fuel first 1 0 (begin_query token first.id w) {rows = rows} h in
      let then =
        opened-Holding token before pages p (decode_page_rows d.client p.page.payload v.client) v
          {rows = rows} behind in
      subst (λ m. Holding pages rows (and_then m (decoded d token before))) (sym found) then

  first-Holding :
      (pages fuel token : ℕ) (before : d.client.State)
      (r : Result ClientError (Page d.client.Payload) × d.client.State) (w : Store d.client)
      {rows : List Row}
      → answer_reply r (answer before pages fuel) ≡ some rows
      → Holding pages rows (and_then (client_step r w) (polled d fuel token before))
  unfolding answer_reply client_step and_then
  first-Holding pages fuel token before (err e, st) w h = cc
  first-Holding pages fuel token before (ok first, st) w {rows} h =
      polled-Holding pages fuel token before first (record w { client = st }) {rows = rows} h

  exec_direct-Holding :
      (pages fuel token : ℕ) (sql : Text) (w : Store d.client) {rows : List Row}
      → (ensure_transaction w).0 ≡ ok tt
      → answered pages fuel sql (ensure_transaction w).1.client ≡ some rows
      → Holding pages rows (exec_direct d fuel token sql w)
  unfolding exec_direct submitted answered and_then
  exec_direct-Holding pages fuel token sql w {rows} started h =
      let opened = (ensure_transaction w).1 in
      let same : (ensure_transaction w) ≡ (ok tt, opened) = cc in
      let then =
        first-Holding pages fuel token opened.client
          (d.client.get (strip_trailing_semicolons sql) opened.client) opened {rows = rows} h in
      subst (λ m. Holding pages rows (and_then (some m) (λ u. submitted d fuel token sql)))
        (sym same) then

  -- If the transaction starts and the coordinator's answer to the text, followed from the first page
  -- to the last, consists of these rows, then `exec_direct` returns a statement, and an application
  -- that fetches from it until the end of the data gets exactly these rows, in order, each once; it
  -- is enough to allow as many pages before and behind the columns as there are.
  pub exec_direct-collect :
      (pages fuel token more count : ℕ) (sql : Text) (w : Store d.client) {rows : List Row}
      → (ensure_transaction w).0 ≡ ok tt
      → answered pages fuel sql (ensure_transaction w).1.client ≡ some rows
      → pages ≤ more
      → length rows < count
      → (s : Statement d.Descriptor d.TrinoTy) × (w' : Store d.client) × (exec_direct d fuel token
            sql w
          ≡ some (ok s, w'))
        × (collect d count (suc more) (s, w') ≡ some rows)
  exec_direct-collect pages fuel token more count sql w {rows} started h b l =
      let (s, v, later, done, serves, whole) =
        exec_direct-Holding pages fuel token sql w {rows = rows} started h in
      let fresh = exec_direct-IsFresh d fuel token sql w {s = s} {w' = v} done in
      let few = subst (λ n. length n < count) (sym whole) l in
      (s, v, done, IsFresh-collect d pages more count fresh serves b few ∙ ap some whole)
