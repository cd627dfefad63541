-- ===== src/Statement/Streaming.antt =====
-- Fetching as a stream (fetch of backend/execute.rs): the rows that the pages still hold, and an
-- application that fetches until the end.
pub mod Pages
pub mod Rounds
pub mod Delivery
use stackable_odbc_trino.Base.{
  ℕ, zero, suc, ◌+◌, ◌-◌, ◌≤◌, ◌<◌, ◌≡◌, refl, sym, ap, ◌∙◌, Bool, true, false, ◌&&◌, List, [], ◌∷◌,
  ◌++◌, Option, none, some, arith, inl, inr, ltb, ◌==◌, if◌then◌else◌, length, get_elem?, drop,
  Option-cases, Bool-cases,
}
use stackable_odbc_trino.Base.Outcome.{Result, ok, err, Result-cases}
use stackable_odbc_trino.Base.Text.{Text}
use stackable_odbc_trino.Column.{ColumnValue}
use stackable_odbc_trino.Errors.{TrinoError}
use stackable_odbc_trino.Errors.Mapping.{ClientError}
use stackable_odbc_trino.Session.Client.{Client, Page}
use stackable_odbc_trino.Session.Shared.{Store}
use stackable_odbc_trino.Statement.State.{Statement, Row, convert_rows, truncated_from}
use stackable_odbc_trino.Statement.Fetch.{
  FetchResult, row, no_data, Round, return, again, Driver, Machine, Answer, decode_page_rows,
  take_rows, decode, receive, request, fetch_round, continue_with, fetch_loop, fetch,
}

module _ (d : Driver) where
  -- The rows of the pages from an address on, if every request and every decoding succeeds and the
  -- last page is among the next `fuel`.
  unfoldable pub prepend : List Row → Option (List Row) → Option (List Row)
  prepend rows none = none
  prepend rows (some rest) = some (rows ++ rest)

  unfoldable pub page_rows :
      List d.TrinoTy
      → Option Text
      → Result ClientError (List (List d.client.Json)) × d.client.State
      → (Option Text → d.client.State → Option (List Row))
      → Option (List Row)
  page_rows types next (ok rows, st) k = prepend (convert_rows d.convert rows types) (k next st)
  page_rows types next (err e, st) k = none

  unfoldable pub page_reply :
      List d.TrinoTy
      → Result ClientError (Page d.client.Payload) × d.client.State
      → (Option Text → d.client.State → Option (List Row))
      → Option (List Row)
  page_reply types (err e, st) k = none
  page_reply types (ok page, st) k = elim page.error [
    | some e ↦ none
    | none ↦ page_rows types page.next_uri (decode_page_rows d.client page.payload st) k
  ]

  unfoldable pub remaining : List d.TrinoTy → ℕ → Option Text → d.client.State → Option (List Row)
  remaining types fuel none st = some []
  remaining types zero (some url) st = none
  remaining types (suc fuel) (some url) st =
      page_reply types (d.client.get_next url st) (remaining types fuel)

  -- The row under the cursor.
  unfoldable pub current : Statement d.Descriptor d.TrinoTy → Option Row
  current s = get_elem? s.batch (s.batch_cursor - 1)

  -- A running statement that nobody cancels, with these rows still to be fetched.
  pub record IsStreaming (fuel : ℕ) (m : Machine d) (rows : List Row) : Type 0 where
    pub online : m.0.online ≡ true
    pub live : m.0.fetch_failed ≡ false
    pub uncancelled : (m.1.cancels m.0.token).cancelled ≡ false
    pub later : List Row
    pub serves : remaining m.0.trino_types fuel m.0.next_uri m.1.client ≡ some later
    pub unread : drop m.0.batch_cursor m.0.batch ++ later ≡ rows

  unfoldable pub keep_row : Option Row → Option (List Row) → Option (List Row)
  keep_row none rest = none
  keep_row (some r) none = none
  keep_row (some r) (some rest) = some (r ∷ rest)

  unfoldable pub gather : Answer d → (Machine d → Option (List Row)) → Option (List Row)
  gather none k = none
  gather (some (err e, m)) k = none
  gather (some (ok no_data, m)) k = some []
  gather (some (ok row, m)) k = keep_row (current m.0) (k m)

  -- An application that fetches at most `count` times and keeps the row under the cursor.
  unfoldable pub collect : ℕ → ℕ → Machine d → Option (List Row)
  collect zero fuel m = none
  collect (suc count) fuel m = gather (fetch d fuel m) (collect count fuel)
