-- ===== src/Statement/Fetch.antt =====
-- `StatementBackend::fetch`: the loop over the pages, a round at a time.
use stackable_odbc_trino.Base.{
  ℕ, zero, suc, ◌+◌, ◌%◌, ◌^◌, Bool, ◌&&◌, List, [], Option, none, some, ltb, ◌==◌, if◌then◌else◌,
  length,
}
use stackable_odbc_trino.Base.Outcome.{Result, ok, err}
use stackable_odbc_trino.Base.Text.{Text}
use stackable_odbc_trino.Column.{ColumnValue}
use stackable_odbc_trino.Errors.{TrinoError, odbc, SqlState, abandoned_result_set, no_client}
use stackable_odbc_trino.Errors.Mapping.{ClientError, cancelled_between_requests}
use stackable_odbc_trino.Session.Client.{Client, Column, Page}
use stackable_odbc_trino.Session.Shared.{Store, statement_error}
use stackable_odbc_trino.Statement.State.{Statement, end_page_fetch, convert_rows, truncated_from}

pub data FetchResult : Type 0 where
  row no_data : FetchResult

-- A round of the loop returns, or falls through to its top.
pub data Round : Type 0 where
  return : Result TrinoError FetchResult → Round
  again : Round

-- What the statement code is given: the HTTP client, the type of column descriptors and of column
-- types, the reading and the description of a column of the result, and the conversion of one JSON
-- value with its test for lost digits. A column type stands with the session zone that was in force
-- when the statement was submitted, which is a part of the client's state.
pub record Driver : Type 1 where
  pub client : Client
  pub Descriptor : Type 0
  pub TrinoTy : Type 0
  pub parse_type : client.State → Column → TrinoTy
  pub describe : Column → TrinoTy → Descriptor
  pub convert : client.Json → TrinoTy → ColumnValue
  pub discards : client.Json → TrinoTy → Bool

-- A statement, and the store that it shares with its connection.
abbrev pub Machine : Driver → Type 0
Machine d = Statement d.Descriptor d.TrinoTy × Store d.client

-- `decode_page_rows`: a page without data has no rows, and asks the client nothing.
unfoldable pub decode_page_rows :
    (c : Client) → Option c.Payload → c.State → Result ClientError (List (List c.Json)) × c.State
decode_page_rows c none s = (ok [], s)
decode_page_rows c (some p) s = c.decode_page p s

module _ (d : Driver) where
  -- `is_cancelled`: a statement without a cancel state is never cancelled.
  abbrev pub is_cancelled : Machine d → Bool
  is_cancelled (s, w) = s.online && (w.cancels s.token).cancelled

  -- A client error ends the fetch: it is mapped, recorded, and the buffered rows go.
  unfoldable pub fail : ClientError → Machine d → Round × Machine d
  fail e (s, w) =
      let (mapped, w') = statement_error e w in (return (err mapped), (end_page_fetch mapped s, w'))

  -- The rows of a page replace the batch, and the cursor goes before the first.
  unfoldable pub take_rows : List (List d.client.Json) → Machine d → Machine d
  take_rows rows (s, w) =
      let batch = convert_rows d.convert rows s.trino_types in
      (
        record s {
          batch = batch;
          truncated_cells = truncated_from d.discards 0 rows s.trino_types;
          empty_page_count =
              if length batch == 0 then (s.empty_page_count + 1) % 2 ^ 32 else s.empty_page_count;
          total_rows_fetched = (s.total_rows_fetched + length batch) % 2 ^ 64;
          batch_cursor = 0;
        },
        w,
      )

  -- The rows that a page decodes to, or the failure of its decoding.
  unfoldable pub decode_reply :
      Result ClientError (List (List d.client.Json)) → Machine d → Round × Machine d
  decode_reply (ok rows) m = (again, take_rows rows m)
  decode_reply (err e) m = fail e m

  unfoldable pub decode : Option d.client.Payload → Machine d → Round × Machine d
  decode payload (s, w) =
      let (r, st) = decode_page_rows d.client payload w.client in
      decode_reply r (s, record w { client = st })

  -- The reply to a page request.
  unfoldable pub receive :
      Result ClientError (Page d.client.Payload) → Machine d → Round × Machine d
  receive (err e) m = fail e m
  receive (ok page) (s, w) = elim page.error [
    | some e ↦ fail e (s, w)
    | none ↦ decode page.payload (record s { next_uri = page.next_uri }, w)
  ]

  -- `next_uri` is taken before the client is looked for.
  unfoldable pub request : Text → Machine d → Round × Machine d
  request url (s, w) =
      let (reply, st) = d.client.get_next url w.client in
      let s' : Statement d.Descriptor d.TrinoTy = record s {
        next_uri = none;
        page_count = (s.page_count + 1) % 2 ^ 32;
      } in
      if s.online
      then receive reply (s', record w { client = st })
      else (return (err (odbc no_client SqlState.general_error)), (record s { next_uri = none }, w))

  -- One round of the loop.
  unfoldable pub fetch_round : Machine d → Round × Machine d
  fetch_round (s, w) =
      let advance : Round × Machine d = elim s.next_uri [
        | none ↦ (return (ok no_data), (s, w))
        | some url ↦ request url (s, w)
      ] in
      if is_cancelled (s, w)
      then (
        return (err cancelled_between_requests),
        (end_page_fetch cancelled_between_requests s, w),
      )
      else if ltb s.batch_cursor (length s.batch)
      then (return (ok row), (record s { batch_cursor = s.batch_cursor + 1 }, w))
      else advance

  abbrev pub Answer : Type 0
  Answer = Option (Result TrinoError FetchResult × Machine d)

  -- What follows a round: its result, or the next round.
  unfoldable pub continue_with : Round × Machine d → (Machine d → Answer) → Answer
  continue_with (return r, m) k = some (r, m)
  continue_with (again, m) k = k m

  -- The loop, for at most `fuel` rounds; `none` when they do not suffice.
  unfoldable pub fetch_loop : ℕ → Machine d → Answer
  fetch_loop zero m = none
  fetch_loop (suc fuel) m = continue_with (fetch_round m) (fetch_loop fuel)

  unfoldable pub fetch : ℕ → Machine d → Answer
  fetch fuel (s, w) =
      if s.fetch_failed
      then some (err (odbc abandoned_result_set SqlState.invalid_cursor_state), (s, w))
      else fetch_loop fuel (s, w)
