-- ===== src/Statement/Tests.antt =====
-- A result set of two pages, the first one empty, and the statement theorems applied to it.
use stackable_odbc_trino.Base.{
  ℕ, ◌≡◌, refl, pos, true, false, List, [], ◌∷◌, none, some, arith, ◌⊎◌,
}
use stackable_odbc_trino.Base.Outcome.{Result, ok, err}
use stackable_odbc_trino.Column.{ColumnValue}
use stackable_odbc_trino.Errors.{
  TrinoError, general, no_columns, server, odbc, SqlState, transport, abandoned_result_set,
  get_data_before_fetch,
}
use stackable_odbc_trino.Errors.Mapping.{
  cancelled_between_requests, map_trino_error, query_cause, is_cancellation, note_liveness,
}
use stackable_odbc_trino.Session.Shared.{
  cancel, set_at, begin_query, no_query, Store, statement_error, map_trino_error_on, note_error,
  outlived,
}
use stackable_odbc_trino.Base.Text.{codes}
use stackable_odbc_trino.Base.Text.Space.{trim_end, is_whitespace}
use stackable_odbc_trino.Statement.Operations.{Call, perform, perform_all, perform_all-IsValid}
use stackable_odbc_trino.Session.Shared.{initial_txn, begun}
use stackable_odbc_trino.Session.Transaction.{ensure_transaction, after_request}
use stackable_odbc_trino.Errors.Mapping.{ClientError}
use stackable_odbc_trino.Statement.Submit.{
  and_then, client_step, poll_at, poll, opened_statement, decoded, polled, submitted, exec_direct,
}
use stackable_odbc_trino.Statement.Execution.Delivery.{
  answered, answer, answer_at, answer_reply, rows_from, exec_direct-collect,
}
use stackable_odbc_trino.Statement.Execution.Failures.{exec_direct_aborts}
use stackable_odbc_trino.Statement.Execution.Handle.{execute_keeps_handle}
use stackable_odbc_trino.Statement.Execute.{execute, execute_template, submit, installed, swap_in}
use stackable_odbc_trino.Statement.Close.{drop_statement}
use stackable_odbc_trino.Params.Literal.{Externals, render_literal, show_int}
use stackable_odbc_trino.Params.Interpolate.{interpolate_params}
use stackable_odbc_trino.Base.Text.{show}
use stackable_odbc_trino.Statement.Cancel.{cancel_stops_fetch}
use stackable_odbc_trino.Statement.Terminator.{
  strip_suffix, strip_next, strip_trailing_semicolons, trim_terminators,
  strip_trailing_semicolons_lem,
}
use stackable_odbc_trino.Session.Tests.{slot_client, fresh}
use stackable_odbc_trino.Statement.State.{
  member, take_value_warning, Statement, Row, prepare, get_data, cell, convert_rows, convert_row,
  truncated_from, truncated_in, end_page_fetch, abandon_result_set,
}
use stackable_odbc_trino.Statement.Fetch.{
  row, Driver, fetch, fetch_loop, continue_with, fetch_round, request, receive, decode,
  decode_page_rows, decode_reply, take_rows, fail, is_cancelled,
}
use stackable_odbc_trino.Statement.Invariant.{IsValid, fetch-IsValid}
use stackable_odbc_trino.Statement.Close.{cleared, close_cursor, drain, drain_reply, finish}
use stackable_odbc_trino.Statement.Endings.{IsAbandoned, fetch_after_failure}
use stackable_odbc_trino.Statement.Streaming.{
  IsStreaming, collect, remaining, page_reply, page_rows, prepend,
}
use stackable_odbc_trino.Statement.Streaming.Delivery.{collect-IsStreaming}

abbrev numbers : Driver
numbers = record {
  client = slot_client;
  Descriptor = ℕ;
  TrinoTy = ℕ;
  parse_type = λ st c. 0;
  describe = λ c t. t;
  convert = λ j t. ColumnValue.i32 (pos j);
  discards = λ j t. false;
}

-- The statement after `exec_direct`, before the first fetch.
abbrev opened : Statement ℕ ℕ
opened = record (prepare []) { trino_types = 0 ∷ []; next_uri = some (0 ∷ []); online = true }

abbrev first_row : Row
first_row = ColumnValue.i32 (pos 7) ∷ []

abbrev second_row : Row
second_row = ColumnValue.i32 (pos 8) ∷ []

abbrev on_first : Statement ℕ ℕ
on_first = record opened {
  batch = first_row ∷ second_row ∷ [];
  batch_cursor = 1;
  next_uri = none;
  page_count = 2;
  empty_page_count = 1;
  total_rows_fetched = 2;
}

opened-fetch : fetch numbers 3 (opened, fresh) ≡ some (ok row, (on_first, fresh))
unfolding fetch fetch_loop continue_with fetch_round request receive decode decode_page_rows
    decode_reply take_rows convert_rows convert_row truncated_from truncated_in fail end_page_fetch
    abandon_result_set prepare statement_error map_trino_error_on note_error map_trino_error
    query_cause is_cancellation note_liveness
opened-fetch = refl

opened-IsValid : IsValid opened
unfolding prepare
opened-IsValid = record { within = omega arith; abandoned = λ h. cc }

on_first-IsValid : IsValid on_first
on_first-IsValid =
    fetch-IsValid numbers 3 (opened, fresh) {r = ok row} {m' = (on_first, fresh)} opened-IsValid
      opened-fetch

-- A statement whose next page is refused.
abbrev broken : Statement ℕ ℕ
broken = record opened { next_uri = some (9 ∷ []) }

abbrev lost : Statement ℕ ℕ
lost = record opened { next_uri = none; fetch_failed = true; page_count = 1 }

abbrev refusal : TrinoError
refusal = TrinoError.query transport (pos 0)

broken-fetch : fetch numbers 2 (broken, fresh) ≡ some (err refusal, (lost, fresh))
unfolding fetch fetch_loop continue_with fetch_round request receive decode decode_page_rows
    decode_reply take_rows convert_rows convert_row truncated_from truncated_in fail end_page_fetch
    abandon_result_set prepare statement_error map_trino_error_on note_error map_trino_error
    query_cause is_cancellation note_liveness
broken-fetch = refl

fetch_after_failure_example :
    (fetch numbers 5 (lost, fresh)
      ≡ some (err (odbc abandoned_result_set SqlState.invalid_cursor_state), (lost, fresh)))
    × IsAbandoned numbers lost
    × (get_data 1 lost ≡ some (err (odbc get_data_before_fetch SqlState.general_error), lost))
unfolding prepare is_cancellation
fetch_after_failure_example =
    fetch_after_failure numbers 2 5 0 (broken, fresh) refusal {m' = (lost, fresh)} refl refl refl
      broken-fetch

opened-IsStreaming : IsStreaming numbers 2 (opened, fresh) (first_row ∷ second_row ∷ [])
unfolding prepare remaining page_reply page_rows prepend decode_page_rows convert_rows convert_row
opened-IsStreaming = record {
  online = refl;
  live = refl;
  uncancelled = refl;
  later = first_row ∷ second_row ∷ [];
  serves = refl;
  unread = refl;
}

collect-IsStreaming_example :
    collect numbers 3 3 (opened, fresh) ≡ some (first_row ∷ second_row ∷ [])
collect-IsStreaming_example =
    collect-IsStreaming numbers (first_row ∷ second_row ∷ []) 3 2 2 (opened, fresh) (omega arith)
      (omega arith) opened-IsStreaming

opened-close :
    close_cursor numbers 2 (opened, fresh) ≡ some (ok tt, (cleared numbers opened, fresh))
unfolding close_cursor prepare drain drain_reply cleared finish outlived
opened-close = refl

abbrev published : Store slot_client
published = begin_query 0 (5 ∷ []) fresh

cancel_stops_fetch_example :
    ((s' : Statement ℕ ℕ) × (fetch numbers 1 (on_first, (cancel 0 published).1)
        ≡ some (err cancelled_between_requests, (s', (cancel 0 published).1)))
      × (s'.batch ≡ [])
      × (s'.next_uri ≡ none))
    × (is_cancelled numbers (on_first, (cancel 1 published).1)
        ≡ is_cancelled numbers (on_first, published))
unfolding prepare
cancel_stops_fetch_example =
    cancel_stops_fetch numbers 0 on_first published (5 ∷ []) 1 refl refl
      (unfold begin_query set_at in refl) (λ e. omega (arith, e))

strip_trailing_semicolons_lem_example :
    strip_trailing_semicolons (codes "SELECT ';' ; ;") ≡ trim_terminators (codes "SELECT ';' ; ;")
strip_trailing_semicolons_lem_example = strip_trailing_semicolons_lem (codes "SELECT ';' ; ;")

stripped : strip_trailing_semicolons (codes "SELECT ';' ; ;") ≡ codes "SELECT ';'"
unfolding strip_trailing_semicolons strip_next strip_suffix trim_end is_whitespace
stripped = refl

abbrev calls : List Call
calls = Call.fetch_row 3 ∷ Call.read_column 1 ∷ Call.take_warning ∷ []

opened-perform_all : perform_all numbers calls (opened, fresh) ≡ some (on_first, fresh)
unfolding fetch fetch_loop continue_with fetch_round request receive decode decode_page_rows
    decode_reply take_rows convert_rows convert_row truncated_from truncated_in fail end_page_fetch
    abandon_result_set prepare statement_error map_trino_error_on note_error map_trino_error
    query_cause is_cancellation note_liveness perform perform_all get_data member cell
    take_value_warning
opened-perform_all = refl

perform_all-IsValid_example : IsValid on_first
perform_all-IsValid_example =
    perform_all-IsValid numbers calls (opened, fresh) {m' = (on_first, fresh)} opened-IsValid
      opened-perform_all

-- A submission on a manual-commit connection opens a transaction, and polls once for the columns.
abbrev manual_store : Store slot_client
manual_store = record fresh { txn = record initial_txn { autocommit = false } }

abbrev running_store : Store slot_client
running_store = begin_query 1 (5 ∷ []) (record manual_store { client = true })

abbrev submitted_statement : Statement ℕ ℕ
submitted_statement = record opened {
  pending_sql = none;
  columns = 0 ∷ [];
  batch = first_row ∷ second_row ∷ [];
  next_uri = none;
  query_id = some (5 ∷ []);
  token = 1;
  page_count = 2;
  empty_page_count = 1;
  total_rows_fetched = 2;
}

started-exec_direct :
    exec_direct numbers 1 1 (codes "SELECT 1;") manual_store
    ≡ some (ok submitted_statement, running_store)
unfolding exec_direct submitted polled decoded poll poll_at and_then client_step opened_statement
    ensure_transaction after_request begun begin_query strip_trailing_semicolons strip_next
    strip_suffix trim_end is_whitespace decode_page_rows convert_rows convert_row truncated_from
    truncated_in prepare
started-exec_direct = refl

exec_direct-collect_example :
    (s : Statement ℕ ℕ) × (w' : Store slot_client) × (exec_direct numbers 1 1
        (codes "SELECT 1;")
        manual_store
      ≡ some (ok s, w'))
    × (collect numbers 3 1 (s, w') ≡ some (first_row ∷ second_row ∷ []))
unfolding answered answer answer_at answer_reply rows_from page_rows prepend remaining
    ensure_transaction after_request begun decode_page_rows convert_rows convert_row
exec_direct-collect_example =
    exec_direct-collect numbers 0 1 1 0 3 (codes "SELECT 1;") manual_store
      {rows = first_row ∷ second_row ∷ []} refl refl (omega arith) (omega arith)

-- A server that refuses the submission.
abbrev refusing : Driver
refusing = record numbers {
  client = record slot_client { get = λ sql st. (err (ClientError.query (pos 57) [] []), st) };
}

abbrev refused_before : Store refusing.client
refused_before = record {
  client = false;
  txn = record initial_txn { autocommit = false };
  dead = false;
  cancels = λ k. no_query;
}

abbrev refused_after : Store refusing.client
refused_after = record refused_before {
  client = true;
  txn = record initial_txn { autocommit = false; aborted = true };
}

abbrev rejection : TrinoError
rejection = TrinoError.query (server [] []) (pos 57)

refused-exec_direct :
    exec_direct refusing 1 1 (codes "SELECT 1;") refused_before
    ≡ some (err rejection, refused_after)
unfolding exec_direct submitted and_then client_step ensure_transaction after_request begun
    strip_trailing_semicolons strip_next strip_suffix trim_end is_whitespace statement_error
    map_trino_error_on note_error map_trino_error query_cause is_cancellation note_liveness
refused-exec_direct = refl

exec_direct_aborts_example : (refused_after.txn.aborted ≡ true) ⊎ (rejection ≡ general no_columns)
unfolding ensure_transaction after_request begun
exec_direct_aborts_example =
    exec_direct_aborts refusing 1 1 (codes "SELECT 1;") refused_before {e = rejection}
      {w' = refused_after} refl refl refused-exec_direct

-- Floats print their bits; no date is checked.
abbrev printer : Externals
printer = record { from_ymd_opt = λ y m d. true; show_f32 = show; show_f64 = show }

abbrev prepared : Statement ℕ ℕ
prepared = prepare (codes "SELECT ?")

abbrev ran : Statement ℕ ℕ
ran = record submitted_statement { pending_sql = some (codes "SELECT ?") }

prepared-execute :
    execute printer numbers 1 1 (ColumnValue.i32 (pos 7) ∷ []) (prepared, manual_store)
    ≡ some (ok tt, (ran, running_store))
unfolding exec_direct submitted polled decoded poll poll_at and_then client_step opened_statement
    ensure_transaction after_request begun begin_query strip_trailing_semicolons strip_next
    strip_suffix trim_end is_whitespace decode_page_rows convert_rows convert_row truncated_from
    truncated_in prepare execute execute_template submit installed swap_in drop_statement
    interpolate_params render_literal show_int show close_cursor finish cleared outlived
prepared-execute = refl

execute_keeps_handle_example :
    (ran.pending_sql ≡ prepared.pending_sql)
    × ((e : TrinoError) → ◌≡◌ {A = Result TrinoError (Unit {0})} (ok tt) (err e) → ran ≡ prepared)
    × (◌≡◌ {A = Result TrinoError (Unit {0})} (ok tt) (ok tt)
        → IsValid ran × (ran.online ≡ true) × (ran.fetch_failed ≡ false) × (ran.batch_cursor ≡ 0))
execute_keeps_handle_example =
    execute_keeps_handle printer numbers 1 1 (ColumnValue.i32 (pos 7) ∷ []) (prepared, manual_store)
      {r = ok tt} {m' = (ran, running_store)} prepared-execute
