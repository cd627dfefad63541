-- ===== src/Statement/Close.antt =====
-- `close_cursor` and `Drop`: the rest of the pages is drained, so that the pooled socket is clean.
use stackable_odbc_trino.Base.{
  ℕ, zero, suc, Bool, false, ◌&&◌, ◌||◌, [], Option, none, some, if◌then◌else◌,
}
use stackable_odbc_trino.Base.Outcome.{Result, ok, err}
use stackable_odbc_trino.Base.Text.{Text}
use stackable_odbc_trino.Errors.{TrinoError}
use stackable_odbc_trino.Errors.Mapping.{ClientError}
use stackable_odbc_trino.Session.Client.{Page}
use stackable_odbc_trino.Session.Shared.{Store, outlived, statement_error}
use stackable_odbc_trino.Statement.State.{Statement}
use stackable_odbc_trino.Statement.Fetch.{Driver, Machine, is_cancelled}

module _ (d : Driver) where
  abbrev pub Closing : Type 0
  Closing = Option (Option TrinoError × Store d.client)

  -- The reply to one request of the drain: the next page's address, or the mapped failure.
  unfoldable pub drain_reply :
      Result ClientError (Page d.client.Payload)
      → Store d.client
      → (Option Text → Store d.client → Closing)
      → Closing
  drain_reply (ok page) w k = k page.next_uri w
  drain_reply (err e) w k = let (mapped, w') = statement_error e w in some (some mapped, w')

  -- The drain, for at most `fuel` requests; `none` when they do not suffice.
  unfoldable pub drain : ℕ → Option Text → Store d.client → Closing
  drain fuel none w = some (none, w)
  drain zero (some url) w = none
  drain (suc fuel) (some url) w =
      let (reply, st) = d.client.get_next url w.client in
      drain_reply reply (record w { client = st }) (drain fuel)

  -- `result_set_died_with_a_transaction`
  abbrev pub died_with_a_transaction : Machine d → Bool
  died_with_a_transaction (s, w) = s.online && outlived s.txn_epoch w.txn

  unfoldable pub cleared : Statement d.Descriptor d.TrinoTy → Statement d.Descriptor d.TrinoTy
  cleared s = record s {
    batch = [];
    truncated_cells = [];
    batch_cursor = 0;
    next_uri = none;
    query_id = none;
    fetch_failed = false;
  }

  -- The result of the drain, once the teardown has run.
  unfoldable pub finish :
      Statement d.Descriptor d.TrinoTy → Closing → Option (Result TrinoError (Unit {0}) × Machine d)
  finish s none = none
  finish s (some (none, w)) = some (ok tt, (cleared s, w))
  finish s (some (some e, w)) = some (err e, (cleared s, w))

  unfoldable pub close_cursor : ℕ → Machine d → Option (Result TrinoError (Unit {0}) × Machine d)
  close_cursor fuel (s, w) = finish s (
      if is_cancelled d (s, w) || died_with_a_transaction (s, w)
      then some (none, w)
      else if s.online
      then drain fuel s.next_uri w
      else some (none, w))

  -- `Drop`: a statement with pages left is closed, and the result goes nowhere.
  unfoldable pub drop_statement : ℕ → Machine d → Option (Machine d)
  drop_statement fuel (s, w) = elim s.next_uri [
    | none ↦ some (s, w)
    | some url ↦ elim (close_cursor fuel (s, w)) [ none ↦ none | some (r, m) ↦ some m ]
  ]
