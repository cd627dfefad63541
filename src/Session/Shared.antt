-- ===== src/Session/Shared.antt =====
-- `TransactionState`, `CancelState` and `Liveness`: what a connection and its statements share
-- behind `Arc`s. The store holds the connection's one of each, the cancel state of every token by the
-- number of the token, and the state of the client.
use stackable_odbc_trino.Base.{
  ℕ, ◌≡◌, ◌≢◌, arith, ◌+◌, ◌%◌, ◌^◌, Bool, true, false, not, Option, none, some, ◌==◌,
  if◌then◌else◌,
}
use stackable_odbc_trino.Base.Outcome.{Result, ok, err}
use stackable_odbc_trino.Base.Text.{Text}
use stackable_odbc_trino.Errors.{TrinoError}
use stackable_odbc_trino.Errors.Mapping.{ClientError, map_trino_error, note_liveness}
use stackable_odbc_trino.Session.Client.{Client}

pub record TransactionState : Type 0 where
  pub autocommit : Bool
  pub aborted : Bool
  pub epoch : ℕ

-- `TransactionState::default`
abbrev pub initial_txn : TransactionState
initial_txn = record { autocommit = true; aborted = false; epoch = 0 }

unfoldable pub set_mode : Bool → TransactionState → TransactionState
set_mode enabled t = record t { autocommit = enabled }

unfoldable pub note_error : TransactionState → TransactionState
note_error t = if t.autocommit then t else record t { aborted = true }

unfoldable pub begun : TransactionState → TransactionState
begun t = record t { aborted = false }

-- `fetch_add` on an `AtomicU64` wraps around.
unfoldable pub ended : TransactionState → TransactionState
ended t = record t { epoch = (t.epoch + 1) % 2 ^ 64; aborted = false }

unfoldable pub outlived : ℕ → TransactionState → Bool
outlived epoch t = not (t.epoch == epoch)

-- `query_id` is the id of the query in flight. Core makes a new token, with its own state, for each
-- call that produces a statement.
pub record CancelState : Type 0 where
  pub query_id : Option Text
  pub cancelled : Bool

-- `CancelState::default`
abbrev pub no_query : CancelState
no_query = record { query_id = none; cancelled = false }

-- The states of all tokens after one of them is set.
unfoldable pub set_at : ℕ → CancelState → (ℕ → CancelState) → ℕ → CancelState
set_at token state states k = if k == token then state else states k

pub set_at_same :
    (token : ℕ) (state : CancelState) (states : ℕ → CancelState)
    → set_at token state states token ≡ state
unfolding set_at
set_at_same token state states = ground arith

pub set_at_other :
    (token : ℕ) (state : CancelState) (states : ℕ → CancelState) (k : ℕ)
    → k ≢ token
    → set_at token state states k ≡ states k
unfolding set_at
set_at_other token state states k h = ground arith

pub record Store (c : Client) : Type 0 where
  pub client : c.State
  pub txn : TransactionState
  pub dead : Bool
  pub cancels : ℕ → CancelState

module _ {c : Client} where
  -- `map_trino_error_on`: classify, and record a lost link on the way past.
  unfoldable pub map_trino_error_on : ClientError → Store c → TrinoError × Store c
  map_trino_error_on e w =
      let mapped = map_trino_error e in (mapped, record w { dead = note_liveness w.dead mapped })

  -- `TrinoConnection::statement_error`, and `TrinoStatement::map_client_error` of a statement that
  -- came from a connection: the failure also aborts an open transaction.
  unfoldable pub statement_error : ClientError → Store c → TrinoError × Store c
  unfolding map_trino_error_on
  statement_error e w = map_trino_error_on e (record w { txn = note_error w.txn })

  -- `CancelState::begin_query`
  unfoldable pub begin_query : ℕ → Text → Store c → Store c
  unfolding set_at
  begin_query token id w = record w {
    cancels = set_at token (record { query_id = some id; cancelled = false }) w.cancels;
  }

  -- The reply to the cancelling request.
  unfoldable pub cancel_reply :
      Result ClientError (Unit {0}) → Store c → Result TrinoError (Unit {0}) × Store c
  unfolding map_trino_error_on
  cancel_reply (ok _) w = (ok tt, w)
  cancel_reply (err e) w = let (mapped, w') = map_trino_error_on e w in (err mapped, w')

  -- The slot's id is taken, and the flag is published before the request goes out.
  unfoldable pub cancel_query : ℕ → Option Text → Store c → Result TrinoError (Unit {0}) × Store c
  unfolding cancel_reply set_at
  cancel_query token none w = (ok tt, w)
  cancel_query token (some id) w =
      let (reply, s) = c.cancel id w.client in
      cancel_reply reply (record w {
        cancels = set_at token (record { query_id = none; cancelled = true }) w.cancels;
        client = s;
      })

  -- `execute::cancel`, on a token.
  unfoldable pub cancel : ℕ → Store c → Result TrinoError (Unit {0}) × Store c
  unfolding cancel_query
  cancel token w = cancel_query token (w.cancels token).query_id w
