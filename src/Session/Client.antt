-- ===== src/Session/Client.antt =====
-- The HTTP client of the trino-rust-client crate as the driver uses it. It is not part of the
-- repository: its state, its replies and its decoding are a parameter of the model.
use stackable_odbc_trino.Base.{◌≡◌, Bool, true, false, Option, List}
use stackable_odbc_trino.Base.Outcome.{Result, ok}
use stackable_odbc_trino.Base.Text.{Text}
use stackable_odbc_trino.Errors.Mapping.{ClientError}

-- A column of the result: its name, and its type as Trino spells it.
pub record Column : Type 0 where
  pub name : Text
  pub ty : Text

-- A response page: `id`, `columns`, `error`, `next_uri` and `data` of `QueryResult`.
pub record Page (D : Type 0) : Type 0 where
  pub id : Text
  pub columns : Option (List Column)
  pub error : Option ClientError
  pub next_uri : Option Text
  pub payload : Option D

-- A page's `data` decodes to rows of JSON values.
pub record Client : Type 1 where
  pub State : Type 0
  pub Payload : Type 0
  pub Json : Type 0
  pub get : Text → State → Result ClientError (Page Payload) × State
  pub get_next : Text → State → Result ClientError (Page Payload) × State
  pub decode_page : Payload → State → Result ClientError (List (List Json)) × State
  pub is_active : State → Bool
  pub begin_transaction : State → Result ClientError (Unit {0}) × State
  pub commit : State → Result ClientError (Unit {0}) × State
  pub rollback : State → Result ClientError (Unit {0}) × State
  pub cancel : Text → State → Result ClientError (Unit {0}) × State

-- What the client documents of the transaction id: a begin that succeeds leaves one, and a commit
-- or a rollback that succeeds clears it.
pub record TracksTransactions (c : Client) : Type 0 where
  pub begin_opens :
      (s : c.State)
      → (c.begin_transaction s).0 ≡ ok tt
      → c.is_active (c.begin_transaction s).1 ≡ true
  pub commit_closes : (s : c.State) → (c.commit s).0 ≡ ok tt → c.is_active (c.commit s).1 ≡ false
  pub rollback_closes :
      (s : c.State) → (c.rollback s).0 ≡ ok tt → c.is_active (c.rollback s).1 ≡ false
