-- ===== src/Session/Tests.antt =====
-- A client with one transaction slot, and the transaction theorems applied to it.
use stackable_odbc_trino.Base.{
  ℕ, zero, suc, ◌≡◌, refl, ◌≢◌, Bool, true, false, List, [], ◌∷◌, none, some,
}
use stackable_odbc_trino.Base.Outcome.{Result, ok, err}
use stackable_odbc_trino.Base.Text.{Text, codes}
use stackable_odbc_trino.Errors.Mapping.{ClientError}
use stackable_odbc_trino.Session.Client.{Client, Page, TracksTransactions}
use stackable_odbc_trino.Session.Shared.{no_query, TransactionState, Store, initial_txn}
use stackable_odbc_trino.Session.Transaction.{end_tran}
use stackable_odbc_trino.Session.Commit.{
  Event, statement_starts, statement_fails, run, end_tran_after_failure,
}

-- The state is whether a transaction is open. The page at address 0 is empty and leads to address
-- 1, which holds two rows of one number; any other request fails.
abbrev served : Text → Result ClientError (Page (List (List ℕ)))
served (zero ∷ _) =
    ok (record {
      id = 5 ∷ [];
      columns = none;
      error = none;
      next_uri = some (1 ∷ []);
      payload = none;
    })
served (suc zero ∷ _) = ok (record {
  id = 5 ∷ [];
  columns = some (record { name = codes "n"; ty = codes "integer" } ∷ []);
  error = none;
  next_uri = none;
  payload = some ((7 ∷ []) ∷ (8 ∷ []) ∷ []);
})
served _ = err ClientError.other

abbrev pub slot_client : Client
slot_client = record {
  State = Bool;
  Payload = List (List ℕ);
  Json = ℕ;
  get = λ sql s. (served (0 ∷ []), s);
  get_next = λ url s. (served url, s);
  decode_page = λ p s. (ok p, s);
  is_active = λ s. s;
  begin_transaction = λ s. (ok tt, true);
  commit = λ s. (ok tt, false);
  rollback = λ s. (ok tt, false);
  cancel = λ id s. (ok tt, s);
}

abbrev pub fresh : Store slot_client
fresh = record { client = false; txn = initial_txn; dead = false; cancels = λ k. no_query }

abbrev manual : TransactionState
manual = record { autocommit = false; aborted = false; epoch = 4 }

abbrev idle : Store slot_client
idle = record fresh { txn = manual }

abbrev open_transaction : Store slot_client
open_transaction = record fresh { client = true; txn = manual }

abbrev aborted_transaction : Store slot_client
aborted_transaction = record fresh { client = true; txn = record manual { aborted = true } }

slot_client_tracks : TracksTransactions slot_client
slot_client_tracks = record {
  begin_opens = λ s h. refl;
  commit_closes = λ s h. refl;
  rollback_closes = λ s h. refl;
}

abbrev later : List Event
later = statement_starts ∷ statement_fails ClientError.other ∷ statement_starts ∷ []

end_tran_after_failure_example :
    let v = run (statement_fails (ClientError.forbidden []) ∷ later) open_transaction in
    ((end_tran true v).0 ≢ ok tt) × ((end_tran true v).1.client ≡ (slot_client.rollback v.client).1)
end_tran_after_failure_example =
    end_tran_after_failure slot_client (ClientError.forbidden []) later open_transaction refl refl
