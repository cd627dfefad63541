-- ===== src/Statement/Invariant.antt =====
-- The invariant of a statement, with fetch and get_data of backend/execute.rs under it: the cursor is
-- within the batch, and an abandoned result set holds no rows and no next page.
use stackable_odbc_trino.Base.{
  ℕ, zero, suc, ◌-◌, ◌≤◌, ◌<◌, ◌≡◌, refl, true, false, List, Option, none, some, arith, inl, inr,
  length, get_elem?, Option-cases, get_elem?-lt, Bool-cases,
}
use stackable_odbc_trino.Base.Outcome.{Result, ok, err}
use stackable_odbc_trino.Base.Text.{Text}
use stackable_odbc_trino.Errors.{
  TrinoError, odbc, SqlState, get_data_before_fetch, column_must_be_positive,
}
use stackable_odbc_trino.Errors.Mapping.{ClientError}
use stackable_odbc_trino.Session.Client.{Page}
use stackable_odbc_trino.Session.Shared.{Store}
use stackable_odbc_trino.Statement.State.{Statement, end_page_fetch, get_data, cell, member, Row}
use stackable_odbc_trino.Statement.Fetch.{
  FetchResult, Answer, continue_with, Round, return, again, Driver, Machine, decode_page_rows, fail,
  take_rows, decode, decode_reply, receive, request, fetch_round, fetch_loop, fetch,
}

same_machine :
    {A B : Type 0} {r r' : A} {m m' : B}
    → ◌≡◌ {A = Option (A × B)} (some (r, m)) (some (r', m'))
    → m ≡ m'
same_machine h = cc

pub record IsValid {D T : Type 0} (s : Statement D T) : Type 0 where
  pub within : s.batch_cursor ≤ length s.batch
  pub abandoned : s.fetch_failed ≡ true → (length s.batch ≡ 0) × (s.next_uri ≡ none)

module _ (d : Driver) where
  fail-IsValid : (e : ClientError) (m : Machine d) → IsValid (fail d e m).1.0
  unfolding fail end_page_fetch
  fail-IsValid e m = ground arith

  -- A round never marks a result set as failed and goes on.
  abbrev Keeps : Round → Machine d → Type 0
  Keeps (return r) m = IsValid m.0
  Keeps again m = IsValid m.0 × (m.0.fetch_failed ≡ false)

  abbrev Kept : Round × Machine d → Type 0
  Kept (r, m) = Keeps r m

  decode_reply-Kept :
      (r : Result ClientError (List (List d.client.Json))) (m : Machine d)
      → m.0.fetch_failed ≡ false
      → Kept (decode_reply d r m)
  unfolding decode_reply take_rows fail
  decode_reply-Kept (ok rows) m f = ground arith
  decode_reply-Kept (err e) m f = fail-IsValid e m

  decode-Kept :
      (p : Option d.client.Payload) (s : Statement d.Descriptor d.TrinoTy) (w : Store d.client)
      → s.fetch_failed ≡ false
      → Kept (decode d p (s, w))
  unfolding decode
  decode-Kept p s w f = decode_reply-Kept (decode_page_rows d.client p w.client).0 _ f

  receive-Kept :
      (r : Result ClientError (Page d.client.Payload)) (s : Statement d.Descriptor d.TrinoTy)
      (w : Store d.client)
      → s.fetch_failed ≡ false
      → Kept (receive d r (s, w))
  unfolding receive fail
  receive-Kept (err e) s w f = fail-IsValid e (s, w)
  receive-Kept (ok page) s w f = elim (Option-cases page.error) [
    | inl e ↦ rw e (decode-Kept page.payload (record s { next_uri = page.next_uri }) w f)
    | inr (x, e) ↦ rw e (fail-IsValid x (s, w))
  ]

  request-Kept :
      (url : Text) (s : Statement d.Descriptor d.TrinoTy) (w : Store d.client)
      → IsValid s
      → s.fetch_failed ≡ false
      → Kept (request d url (s, w))
  unfolding request
  request-Kept url s w v f = elim (Bool-cases s.online) [
    | inl o ↦ simp o (receive-Kept _ _ _ f)
    | inr o ↦ simp o (ground arith)
  ]

  round-Kept :
      (s : Statement d.Descriptor d.TrinoTy) (w : Store d.client)
      → IsValid s
      → s.fetch_failed ≡ false
      → Kept (fetch_round d (s, w))
  unfolding fetch_round end_page_fetch
  round-Kept s w v f = elim (Option-cases s.next_uri) [
    | inl e ↦ ground arith
    | inr (url, e) ↦ ground (arith, request-Kept url s w v f)
  ]

  -- The rounds after one that keeps the invariant.
  continue-IsValid :
      (x : Round × Machine d) (k : Machine d → Answer d) {r : Result TrinoError FetchResult}
      {m' : Machine d}
      → Kept x
      → ((m : Machine d)
          → IsValid m.0
          → m.0.fetch_failed ≡ false
          → k m ≡ some (r, m')
          → IsValid m'.0)
      → continue_with d x k ≡ some (r, m')
      → IsValid m'.0
  unfolding continue_with
  continue-IsValid (return r, m) k kept rest h = rw (← same_machine h) kept
  continue-IsValid (again, m) k kept rest h = rest m kept.0 kept.1 h

  loop-IsValid :
      (fuel : ℕ) (m : Machine d) {r : Result TrinoError FetchResult} {m' : Machine d}
      → IsValid m.0
      → m.0.fetch_failed ≡ false
      → fetch_loop d fuel m ≡ some (r, m')
      → IsValid m'.0
  unfolding fetch_loop
  loop-IsValid zero m v f h = cc
  loop-IsValid (suc fuel) m {r} {m'} v f h =
      continue-IsValid (fetch_round d m) (fetch_loop d fuel) (round-Kept m.0 m.1 v f)
        (λ n v' f' h'. loop-IsValid fuel n {r = r} {m' = m'} v' f' h') h

  -- A fetch that returns, with a row, with the end of the data or with any error, leaves the cursor
  -- within the batch, and no rows and no next page behind a failure.
  pub fetch-IsValid :
      (fuel : ℕ) (m : Machine d) {r : Result TrinoError FetchResult} {m' : Machine d}
      → IsValid m.0
      → fetch d fuel m ≡ some (r, m')
      → IsValid m'.0
  unfolding fetch
  fetch-IsValid fuel m {r} {m'} v h = elim (Bool-cases m.0.fetch_failed) [
    | inl failed ↦ rw (← same_machine (simp failed at h)) v
    | inr live ↦ loop-IsValid fuel m {r = r} {m' = m'} v live (simp live at h)
  ]

module _ {D T : Type 0} where
  -- In a valid statement `get_data` always answers, and never indexes past the batch. Before the
  -- first row it reports an error. On a row, column 0 is reported as 07009, and any other column
  -- reads the row under the cursor, whose end is reported as 07009 too; rows and cursor stay.
  pub get_data_total :
      (col : ℕ) (s : Statement D T)
      → IsValid s
      → (s.batch_cursor ≡ 0
          → get_data col s ≡ some (err (odbc get_data_before_fetch SqlState.general_error), s))
        × (0 < s.batch_cursor
            → get_data 0 s
              ≡ some (err (odbc column_must_be_positive SqlState.invalid_descriptor_index), s))
        × (0 < s.batch_cursor
            → (under : Row) × (s' : Statement D T) × (get_elem? s.batch (s.batch_cursor - 1)
                ≡ some under)
              × (get_data (suc col) s ≡ some (cell under col, s'))
              × (s'.batch ≡ s.batch)
              × (s'.batch_cursor ≡ s.batch_cursor))
  unfolding get_data
  get_data_total col s v = (before col, λ h. ground arith, λ h. on_row h)
    where
      before :
          (k : ℕ)
          → s.batch_cursor ≡ 0
          → get_data k s ≡ some (err (odbc get_data_before_fetch SqlState.general_error), s)
      before zero h = ground arith
      before (suc k) h = ground arith

      on_row :
          0 < s.batch_cursor
          → (under : Row) × (s' : Statement D T) × (get_elem? s.batch (s.batch_cursor - 1)
              ≡ some under)
            × (get_data (suc col) s ≡ some (cell under col, s'))
            × (s'.batch ≡ s.batch)
            × (s'.batch_cursor ≡ s.batch_cursor)
      on_row h =
          let (under, e) = get_elem?-lt s.batch (s.batch_cursor - 1) (omega (arith, v.within)) in
          (
            under,
            record s { pending_value_warning = member s.truncated_cells (s.batch_cursor - 1) col },
            e,
            ground arith,
            refl,
            refl,
          )
