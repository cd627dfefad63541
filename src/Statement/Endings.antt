-- ===== src/Statement/Endings.antt =====
-- How a result set ends early: a failed page, a cancellation, a close.
use stackable_odbc_trino.Base.{
  ℕ, zero, suc, ◌≡◌, refl, true, false, List, [], none, some, arith, inl, inr, ltb, length,
  Option-cases, Bool-cases, ◌⊎◌,
}
use stackable_odbc_trino.Base.Outcome.{Result, ok, err}
use stackable_odbc_trino.Base.Text.{Text}
use stackable_odbc_trino.Errors.{
  TrinoError, odbc, SqlState, abandoned_result_set, get_data_before_fetch,
}
use stackable_odbc_trino.Errors.Mapping.{ClientError, cancelled_between_requests, is_cancellation}
use stackable_odbc_trino.Session.Client.{Page}
use stackable_odbc_trino.Session.Shared.{Store, outlived, statement_error}
use stackable_odbc_trino.Statement.State.{Statement, end_page_fetch, abandon_result_set, get_data}
use stackable_odbc_trino.Statement.Fetch.{
  Round, return, again, Driver, Machine, Answer, fail, take_rows, decode, decode_reply, receive,
  request, fetch_round, continue_with, fetch_loop, fetch,
}
use stackable_odbc_trino.Statement.Close.{Closing, cleared, finish, close_cursor}

module _ (d : Driver) where
  -- Once a statement's query has been cancelled, a fetch reports the cancellation without asking
  -- the coordinator for anything: the store is unchanged, the buffered rows are gone, no page is
  -- left to fetch or to drain, and the cursor is before the first row.
  pub fetch_cancelled :
      (fuel : ℕ) (s : Statement d.Descriptor d.TrinoTy) (w : Store d.client)
      → s.online ≡ true
      → s.fetch_failed ≡ false
      → (w.cancels s.token).cancelled ≡ true
      → (s' : Statement d.Descriptor d.TrinoTy) × (fetch d (suc fuel) (s, w)
          ≡ some (err cancelled_between_requests, (s', w)))
        × (s'.batch ≡ [])
        × (s'.batch_cursor ≡ 0)
        × (s'.next_uri ≡ none)
        × (s'.fetch_failed ≡ false)
  unfolding fetch fetch_loop continue_with fetch_round end_page_fetch cancelled_between_requests
      is_cancellation
  fetch_cancelled fuel s w o l c =
      (end_page_fetch cancelled_between_requests s, ground arith, refl, refl, refl, l)

  -- A statement whose result set is gone: nothing buffered, nothing to ask for, and no row under the
  -- cursor.
  pub record IsAbandoned (s : Statement d.Descriptor d.TrinoTy) : Type 0 where
    pub failed : s.fetch_failed ≡ true
    pub no_rows : s.batch ≡ []
    pub no_truncated : s.truncated_cells ≡ []
    pub rewound : s.batch_cursor ≡ 0
    pub no_pages : s.next_uri ≡ none

  -- What a round that returns an error leaves behind, unless it is a cancellation.
  abbrev Ends : Round × Machine d → Type 0
  Ends (return (ok r), m) = Unit
  Ends (return (err e), m) = is_cancellation e ≡ false → IsAbandoned m.0
  Ends (again, m) = m.0.online ≡ true

  end_page_fetch-IsAbandoned :
      (e : TrinoError) (s : Statement d.Descriptor d.TrinoTy)
      → is_cancellation e ≡ false
      → IsAbandoned (end_page_fetch e s)
  unfolding end_page_fetch abandon_result_set
  end_page_fetch-IsAbandoned e s h = record {
    failed = ground arith;
    no_rows = ground arith;
    no_truncated = ground arith;
    rewound = ground arith;
    no_pages = ground arith;
  }

  fail-Ends : (e : ClientError) (m : Machine d) → Ends (fail d e m)
  unfolding fail
  fail-Ends e (s, w) = end_page_fetch-IsAbandoned (statement_error e w).0 s

  decode_reply-Ends :
      (r : Result ClientError (List (List d.client.Json))) (m : Machine d)
      → m.0.online ≡ true
      → Ends (decode_reply d r m)
  unfolding decode_reply take_rows
  decode_reply-Ends (ok rows) m o = o
  decode_reply-Ends (err e) m o = fail-Ends e m

  receive-Ends :
      (r : Result ClientError (Page d.client.Payload)) (m : Machine d)
      → m.0.online ≡ true
      → Ends (receive d r m)
  unfolding receive decode
  receive-Ends (err e) m o = fail-Ends e m
  receive-Ends (ok page) (s, w) o = elim (Option-cases page.error) [
    | inl e ↦ simp e (decode_reply-Ends _ _ o)
    | inr (x, e) ↦ simp e (fail-Ends x (s, w))
  ]

  request-Ends : (url : Text) (m : Machine d) → m.0.online ≡ true → Ends (request d url m)
  unfolding request
  request-Ends url (s, w) o = simp o (receive-Ends _ _ refl)

  round-Ends : (m : Machine d) → m.0.online ≡ true → Ends (fetch_round d m)
  unfolding fetch_round cancelled_between_requests is_cancellation
  round-Ends (s, w) o = elim (Bool-cases (w.cancels s.token).cancelled) [
    | inl c ↦ simp (o, c) (λ h. cc)
    | inr c ↦ elim (Bool-cases (ltb s.batch_cursor (length s.batch))) [
      | inl b ↦ simp (o, c, b) tt
      | inr b ↦ elim (Option-cases s.next_uri) [
        | inl e ↦ simp (o, c, b, e) tt
        | inr (url, e) ↦ simp (o, c, b, e) (request-Ends url (s, w) o)
      ]
    ]
  ]

  continue-Ends :
      (x : Round × Machine d) (k : Machine d → Answer d) (e : TrinoError) {m' : Machine d}
      → Ends x
      → ((m : Machine d) → m.0.online ≡ true → k m ≡ some (err e, m') → IsAbandoned m'.0)
      → is_cancellation e ≡ false
      → continue_with d x k ≡ some (err e, m')
      → IsAbandoned m'.0
  unfolding continue_with
  continue-Ends (return (ok r), m) k e ends rest n h = cc
  continue-Ends (return (err e'), m) k e ends rest n h = ground arith
  continue-Ends (again, m) k e ends rest n h = rest m ends h

  loop-Ends :
      (fuel : ℕ) (m : Machine d) (e : TrinoError) {m' : Machine d}
      → m.0.online ≡ true
      → is_cancellation e ≡ false
      → fetch_loop d fuel m ≡ some (err e, m')
      → IsAbandoned m'.0
  unfolding fetch_loop
  loop-Ends zero m e o n h = cc
  loop-Ends (suc fuel) m e {m'} o n h =
      continue-Ends (fetch_round d m) (fetch_loop d fuel) e (round-Ends m o)
        (λ v o' h'. loop-Ends fuel v e {m' = m'} o' n h') n h

  -- After a fetch of a running statement that reports a failure, not a cancellation, every further
  -- fetch reports 24000 and changes nothing. Nothing is buffered and no page is left to ask for, and
  -- reading a column is the error of a read before the first fetch.
  pub fetch_after_failure :
      (fuel again_fuel col : ℕ) (m : Machine d) (e : TrinoError) {m' : Machine d}
      → m.0.online ≡ true
      → m.0.fetch_failed ≡ false
      → is_cancellation e ≡ false
      → fetch d fuel m ≡ some (err e, m')
      → (fetch d again_fuel m'
          ≡ some (err (odbc abandoned_result_set SqlState.invalid_cursor_state), m'))
        × IsAbandoned m'.0
        × (get_data (suc col) m'.0
            ≡ some (err (odbc get_data_before_fetch SqlState.general_error), m'.0))
  unfolding fetch get_data
  fetch_after_failure fuel again_fuel col m e {m'} o l n h =
      let gone = loop-Ends fuel m e {m' = m'} o n (simp l at h) in
      let failed = gone.failed in let rewound = gone.rewound in (ground arith, gone, ground arith)

  finish-cleared :
      (s : Statement d.Descriptor d.TrinoTy) (x : Closing d) {r : Result TrinoError (Unit {0})}
      {m' : Machine d}
      → finish d s x ≡ some (r, m')
      → m'.0 ≡ cleared d s
  unfolding finish
  finish-cleared s none h = cc
  finish-cleared s (some (none, w)) h = cc
  finish-cleared s (some (some e, w)) h = cc

  -- Whenever `close_cursor` returns, failed drain or not, the statement holds no rows, no next page
  -- and no query id, its cursor is before the first row, a failure is forgotten, and the prepared
  -- text is kept, so that the handle can run again.
  pub close_cursor_clears :
      (fuel : ℕ) (m : Machine d) {r : Result TrinoError (Unit {0})} {m' : Machine d}
      → close_cursor d fuel m ≡ some (r, m')
      → (m'.0.batch ≡ [])
        × (m'.0.batch_cursor ≡ 0)
        × (m'.0.next_uri ≡ none)
        × (m'.0.query_id ≡ none)
        × (m'.0.fetch_failed ≡ false)
        × (m'.0.pending_sql ≡ m.0.pending_sql)
  unfolding close_cursor cleared
  close_cursor_clears fuel (s, w) {r} {m'} h =
      rw (finish-cleared s _ {r = r} {m' = m'} h) (refl, refl, refl, refl, refl, refl)

  -- A statement whose query was cancelled, or whose transaction has ended, is closed without a
  -- request: the close succeeds at once, and the store is unchanged.
  pub close_cursor_skips :
      (fuel : ℕ) (s : Statement d.Descriptor d.TrinoTy) (w : Store d.client)
      → s.online ≡ true
      → ((w.cancels s.token).cancelled ≡ true) ⊎ (outlived s.txn_epoch w.txn ≡ true)
      → close_cursor d fuel (s, w) ≡ some (ok tt, (cleared d s, w))
  unfolding close_cursor finish
  close_cursor_skips fuel s w o h = ground arith
