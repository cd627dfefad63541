-- ===== src/Statement/Cancel.antt =====
-- `SQLCancel` against a fetch: what another thread's cancellation does to a running statement.
use stackable_odbc_trino.Base.{
  ℕ, suc, ◌≡◌, refl, ◌≢◌, sym, ap, ◌∙◌, true, false, ◌&&◌, [], none, some, inl, inr, Option-cases,
}
use stackable_odbc_trino.Base.Outcome.{Result, ok, err}
use stackable_odbc_trino.Base.Text.{Text}
use stackable_odbc_trino.Errors.Mapping.{ClientError, cancelled_between_requests}
use stackable_odbc_trino.Session.Client.{Client}
use stackable_odbc_trino.Session.Shared.{
  Store, set_at, set_at_same, set_at_other, cancel, cancel_query, cancel_reply, map_trino_error_on,
}
use stackable_odbc_trino.Statement.State.{Statement}
use stackable_odbc_trino.Statement.Fetch.{Driver, fetch, is_cancelled}
use stackable_odbc_trino.Statement.Endings.{fetch_cancelled}

module _ (c : Client) where
  -- The reply changes no cancel state.
  reply_keeps :
      (r : Result ClientError (Unit {0})) (w : Store c) → (cancel_reply r w).1.cancels ≡ w.cancels
  unfolding cancel_reply map_trino_error_on
  reply_keeps (ok u) w = refl
  reply_keeps (err e) w = refl

  -- A cancellation of a query in flight takes its id and sets the flag.
  cancel-cancels :
      (token : ℕ) (w : Store c) (id : Text)
      → (w.cancels token).query_id ≡ some id
      → (cancel token w).1.cancels
        ≡ set_at token (record { query_id = none; cancelled = true }) w.cancels
  unfolding cancel cancel_query
  cancel-cancels token w id e = simp e (reply_keeps (c.cancel id w.client).0 _)

  pub cancel_takes :
      (token : ℕ) (w : Store c) (id : Text)
      → (w.cancels token).query_id ≡ some id
      → ((cancel token w).1.cancels token).cancelled ≡ true
  cancel_takes token w id e =
      ap (λ f. (f token).cancelled) (cancel-cancels token w id e)
      ∙ ap (λ s. s.cancelled) (set_at_same token _ w.cancels)

  -- The state of every other token stays as it is.
  pub cancel_leaves :
      (token k : ℕ) (w : Store c) → k ≢ token → (cancel token w).1.cancels k ≡ w.cancels k
  unfolding cancel cancel_query
  cancel_leaves token k w n = elim (Option-cases (w.cancels token).query_id) [
    | inl e ↦ simp e refl
    | inr (id, e) ↦
        ap (λ f. f k) (unfold cancel cancel_query in cancel-cancels token w id e)
        ∙ set_at_other token _ w.cancels k n
  ]

module _ (d : Driver) where
  -- A running statement whose own query is cancelled, whether or not the coordinator accepts the
  -- request, reports HY008 from its next fetch, sends no request, and has no rows left. A
  -- cancellation on the token of another statement leaves its fetch to the state it had.
  pub cancel_stops_fetch :
      (fuel : ℕ) (s : Statement d.Descriptor d.TrinoTy) (w : Store d.client) (id : Text) (k : ℕ)
      → s.online ≡ true
      → s.fetch_failed ≡ false
      → (w.cancels s.token).query_id ≡ some id
      → k ≢ s.token
      → ((s' : Statement d.Descriptor d.TrinoTy) × (fetch d (suc fuel) (s, (cancel s.token w).1)
            ≡ some (err cancelled_between_requests, (s', (cancel s.token w).1)))
          × (s'.batch ≡ [])
          × (s'.next_uri ≡ none))
        × (is_cancelled d (s, (cancel k w).1) ≡ is_cancelled d (s, w))
  cancel_stops_fetch fuel s w id k o l e n =
      let (s', done, empty, _, stops, _) =
        fetch_cancelled d fuel s (cancel s.token w).1 o l (cancel_takes d.client s.token w id e) in
      (
        (s', done, empty, stops),
        ap (λ c. s.online && c.cancelled) (cancel_leaves d.client k s.token w (λ q. n (sym q))),
      )
