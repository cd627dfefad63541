-- ===== src/Errors/Classes.antt =====
-- Which client errors an application sees under which SQLSTATE.
use stackable_odbc_trino.Base.{
  ◌≡◌, refl, ◌≢◌, ◌↔◌, ◌⊎◌, inr, ℤ, pos, negsuc, Bool, true, false, arith,
}
use stackable_odbc_trino.Base.Text.{Text}
use stackable_odbc_trino.Errors.{SqlState}
use stackable_odbc_trino.Errors.Mapping.{
  ClientError, is_user_canceled, query_cause, map_trino_error, is_cancellation, note_liveness,
  to_odbc,
}

-- A rejection by the coordinator keeps the coordinator's own code as the native error, under HY008
-- if the code says that the query was cancelled, and under HY000 otherwise.
pub to_odbc-query :
    (code : ℤ) (name message : Text)
    → ((to_odbc (map_trino_error (ClientError.query code name message))).1 ≡ code)
      × (code ≡ pos 3
          → (to_odbc (map_trino_error (ClientError.query code name message))).0
            ≡ SqlState.operation_canceled)
      × (code ≢ pos 3
          → (to_odbc (map_trino_error (ClientError.query code name message))).0
            ≡ SqlState.general_error)
unfolding to_odbc map_trino_error query_cause is_user_canceled
to_odbc-query (pos n) name message = ground arith
to_odbc-query (negsuc n) name message = ground arith

-- Only the coordinator's code for a cancelled query counts as a cancellation.
pub map_trino_error_cancels :
    (e : ClientError)
    → is_cancellation (map_trino_error e) ≡ true
    → (name : Text) × (message : Text) × (e ≡ ClientError.query (pos 3) name message)
unfolding is_cancellation map_trino_error query_cause is_user_canceled
map_trino_error_cancels (ClientError.query (pos n) name message) h = (name, message, ground arith)
map_trino_error_cancels (ClientError.query (negsuc n) name message) h = ground arith
map_trino_error_cancels (ClientError.http_error c t text) h = ground arith
map_trino_error_cancels (ClientError.http_not_ok status reason) h = ground arith
map_trino_error_cancels (ClientError.forbidden m) h = cc
map_trino_error_cancels (ClientError.oauth2 m) h = cc
map_trino_error_cancels (ClientError.transaction m) h = cc
map_trino_error_cancels (ClientError.reach_max_attempt n) h = cc
map_trino_error_cancels ClientError.other h = cc

-- A live connection is marked dead by no client error but a failure to connect; one that is dead
-- stays dead.
pub note_liveness_iff :
    (dead : Bool) (e : ClientError)
    → (note_liveness dead (map_trino_error e) ≡ true)
      ↔ ((dead ≡ true) ⊎ ((t : Bool) × (text : Text) × (e ≡ ClientError.http_error true t text)))
unfolding note_liveness map_trino_error query_cause is_user_canceled
note_liveness_iff dead (ClientError.query (pos n) name message) = ground arith
note_liveness_iff dead (ClientError.query (negsuc n) name message) = ground arith
note_liveness_iff dead (ClientError.http_error true t text) = (λ h. inr (t, text, refl), λ h. refl)
note_liveness_iff dead (ClientError.http_error false t text) = ground arith
note_liveness_iff dead (ClientError.http_not_ok status reason) = ground arith
note_liveness_iff dead (ClientError.forbidden m) = ground arith
note_liveness_iff dead (ClientError.oauth2 m) = ground arith
note_liveness_iff dead (ClientError.transaction m) = ground arith
note_liveness_iff dead (ClientError.reach_max_attempt n) = ground arith
note_liveness_iff dead ClientError.other = ground arith
