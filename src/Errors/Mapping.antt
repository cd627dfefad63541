-- ===== src/Errors/Mapping.antt =====
-- backend.rs: the classification of the HTTP client's errors (`query_cause`, `map_trino_error`,
-- `Liveness::note`) and the conversion into core's error (`From<TrinoError> for OdbcError`).
use stackable_odbc_trino.Base.{ℕ, ℤ, pos, negsuc, Bool, true, false, ◌||◌, ◌==◌, if◌then◌else◌}
use stackable_odbc_trino.Base.Text.{Text}
use stackable_odbc_trino.Errors.{
  TrinoError, SqlState, Message, plain, QueryCause, transport, server, general,
}

-- The errors of the trino-rust-client crate, as far as the driver tells them apart: a server-side
-- rejection with its code, name and message; an HTTP error with reqwest's `is_connect`,
-- `is_timeout` and its flattened text; and the rest by their variants.
pub data ClientError : Type 0 where
  query : ℤ → Text → Text → ClientError
  http_error : Bool → Bool → Text → ClientError
  http_not_ok : ℕ → Text → ClientError
  forbidden oauth2 transaction : Text → ClientError
  reach_max_attempt : ℕ → ClientError
  other : ClientError

abbrev pub user_canceled_code : ℤ
user_canceled_code = pos 3

-- `query_error.error_code == TRINO_ERROR_USER_CANCELED`
unfoldable pub is_user_canceled : ℤ → Bool
is_user_canceled (pos n) = n == 3
is_user_canceled (negsuc n) = false

-- The cause and the native code of an error that carries one.
unfoldable pub query_cause : ClientError → QueryCause × ℤ
query_cause (ClientError.query code name message) = (server name message, code)
query_cause _ = (transport, pos 0)

-- The arm for everything that is not classified.
abbrev pub unclassified : ClientError → TrinoError
unclassified e = let (cause, native) = query_cause e in TrinoError.query cause native

unfoldable pub map_trino_error : ClientError → TrinoError
unfolding query_cause is_user_canceled
map_trino_error (ClientError.query code name message) =
    let (cause, native) = query_cause (ClientError.query code name message) in
    if is_user_canceled code
    then TrinoError.operation_cancelled cause native
    else TrinoError.query cause native
map_trino_error (ClientError.http_error is_connect is_timeout text) =
    if is_connect
    then TrinoError.communication_link_failure (plain text)
    else if is_timeout
    then TrinoError.query_timeout (plain text)
    else unclassified (ClientError.http_error is_connect is_timeout text)
map_trino_error (ClientError.http_not_ok status reason) =
    if (status == 401) || (status == 403)
    then TrinoError.auth_failure (plain reason)
    else unclassified (ClientError.http_not_ok status reason)
map_trino_error (ClientError.forbidden message) = TrinoError.auth_failure (plain message)
map_trino_error (ClientError.oauth2 message) = TrinoError.auth_failure (plain message)
map_trino_error (ClientError.reach_max_attempt n) =
    TrinoError.query_timeout (Message.retry_attempts n)
map_trino_error (ClientError.transaction message) = general (plain message)
map_trino_error ClientError.other = unclassified ClientError.other

-- `cancelled_between_requests`
unfoldable pub cancelled_between_requests : TrinoError
cancelled_between_requests =
    TrinoError.operation_cancelled (QueryCause.between_requests) user_canceled_code

unfoldable pub is_cancellation : TrinoError → Bool
is_cancellation (TrinoError.operation_cancelled cause native) = true
is_cancellation _ = false

-- `Liveness::note`: only a lost link marks the connection dead.
unfoldable pub note_liveness : Bool → TrinoError → Bool
note_liveness dead (TrinoError.communication_link_failure m) = true
note_liveness dead _ = dead

-- The SQLSTATE and the native code that the diagnostic record carries.
unfoldable pub to_odbc : TrinoError → SqlState × ℤ
to_odbc (TrinoError.odbc message state) = (state, pos 0)
to_odbc (TrinoError.query cause native) = (SqlState.general_error, native)
to_odbc (TrinoError.communication_link_failure m) = (SqlState.communication_link_failure, pos 0)
to_odbc (TrinoError.query_timeout m) = (SqlState.timeout_expired, pos 0)
to_odbc (TrinoError.auth_failure m) = (SqlState.invalid_auth_spec, pos 0)
to_odbc (TrinoError.auth_config m) = (SqlState.invalid_auth_spec, pos 0)
to_odbc (TrinoError.operation_cancelled cause native) = (SqlState.operation_canceled, native)
to_odbc (TrinoError.connection_failed source native) =
    (SqlState.client_unable_to_establish_connection, native)
to_odbc (TrinoError.missing_param name) = (SqlState.general_error, pos 0)
to_odbc (TrinoError.general m) = (SqlState.general_error, pos 0)
to_odbc (TrinoError.not_implemented what) = (SqlState.not_implemented_state, pos 0)
to_odbc (TrinoError.runtime source) = (SqlState.general_error, pos 0)
