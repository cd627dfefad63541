-- ===== src/Connect/Validation.antt =====
-- Under which SQLSTATE a connection fails to open (`validate_connection` of backend.rs).
use stackable_odbc_trino.Base.{◌≡◌, ◌≢◌, ◌⊎◌, ◌↔◌, ℤ, pos, negsuc, true, false, arith}
use stackable_odbc_trino.Base.Outcome.{err}
use stackable_odbc_trino.Errors.{TrinoError, SqlState}
use stackable_odbc_trino.Errors.Mapping.{
  ClientError, is_user_canceled, query_cause, map_trino_error, to_odbc,
}
use stackable_odbc_trino.Connect.Auth.{native_of, connection_failed, validate_connection}

-- The client's errors that say that the login was refused.
pub IsRefused : ClientError → Type 0
IsRefused (ClientError.http_not_ok status reason) = (status ≡ 401) ⊎ (status ≡ 403)
IsRefused (ClientError.forbidden m) = Unit
IsRefused (ClientError.oauth2 m) = Unit
IsRefused _ = ⊥

-- The client's errors that say that the time was over, the link being there.
pub IsExpired : ClientError → Type 0
IsExpired (ClientError.http_error is_connect is_timeout text) =
    (is_connect ≡ false) × (is_timeout ≡ true)
IsExpired (ClientError.reach_max_attempt n) = Unit
IsExpired _ = ⊥

-- The coordinator's code, which only a rejected query has.
unfoldable pub code_of : ClientError → ℤ
code_of (ClientError.query code name message) = code
code_of _ = pos 0

-- A connection whose validation fails with an error of the client reports a refused authentication
-- exactly if the client says that the login was refused, a timeout exactly if it says that the time
-- was over, and in every other case, a lost link among them, that no connection can be established.
-- The coordinator's code is kept, unless it is the code of a cancelled query: then it is reported as 0.
pub validate_connection-to_odbc :
    (c : ClientError) (e : TrinoError)
    → validate_connection {A = Unit {0}} (err (map_trino_error c)) ≡ err e
    → (((to_odbc e).0 ≡ SqlState.invalid_auth_spec) ↔ IsRefused c)
      × (((to_odbc e).0 ≡ SqlState.timeout_expired) ↔ IsExpired c)
      × (IsRefused c
          ⊎ IsExpired c
          ⊎ ((to_odbc e).0 ≡ SqlState.client_unable_to_establish_connection))
      × ((code_of c ≢ pos 3) × ((to_odbc e).1 ≡ code_of c)
          ⊎ (code_of c ≡ pos 3) × ((to_odbc e).1 ≡ pos 0))
unfolding validate_connection to_odbc connection_failed native_of map_trino_error query_cause
    is_user_canceled code_of IsRefused IsExpired
validate_connection-to_odbc (ClientError.query (pos n) name message) e h = ground arith
validate_connection-to_odbc (ClientError.query (negsuc n) name message) e h = ground arith
validate_connection-to_odbc (ClientError.http_error true t text) e h = ground arith
validate_connection-to_odbc (ClientError.http_error false true text) e h = ground arith
validate_connection-to_odbc (ClientError.http_error false false text) e h = ground arith
validate_connection-to_odbc (ClientError.http_not_ok status reason) e h = ground arith
validate_connection-to_odbc (ClientError.forbidden m) e h = ground arith
validate_connection-to_odbc (ClientError.oauth2 m) e h = ground arith
validate_connection-to_odbc (ClientError.transaction m) e h = ground arith
validate_connection-to_odbc (ClientError.reach_max_attempt n) e h = ground arith
validate_connection-to_odbc ClientError.other e h = ground arith
