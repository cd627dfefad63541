-- ===== src/Errors.antt =====
-- `TrinoError` of backend.rs and the SQLSTATEs that its conversion into core's `OdbcError` picks.
-- A diagnostic's wording is represented by which message it is; the codes are kept.
pub mod Mapping
pub mod Classes
use stackable_odbc_trino.Base.{ℕ, ℤ, List}
use stackable_odbc_trino.Base.Text.{Text}

-- The SQLSTATEs that the modelled paths use, by core's constructor names.
pub data SqlState : Type 0 where
  general_error invalid_cursor_state invalid_descriptor_index invalid_datetime_format : SqlState
  transaction_rolled_back communication_link_failure timeout_expired invalid_auth_spec : SqlState
  client_unable_to_establish_connection operation_canceled not_implemented_state : SqlState

pub data Message : Type 0 where
  not_enough_parameters : ℕ → ℕ → Message
  parameter_count_mismatch : ℕ → ℕ → Message
  unsupported_parameter : Message
  invalid_decimal : Text → Message
  invalid_date_value : Text → Message
  invalid_time_value : Text → Message
  abandoned_result_set no_client no_columns no_prepared_statement get_data_before_fetch : Message
  column_must_be_positive : Message
  column_range : ℕ → ℕ → Message
  rolled_back_transaction : Message
  retry_attempts : ℕ → Message
  invalid_port : Text → Message
  invalid_value not_name_value empty_name : Text → Text → Message
  same_setting proxy_credentials proxy_half_credentials proxy_missing no_root_certificate : Message
  certificate_without_tls : List Text → Message
  external_with_credentials external_without_tls external_without_prompt : Message
  password_and_token token_without_tls : Message
  plain : Text → Message

-- `QueryCause`: a transport failure, or a server-side rejection with its name and message.
pub data QueryCause : Type 0 where
  transport between_requests : QueryCause
  server : Text → Text → QueryCause

pub data TrinoError : Type 0 where
  general : Message → TrinoError
  missing_param : Text → TrinoError
  connection_failed : TrinoError → ℤ → TrinoError
  communication_link_failure : Message → TrinoError
  query_timeout : Message → TrinoError
  auth_failure : Message → TrinoError
  auth_config : Message → TrinoError
  query : QueryCause → ℤ → TrinoError
  operation_cancelled : QueryCause → ℤ → TrinoError
  odbc : Message → SqlState → TrinoError
  not_implemented runtime : Text → TrinoError
