-- ===== src/Connect/Params.antt =====
-- `TrinoConnectParams` and its `TryFrom<&ConnectParams>`.
use stackable_odbc_trino.Base.{ℕ, Bool, List, ◌++◌, Option, map}
use stackable_odbc_trino.Base.Outcome.{Result, ok, ◌>>=◌}
use stackable_odbc_trino.Base.Text.{Text, codes}
use stackable_odbc_trino.Base.Text.Case.{lower}
use stackable_odbc_trino.Base.Text.Parts.{or_else}
use stackable_odbc_trino.Errors.{TrinoError}
use stackable_odbc_trino.Connect.Keywords.{
  key, ConnectParams, Crates, param_access_token, param_catalog, param_client_capabilities,
  param_client_info, param_client_tags, param_disable_compression, param_encoding,
  param_external_auth_timeout, param_extra_credentials, param_extra_headers, param_locale,
  param_login_timeout, param_max_attempts, param_path, param_query_timeout,
  param_resource_estimates, param_roles, param_schema, param_session_properties, param_session_user,
  param_source, param_time_zone, param_token, param_trace_token,
}
use stackable_odbc_trino.Connect.Values.{invalid, TlsVerification, SelectedRole, selected_role}
use stackable_odbc_trino.Connect.Pairs.{HashMap}
use stackable_odbc_trino.Connect.Stages.{
  ok_or, optional, read_flag, Identity, read_identity, Transport, read_transport, read_map, Proxy,
  read_proxy, read_auth_timeout, read_attempts, timeout_key, read_query_timeout, read_set,
  read_source,
}

module _ (x : Crates) where
  -- The durations are in seconds.
  pub record TrinoConnectParams : Type 0 where
    pub host : Text
    pub port : ℕ
    pub user : Option Text
    pub password : Option Text
    pub access_token : Option Text
    pub secure : Bool
    pub tls_verification : TlsVerification
    pub certificate : Option Text
    pub client_certificate : Option Text
    pub query_timeout : ℕ
    pub catalog : Option Text
    pub schema : Option Text
    pub source : Text
    pub client_tags : List Text
    pub session_properties : HashMap
    pub extra_credentials : HashMap
    pub resource_estimates : HashMap
    pub path : Option Text
    pub client_info : Option Text
    pub trace_token : Option Text
    pub session_user : Option Text
    pub locale : Option Text
    pub roles : List (Text × SelectedRole)
    pub time_zone : Option x.Tz
    pub extra_headers : HashMap
    pub client_capabilities : List Text
    pub proxy : Option Text
    pub proxy_user : Option Text
    pub proxy_password : Option Text
    pub external_authentication : Bool
    pub external_auth_timeout : ℕ
    pub compression_disabled : Bool
    pub max_attempts : Option ℕ
    pub spooling_encoding : Option x.SpoolingEncoding

  unfoldable pub default_source : Text
  default_source = codes "stackable-odbc-trino/" ++ x.version

  unfoldable pub read_time_zone : Text → Result TrinoError x.Tz
  read_time_zone raw = ok_or (invalid param_time_zone raw) (x.parse_tz raw)

  unfoldable pub read_encoding : Text → Result TrinoError x.SpoolingEncoding
  read_encoding raw = ok_or (invalid param_encoding raw) (x.parse_encoding (lower raw))

  -- What stands behind the proxy: the estimates, the roles, and the single values.
  pub record Tuning : Type 0 where
    pub estimates : HashMap
    pub roles : HashMap
    pub time_zone : Option x.Tz
    pub compression_disabled : Bool
    pub encoding : Option x.SpoolingEncoding
    pub auth_timeout : ℕ
    pub attempts : Option ℕ
    pub timeout : ℕ

  unfoldable pub read_tuning : ConnectParams → Result TrinoError Tuning
  read_tuning params = read_map params param_resource_estimates >>= λ estimates.
      read_map params param_roles >>= λ roles.
      optional read_time_zone (params.get (key param_time_zone)) >>= λ zone.
      read_flag param_disable_compression (params.get (key param_disable_compression)) >>= λ plain.
      optional read_encoding (params.get (key param_encoding)) >>= λ encoding.
      read_auth_timeout (params.get (key param_external_auth_timeout)) >>= λ login.
      read_attempts (params.get (key param_max_attempts)) >>= λ attempts.
      read_query_timeout
        (timeout_key (params.get (key param_query_timeout)) (params.get (key param_login_timeout)))
      >>= λ timeout. ok (record {
        estimates = estimates;
        roles = roles;
        time_zone = zone;
        compression_disabled = plain;
        encoding = encoding;
        auth_timeout = login;
        attempts = attempts;
        timeout = timeout;
      })

  -- The record, from what the steps have read.
  unfoldable pub assemble :
      ConnectParams
      → Identity
      → Transport
      → HashMap
      → HashMap
      → HashMap
      → Proxy
      → Tuning
      → TrinoConnectParams
  assemble params i t properties credentials headers p u = record {
    host = i.host;
    port = i.port;
    user = i.user;
    password = params.password;
    access_token = or_else (params.get (key param_access_token)) (params.get (key param_token));
    secure = t.secure;
    tls_verification = t.tls_verification;
    certificate = t.certificate;
    client_certificate = t.client_certificate;
    query_timeout = u.timeout;
    catalog = params.get (key param_catalog);
    schema = params.get (key param_schema);
    source = read_source default_source (params.get (key param_source));
    client_tags = read_set (params.get (key param_client_tags));
    session_properties = properties;
    extra_credentials = credentials;
    resource_estimates = u.estimates;
    path = params.get (key param_path);
    client_info = params.get (key param_client_info);
    trace_token = params.get (key param_trace_token);
    session_user = params.get (key param_session_user);
    locale = params.get (key param_locale);
    roles = map (λ (catalog, value). (catalog, selected_role value)) u.roles;
    time_zone = u.time_zone;
    extra_headers = headers;
    client_capabilities = read_set (params.get (key param_client_capabilities));
    proxy = p.url;
    proxy_user = p.user;
    proxy_password = p.password;
    external_authentication = i.external;
    external_auth_timeout = u.auth_timeout;
    compression_disabled = u.compression_disabled;
    max_attempts = u.attempts;
    spooling_encoding = u.encoding;
  }

  unfoldable pub try_from : ConnectParams → Result TrinoError TrinoConnectParams
  try_from params = read_identity params >>= λ i. read_transport params >>= λ t.
      read_map params param_session_properties >>= λ properties.
      read_map params param_extra_credentials >>= λ credentials.
      read_map params param_extra_headers >>= λ headers. read_proxy params >>= λ p.
      read_tuning params >>= λ u. ok (assemble params i t properties credentials headers p u)
