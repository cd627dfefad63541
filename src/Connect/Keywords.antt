-- ===== src/Connect/Keywords.antt =====
-- The connection keywords, and core's `ConnectParams` as this file asks it.
use stackable_odbc_trino.Base.{Option}
use stackable_odbc_trino.Base.Text.{Text, codes}

-- The constants `PARAM_*`.
pub data Keyword : Type 0 where
  param_host param_port param_protocol param_tls_verify param_ssl_verification : Keyword
  param_certificate param_client_certificate param_query_timeout param_login_timeout : Keyword
  param_catalog param_schema param_source param_client_tags param_access_token param_token : Keyword
  param_session_properties param_extra_credentials param_resource_estimates param_path : Keyword
  param_client_info param_trace_token param_proxy param_proxy_user param_proxy_password : Keyword
  param_extra_headers param_client_capabilities param_time_zone param_roles : Keyword
  param_session_user param_locale param_disable_compression param_max_attempts : Keyword
  param_encoding param_external_authentication param_external_auth_timeout : Keyword

-- Their values.
unfoldable pub key : Keyword → Text
key param_host = codes "host"
key param_port = codes "port"
key param_protocol = codes "protocol"
key param_tls_verify = codes "tlsverify"
key param_ssl_verification = codes "sslverification"
key param_certificate = codes "certificate"
key param_client_certificate = codes "clientcertificate"
key param_query_timeout = codes "querytimeout"
key param_login_timeout = codes "logintimeout"
key param_catalog = codes "catalog"
key param_schema = codes "schema"
key param_source = codes "source"
key param_client_tags = codes "clienttags"
key param_access_token = codes "accesstoken"
key param_token = codes "token"
key param_session_properties = codes "sessionproperties"
key param_extra_credentials = codes "extracredentials"
key param_resource_estimates = codes "resourceestimates"
key param_path = codes "path"
key param_client_info = codes "clientinfo"
key param_trace_token = codes "tracetoken"
key param_proxy = codes "proxy"
key param_proxy_user = codes "proxyuser"
key param_proxy_password = codes "proxypassword"
key param_extra_headers = codes "extraheaders"
key param_client_capabilities = codes "clientcapabilities"
key param_time_zone = codes "timezone"
key param_roles = codes "roles"
key param_session_user = codes "sessionuser"
key param_locale = codes "locale"
key param_disable_compression = codes "disablecompression"
key param_max_attempts = codes "maxattempts"
key param_encoding = codes "encoding"
key param_external_authentication = codes "externalauthentication"
key param_external_auth_timeout = codes "externalauthenticationtimeout"

-- Core's parsed connection string: the value of a keyword, the user if there is one, the password.
pub record ConnectParams : Type 0 where
  pub get : Text → Option Text
  pub user : Option Text
  pub password : Option Text

-- The types of other crates that a value is parsed into, and the crate's version, which the build
-- puts in.
pub record Crates : Type 1 where
  pub Tz : Type 0
  pub parse_tz : Text → Option Tz
  pub SpoolingEncoding : Type 0
  pub parse_encoding : Text → Option SpoolingEncoding
  pub version : Text
