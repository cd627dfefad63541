-- ===== src/Connect/Tests.antt =====
-- Connection strings, and the theorems on connecting applied to them.
use stackable_odbc_trino.Base.{
  ◌≡◌, ◌≢◌, refl, ◌↔◌, ◌⊎◌, true, false, List, [], ◌∷◌, Option, none, some, arith, pos, All,
  if◌then◌else◌,
}
use stackable_odbc_trino.Base.Outcome.{ok}
use stackable_odbc_trino.Base.Text.{
  Text, codes, eq_text, is_empty, parse_unsigned, parse_digits, all_digits,
}
use stackable_odbc_trino.Base.Text.Space.{trim, trim_start, trim_end, is_whitespace}
use stackable_odbc_trino.Base.Text.Case.{lower, eq_ignore_ascii_case}
use stackable_odbc_trino.Errors.{TrinoError, SqlState}
use stackable_odbc_trino.Errors.Mapping.{
  ClientError, map_trino_error, query_cause, is_user_canceled, to_odbc,
}
use stackable_odbc_trino.Connect.Keywords.{
  key, ConnectParams, Crates, param_host, param_port, param_protocol, param_tls_verify,
  param_ssl_verification, param_session_properties,
}
use stackable_odbc_trino.Connect.Values.{TlsVerification, parse_one, parse_tls_verification}
use stackable_odbc_trino.Connect.Pairs.{HashMap, lookup, parse_key_value_pairs}
use stackable_odbc_trino.Connect.Stages.{
  optional, read_user, read_flag, read_identity, read_protocol, named_certificates, check_plain,
  check_root, read_transport, read_map, check_proxy, read_proxy, read_auth_timeout, read_attempts,
  timeout_key, read_query_timeout, read_set, read_source,
}
use stackable_odbc_trino.Connect.Params.{
  TrinoConnectParams, default_source, read_tuning, assemble, try_from,
}
use stackable_odbc_trino.Connect.Accepted.{IsConsistent, try_from-IsConsistent}
use stackable_odbc_trino.Connect.Protection.{TurnedOff, AskedPlain, try_from_protected}
use stackable_odbc_trino.Connect.PairText.{
  IsPair, pairs_text, last_value, parse_key_value_pairs-pairs_text,
}
use stackable_odbc_trino.Connect.Auth.{
  OAuth2Key, Logins, login_of, oauth2_auth, Auth, native_of, connection_failed, validate_connection,
}
use stackable_odbc_trino.Connect.Logins.{IsValid, after_all, oauth2_auth_shares}
use stackable_odbc_trino.Connect.Validation.{
  IsRefused, IsExpired, code_of, validate_connection-to_odbc,
}

-- Every name is a zone and an encoding.
abbrev crates : Crates
crates = record {
  Tz = Text;
  parse_tz = λ t. some t;
  SpoolingEncoding = Text;
  parse_encoding = λ t. some t;
  version = codes "1";
}

-- A connection string with a host, a port and two keywords about its protection.
unfoldable given : Text → Option Text
unfolding eq_text key
given k =
    if eq_text k (key param_host)
    then some (codes "trino")
    else if eq_text k (key param_port)
    then some (codes "8443")
    else if eq_text k (key param_protocol)
    then some (codes "HTTPS")
    else if eq_text k (key param_tls_verify)
    then some (codes "false")
    else none

abbrev params : ConnectParams
params = record { get = given; user = some (codes "ada"); password = none }

abbrev accepted : TrinoConnectParams crates
accepted = record {
  host = codes "trino";
  port = 8443;
  user = some (codes "ada");
  password = none;
  access_token = none;
  secure = true;
  tls_verification = TlsVerification.no_verification;
  certificate = none;
  client_certificate = none;
  query_timeout = 30;
  catalog = none;
  schema = none;
  source = codes "stackable-odbc-trino/1";
  client_tags = [];
  session_properties = [];
  extra_credentials = [];
  resource_estimates = [];
  path = none;
  client_info = none;
  trace_token = none;
  session_user = none;
  locale = none;
  roles = [];
  time_zone = none;
  extra_headers = [];
  client_capabilities = [];
  proxy = none;
  proxy_user = none;
  proxy_password = none;
  external_authentication = false;
  external_auth_timeout = 300;
  compression_disabled = false;
  max_attempts = none;
  spooling_encoding = none;
}

params-try_from : try_from crates params ≡ ok accepted
unfolding try_from assemble read_identity read_user read_flag read_transport read_protocol
    named_certificates check_plain check_root read_map read_proxy check_proxy optional read_tuning
    read_auth_timeout read_attempts timeout_key read_query_timeout read_set read_source
    default_source parse_tls_verification parse_one eq_ignore_ascii_case lower eq_text given key
    parse_unsigned parse_digits all_digits
params-try_from = refl

try_from-IsConsistent_example : IsConsistent crates accepted
try_from-IsConsistent_example = try_from-IsConsistent crates params {c = accepted} params-try_from

try_from_protected_example :
    (accepted.secure ≡ false → AskedPlain (params.get (key param_protocol)))
    × (accepted.tls_verification ≡ TlsVerification.no_verification
        → TurnedOff (params.get (key param_tls_verify)) (params.get (key param_ssl_verification)))
try_from_protected_example = try_from_protected crates params {c = accepted} params-try_from

abbrev pair_1 : Text × Text
pair_1 = (codes "a", codes "1")

pair_1-IsPair : IsPair pair_1
unfolding trim trim_start trim_end is_whitespace is_empty
pair_1-IsPair = record {
  name_ends = omega arith;
  name_colon = omega arith;
  name_trimmed = refl;
  name_nonempty = refl;
  value_ends = omega arith;
  value_trimmed = refl;
}

abbrev pair_2 : Text × Text
pair_2 = (codes "b", codes "x:y")

pair_2-IsPair : IsPair pair_2
unfolding trim trim_start trim_end is_whitespace is_empty
pair_2-IsPair = record {
  name_ends = omega arith;
  name_colon = omega arith;
  name_trimmed = refl;
  name_nonempty = refl;
  value_ends = omega arith;
  value_trimmed = refl;
}

abbrev pair_3 : Text × Text
pair_3 = (codes "a", codes "2")

pair_3-IsPair : IsPair pair_3
unfolding trim trim_start trim_end is_whitespace is_empty
pair_3-IsPair = record {
  name_ends = omega arith;
  name_colon = omega arith;
  name_trimmed = refl;
  name_nonempty = refl;
  value_ends = omega arith;
  value_trimmed = refl;
}

abbrev pairs : List (Text × Text)
pairs = pair_1 ∷ pair_2 ∷ pair_3 ∷ []

pairs-IsPair : All IsPair pairs
pairs-IsPair = (pair_1-IsPair, (pair_2-IsPair, (pair_3-IsPair, tt)))

parse_key_value_pairs-pairs_text_example :
    (m : HashMap) × (parse_key_value_pairs param_session_properties (pairs_text pairs) ≡ ok m)
    × ((name : Text) → lookup name m ≡ last_value name pairs none)
parse_key_value_pairs-pairs_text_example =
    parse_key_value_pairs-pairs_text param_session_properties pairs pairs-IsPair

abbrev no_logins : Logins
no_logins = record { known = []; next = 0 }

no_logins-IsValid : IsValid no_logins
unfolding login_of
no_logins-IsValid = record { unused = λ k id h. cc; distinct = λ k l id h g. cc }

abbrev anybody : OAuth2Key
anybody = record { secure = true; host = codes "trino"; port = 8443; user = none }

abbrev ada : OAuth2Key
ada = record anybody { user = some (codes "ada") }

oauth2_auth_shares_example :
    ((oauth2_auth anybody no_logins).0
      ≡ (oauth2_auth anybody (after_all (ada ∷ []) (oauth2_auth anybody no_logins).1)).0)
    ↔ (anybody ≡ anybody)
oauth2_auth_shares_example =
    oauth2_auth_shares no_logins anybody anybody (ada ∷ []) no_logins-IsValid

abbrev basic : Option Auth
basic = some (Auth.basic_login (codes "ada") none)

abbrev refused : ClientError
refused = ClientError.query (pos 57) [] []

abbrev refused_connection : TrinoError
refused_connection = TrinoError.connection_failed (map_trino_error refused) (pos 57)

validate_connection-to_odbc_example :
    (((to_odbc refused_connection).0 ≡ SqlState.invalid_auth_spec) ↔ IsRefused refused)
    × (((to_odbc refused_connection).0 ≡ SqlState.timeout_expired) ↔ IsExpired refused)
    × (IsRefused refused
        ⊎ IsExpired refused
        ⊎ ((to_odbc refused_connection).0 ≡ SqlState.client_unable_to_establish_connection))
    × ((code_of refused ≢ pos 3) × ((to_odbc refused_connection).1 ≡ code_of refused)
        ⊎ (code_of refused ≡ pos 3) × ((to_odbc refused_connection).1 ≡ pos 0))
unfolding validate_connection connection_failed native_of map_trino_error query_cause
    is_user_canceled
validate_connection-to_odbc_example = validate_connection-to_odbc refused refused_connection refl
