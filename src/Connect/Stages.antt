-- ===== src/Connect/Stages.antt =====
-- The steps of `TrinoConnectParams::try_from`, in its order, up to the record that it returns.
use stackable_odbc_trino.Base.{
  ℕ, zero, suc, Bool, true, false, List, [], ◌∷◌, Option, none, some, if◌then◌else◌,
}
use stackable_odbc_trino.Base.Outcome.{Result, ok, err, ◌>>=◌, ◌>>◌}
use stackable_odbc_trino.Base.Fallible.{get_or}
use stackable_odbc_trino.Base.Text.{Text, codes, eq_text, is_empty, parse_unsigned}
use stackable_odbc_trino.Base.Text.Space.{trim}
use stackable_odbc_trino.Base.Text.Case.{eq_ignore_ascii_case}
use stackable_odbc_trino.Base.Text.Parts.{split}
use stackable_odbc_trino.Errors.{TrinoError, Message, general, missing_param}
use stackable_odbc_trino.Connect.Keywords.{
  Keyword, key, ConnectParams, param_certificate, param_client_certificate,
  param_external_auth_timeout, param_external_authentication, param_host, param_login_timeout,
  param_max_attempts, param_port, param_protocol, param_proxy, param_proxy_password,
  param_proxy_user, param_query_timeout, param_ssl_verification, param_tls_verify,
}
use stackable_odbc_trino.Connect.Values.{
  invalid, parse_bool, TlsVerification, parse_tls_verification, proxy_url,
}
use stackable_odbc_trino.Connect.Pairs.{HashMap, parse_key_value_pairs}

abbrev pub is_some {ℓ} : {A : Type ℓ} → Option A → Bool
is_some none = false
is_some (some a) = true

abbrev pub ok_or : {A : Type 0} {E : Type 0} → E → Option A → Result E A
ok_or e none = err e
ok_or e (some a) = ok a

-- A value that is absent, or is read and may be refused.
unfoldable pub optional :
    {A : Type 0} → (Text → Result TrinoError A) → Option Text → Result TrinoError (Option A)
optional parse none = ok none
optional parse (some raw) = parse raw >>= λ a. ok (some a)

-- The host with the port, and the user.
pub record Identity : Type 0 where
  pub host : Text
  pub port : ℕ
  pub external : Bool
  pub user : Option Text

unfoldable pub read_user : Bool → Option Text → Result TrinoError (Option Text)
read_user external (some u) = ok (some u)
read_user true none = ok none
read_user false none = err (missing_param (codes "user"))

unfoldable pub read_flag : Keyword → Option Text → Result TrinoError Bool
read_flag k none = ok false
read_flag k (some v) = parse_bool k v

unfoldable pub read_identity : ConnectParams → Result TrinoError Identity
read_identity params =
    ok_or (missing_param (key param_host)) (params.get (key param_host)) >>= λ host.
    ok_or (missing_param (key param_port)) (params.get (key param_port)) >>= λ text.
    ok_or (general (Message.invalid_port text)) (parse_unsigned 65535 text) >>= λ port.
    read_flag param_external_authentication (params.get (key param_external_authentication))
    >>= λ external. read_user external params.user >>= λ user.
        ok (record { host = host; port = port; external = external; user = user })

-- The protocol with what TLS needs.
pub record Transport : Type 0 where
  pub secure : Bool
  pub tls_verification : TlsVerification
  pub certificate : Option Text
  pub client_certificate : Option Text

unfoldable pub read_protocol : Text → Result TrinoError Bool
read_protocol v =
    if eq_ignore_ascii_case v (codes "https")
    then ok true
    else if eq_ignore_ascii_case v (codes "http")
    then ok false
    else err (invalid param_protocol v)

-- The certificate keywords that are set.
unfoldable pub named_certificates : Option Text → Option Text → List Text
named_certificates none none = []
named_certificates (some c) none = key param_certificate ∷ []
named_certificates none (some c) = key param_client_certificate ∷ []
named_certificates (some c) (some d) = key param_certificate ∷ key param_client_certificate ∷ []

unfoldable pub check_plain : Bool → List Text → Result TrinoError (Unit {0})
check_plain true names = ok tt
check_plain false [] = ok tt
check_plain false (name ∷ names) = err (general (Message.certificate_without_tls (name ∷ names)))

-- `CaOnly` needs a root certificate.
unfoldable pub check_root : TlsVerification → Option Text → Result TrinoError (Unit {0})
check_root TlsVerification.ca_only none = err (general Message.no_root_certificate)
check_root _ _ = ok tt

unfoldable pub read_transport : ConnectParams → Result TrinoError Transport
read_transport params =
    let root = params.get (key param_certificate) in
    let client = params.get (key param_client_certificate) in
    read_protocol (get_or (params.get (key param_protocol)) (codes "https")) >>= λ secure.
    parse_tls_verification (params.get (key param_tls_verify))
      (params.get (key param_ssl_verification))
    >>= λ tls.
        check_plain secure (named_certificates root client)
        >> check_root tls root
        >> ok (record {
          secure = secure;
          tls_verification = tls;
          certificate = root;
          client_certificate = client;
        })

unfoldable pub read_map : ConnectParams → Keyword → Result TrinoError HashMap
read_map params k = elim (params.get (key k)) [
  | none ↦ ok []
  | some raw ↦ parse_key_value_pairs k raw
]

-- The proxy with its credentials.
pub record Proxy : Type 0 where
  pub url : Option Text
  pub user : Option Text
  pub password : Option Text

unfoldable pub check_proxy : Option Text → Option Text → Option Text → Result TrinoError (Unit {0})
check_proxy url (some u) none = err (general Message.proxy_half_credentials)
check_proxy url none (some w) = err (general Message.proxy_half_credentials)
check_proxy none (some u) (some w) = err (general Message.proxy_missing)
check_proxy (some p) (some u) (some w) = ok tt
check_proxy url none none = ok tt

unfoldable pub read_proxy : ConnectParams → Result TrinoError Proxy
read_proxy params =
    let user = params.get (key param_proxy_user) in
    let password = params.get (key param_proxy_password) in
    optional proxy_url (params.get (key param_proxy)) >>= λ url.
    check_proxy url user password >> ok (record { url = url; user = user; password = password })

-- A number that may not be zero.
unfoldable pub positive : Keyword → Text → Option ℕ → Result TrinoError ℕ
positive k raw none = err (invalid k raw)
positive k raw (some zero) = err (invalid k raw)
positive k raw (some (suc n)) = ok (suc n)

abbrev pub u64_max : ℕ
u64_max = 18446744073709551615

abbrev pub default_external_auth_timeout_secs : ℕ
default_external_auth_timeout_secs = 300

abbrev pub default_query_timeout_secs : ℕ
default_query_timeout_secs = 30

-- `ExternalAuthenticationTimeout` and `MaxAttempts`; `usize` has 64 bits.
unfoldable pub read_auth_timeout : Option Text → Result TrinoError ℕ
read_auth_timeout none = ok default_external_auth_timeout_secs
read_auth_timeout (some v) = positive param_external_auth_timeout v (parse_unsigned u64_max v)

unfoldable pub read_attempts : Option Text → Result TrinoError (Option ℕ)
read_attempts o = optional (λ v. positive param_max_attempts v (parse_unsigned u64_max v)) o

-- The first of the two keywords that is set; a blank value counts as none.
unfoldable pub timeout_key : Option Text → Option Text → Option (Keyword × Text)
timeout_key (some v) login = if is_empty (trim v) then none else some (param_query_timeout, v)
timeout_key none (some v) = if is_empty (trim v) then none else some (param_login_timeout, v)
timeout_key none none = none

unfoldable pub read_query_timeout : Option (Keyword × Text) → Result TrinoError ℕ
read_query_timeout none = ok default_query_timeout_secs
read_query_timeout (some (k, v)) = ok_or (invalid k v) (parse_unsigned u64_max (trim v))

-- The non-blank parts of a list with commas, each once (`HashSet`).
unfoldable pub has_part : Text → List Text → Bool
has_part t [] = false
has_part t (u ∷ us) = if eq_text t u then true else has_part t us

unfoldable pub keep_parts : List Text → List Text
keep_parts [] = []
keep_parts (p ∷ ps) =
    let rest = keep_parts ps in
    if is_empty (trim p) then rest else if has_part (trim p) rest then rest else trim p ∷ rest

unfoldable pub read_set : Option Text → List Text
read_set none = []
read_set (some raw) = keep_parts (split b',' raw)

-- `Source`, when it is not blank.
unfoldable pub read_source : Text → Option Text → Text
read_source standard none = standard
read_source standard (some s) = if is_empty (trim s) then standard else s
