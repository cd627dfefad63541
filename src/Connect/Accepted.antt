-- ===== src/Connect/Accepted.antt =====
-- What parameters that `TrinoConnectParams::try_from` accepts satisfy.
use stackable_odbc_trino.Base.{ℕ, ◌≤◌, ◌<◌, ◌≡◌, true, false, [], ◌∷◌, none, some, arith}
use stackable_odbc_trino.Base.Outcome.{ok, >>=-eq-ok, ok_injective}
use stackable_odbc_trino.Base.Text.{Text, parse_unsigned}
use stackable_odbc_trino.Base.Text.Decimal.{parse_digits_bound}
use stackable_odbc_trino.Base.Text.Parts.{contains}
use stackable_odbc_trino.Connect.Keywords.{
  ConnectParams, Crates, param_session_properties, param_extra_credentials, param_extra_headers,
}
use stackable_odbc_trino.Connect.Pairs.{HashMap}
use mathlib.Core.Path.{subst}
use stackable_odbc_trino.Connect.Values.{TlsVerification, authority, proxy_url}
use stackable_odbc_trino.Connect.Stages.{
  is_some, read_map, optional, Identity, read_identity, read_user, Transport, read_transport,
  check_plain, check_root, named_certificates, Proxy, check_proxy, read_proxy, positive,
  read_auth_timeout, read_attempts,
}
use stackable_odbc_trino.Connect.Params.{
  TrinoConnectParams, Tuning, read_tuning, assemble, try_from,
}

-- The user may be missing only under external authentication.
read_identity_user :
    (params : ConnectParams) {i : Identity}
    → read_identity params ≡ ok i
    → i.user ≡ none
    → i.external ≡ true
unfolding read_identity read_user
read_identity_user params h n = ground arith

parse_unsigned_bound : (max : ℕ) (s : Text) {n : ℕ} → parse_unsigned max s ≡ some n → n ≤ max
unfolding parse_unsigned
parse_unsigned_bound max [] h = cc
parse_unsigned_bound max (c ∷ s) {n} h =
    ground (arith, parse_digits_bound max s {n = n}, parse_digits_bound max (c ∷ s) {n = n})

read_identity_port :
    (params : ConnectParams) {i : Identity} → read_identity params ≡ ok i → i.port ≤ 65535
unfolding read_identity
read_identity_port params {i} h = grind (arith, parse_unsigned_bound 65535)

-- Over plain HTTP there are no certificates, and a chain is checked against a given root only.
read_transport_certificates :
    (params : ConnectParams) {t : Transport}
    → read_transport params ≡ ok t
    → t.secure ≡ false
    → (t.certificate ≡ none) × (t.client_certificate ≡ none)
unfolding read_transport check_plain named_certificates
read_transport_certificates params h n = ground arith

read_transport_root :
    (params : ConnectParams) {t : Transport}
    → read_transport params ≡ ok t
    → t.tls_verification ≡ TlsVerification.ca_only
    → is_some t.certificate ≡ true
unfolding read_transport check_root
read_transport_root params h n = ground arith

-- The credentials of a proxy come together, and with a proxy.
read_proxy_credentials :
    (params : ConnectParams) {p : Proxy}
    → read_proxy params ≡ ok p
    → (is_some p.user ≡ is_some p.password) × (is_some p.user ≡ true → is_some p.url ≡ true)
unfolding read_proxy check_proxy
read_proxy_credentials params h = (ground arith, λ u. ground arith)

read_proxy_url :
    (params : ConnectParams) {p : Proxy} {url : Text}
    → read_proxy params ≡ ok p
    → p.url ≡ some url
    → contains b'@' (authority url) ≡ false
unfolding read_proxy optional proxy_url
read_proxy_url params h e = ground arith

module _ (x : Crates) where
  -- The steps behind an accepted record.
  pub record WasRead (params : ConnectParams) (c : TrinoConnectParams x) : Type 0 where
    pub identity : Identity
    pub transport : Transport
    pub properties : HashMap
    pub extra_credentials : HashMap
    pub headers : HashMap
    pub proxy : Proxy
    pub tuning : Tuning x
    pub identity_read : read_identity params ≡ ok identity
    pub transport_read : read_transport params ≡ ok transport
    pub proxy_read : read_proxy params ≡ ok proxy
    pub tuning_read : read_tuning x params ≡ ok tuning
    pub assembled :
        assemble x params identity transport properties extra_credentials headers proxy tuning ≡ c

  pub try_from-WasRead :
      (params : ConnectParams) {c : TrinoConnectParams x}
      → try_from x params ≡ ok c
      → WasRead params c
  unfolding try_from
  try_from-WasRead params {c} h =
      let (i, hi, h₁) = >>=-eq-ok (read_identity params) _ {final = c} h in
      let (t, ht, h₂) = >>=-eq-ok (read_transport params) _ {final = c} h₁ in
      let (properties, _, h₃) =
        >>=-eq-ok (read_map params param_session_properties) _ {final = c} h₂ in
      let (credentials, _, h₄) =
        >>=-eq-ok (read_map params param_extra_credentials) _ {final = c} h₃ in
      let (headers, _, h₅) = >>=-eq-ok (read_map params param_extra_headers) _ {final = c} h₄ in
      let (p, hp, h₆) = >>=-eq-ok (read_proxy params) _ {final = c} h₅ in
      let (u, hu, h₇) = >>=-eq-ok (read_tuning x params) _ {final = c} h₆ in
      record {
        identity = i;
        transport = t;
        properties = properties;
        extra_credentials = credentials;
        headers = headers;
        proxy = p;
        tuning = u;
        identity_read = hi;
        transport_read = ht;
        proxy_read = hp;
        tuning_read = hu;
        assembled = ok_injective h₇;
      }

  read_tuning_login :
      (params : ConnectParams) {u : Tuning x} → read_tuning x params ≡ ok u → 0 < u.auth_timeout
  unfolding read_tuning read_auth_timeout positive
  read_tuning_login params h = ground arith

  read_tuning_attempts :
      (params : ConnectParams) {u : Tuning x} {n : ℕ}
      → read_tuning x params ≡ ok u
      → u.attempts ≡ some n
      → 0 < n
  unfolding read_tuning read_attempts optional positive
  read_tuning_attempts params h e = ground arith

  -- Parameters that ask for nothing that the connection cannot honour.
  pub record IsConsistent (c : TrinoConnectParams x) : Type 0 where
    pub certificates : c.secure ≡ false → (c.certificate ≡ none) × (c.client_certificate ≡ none)
    pub root : c.tls_verification ≡ TlsVerification.ca_only → is_some c.certificate ≡ true
    pub credentials : is_some c.proxy_user ≡ is_some c.proxy_password
    pub proxied : is_some c.proxy_user ≡ true → is_some c.proxy ≡ true
    pub address : (url : Text) → c.proxy ≡ some url → contains b'@' (authority url) ≡ false
    pub identified : c.user ≡ none → c.external_authentication ≡ true
    pub port : c.port ≤ 65535
    pub login : 0 < c.external_auth_timeout
    pub attempts : (n : ℕ) → c.max_attempts ≡ some n → 0 < n

  assemble-IsConsistent :
      (params : ConnectParams) (i : Identity) (t : Transport)
      (properties credentials headers : HashMap) (p : Proxy) (u : Tuning x)
      → read_identity params ≡ ok i
      → read_transport params ≡ ok t
      → read_proxy params ≡ ok p
      → read_tuning x params ≡ ok u
      → IsConsistent (assemble x params i t properties credentials headers p u)
  unfolding assemble
  assemble-IsConsistent params i t properties credentials headers p u hi ht hp hu = record {
    certificates = read_transport_certificates params {t = t} ht;
    root = read_transport_root params {t = t} ht;
    credentials = (read_proxy_credentials params {p = p} hp).0;
    proxied = (read_proxy_credentials params {p = p} hp).1;
    address = λ url. read_proxy_url params {p = p} {url = url} hp;
    identified = read_identity_user params {i = i} hi;
    port = read_identity_port params {i = i} hi;
    login = read_tuning_login params {u = u} hu;
    attempts = λ n. read_tuning_attempts params {u = u} {n = n} hu;
  }

  -- Accepted parameters never ask for something that the connection cannot honour: no certificate is
  -- named over plain HTTP, a check of the chain alone has a root certificate, proxy credentials come
  -- together and with a proxy, and no proxy address carries credentials of its own; a user is missing
  -- only under external authentication; the port fits its type, and neither the login budget nor the
  -- number of attempts is zero.
  pub try_from-IsConsistent :
      (params : ConnectParams) {c : TrinoConnectParams x}
      → try_from x params ≡ ok c
      → IsConsistent c
  try_from-IsConsistent params {c} h =
      let r = try_from-WasRead params {c = c} h in
      subst IsConsistent r.assembled (
        assemble-IsConsistent params r.identity r.transport r.properties r.extra_credentials
          r.headers r.proxy r.tuning r.identity_read r.transport_read r.proxy_read r.tuning_read)
