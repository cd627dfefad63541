-- ===== src/Connect/Protection.antt =====
-- On what a connection without protection rests (`parse_tls_verification` and `try_from`).
use mathlib.Core.Path.{subst}
use stackable_odbc_trino.Base.{
  ◌≡◌, refl, sym, ap, ◌∙◌, ◌↔◌, Bool, true, false, ◌||◌, Option, none, some, arith,
}
use stackable_odbc_trino.Base.Outcome.{ok}
use stackable_odbc_trino.Base.Fallible.{get_or}
use stackable_odbc_trino.Base.Text.{Text, codes, eq_text}
use stackable_odbc_trino.Base.Text.Case.{lower, eq_ignore_ascii_case}
use stackable_odbc_trino.Connect.Keywords.{
  Keyword, key, ConnectParams, Crates, param_protocol, param_tls_verify, param_ssl_verification,
}
use stackable_odbc_trino.Connect.Values.{
  TlsVerification, parse_one, eq_tls, agreed, parse_tls_verification,
}
use stackable_odbc_trino.Connect.Stages.{is_some, Transport, read_transport, read_protocol}
use stackable_odbc_trino.Connect.Accepted.{WasRead, try_from-WasRead}
use stackable_odbc_trino.Connect.Params.{TrinoConnectParams, assemble, try_from}

-- The words that turn the verification off.
abbrev pub says_off : Text → Bool
says_off v = eq_ignore_ascii_case v (codes "false") || eq_ignore_ascii_case v (codes "none")

-- `TlsVerify` and `SSLVerification` are one setting under two names: given both, the result is what
-- both say, and two different settings are refused.
pub parse_tls_verification_agrees :
    (a b : Text) (t : TlsVerification)
    → (parse_tls_verification (some a) (some b) ≡ ok t)
      ↔ ((parse_one param_tls_verify a ≡ ok t) × (parse_one param_ssl_verification b ≡ ok t))
unfolding parse_tls_verification agreed eq_tls
parse_tls_verification_agrees a b TlsVerification.full =
    (λ h. ground arith, λ (ha, hb). ground arith)
parse_tls_verification_agrees a b TlsVerification.ca_only =
    (λ h. ground arith, λ (ha, hb). ground arith)
parse_tls_verification_agrees a b TlsVerification.no_verification =
    (λ h. ground arith, λ (ha, hb). ground arith)

parse_one_off :
    (k : Keyword) (v : Text)
    → parse_one k v ≡ ok TlsVerification.no_verification
    → says_off v ≡ true
unfolding parse_one
parse_one_off k v h = ground arith

says_off_given :
    (v w : Text) → says_off v ≡ true → ◌≡◌ {A = Option Text} (some v) (some w) → says_off w ≡ true
says_off_given v w off e = let same : v ≡ w = cc in subst (λ t. says_off t ≡ true) same off

-- Every setting that is given says off, and one is given.
abbrev pub TurnedOff : Option Text → Option Text → Type 0
TurnedOff a b =
    ((v : Text) → a ≡ some v → says_off v ≡ true)
    × ((v : Text) → b ≡ some v → says_off v ≡ true)
    × (is_some a || is_some b ≡ true)

parse_tls_verification-TurnedOff :
    (a b : Option Text)
    → parse_tls_verification a b ≡ ok TlsVerification.no_verification
    → TurnedOff a b
unfolding parse_tls_verification
parse_tls_verification-TurnedOff none none h = cc
parse_tls_verification-TurnedOff (some v) none h =
    let off = parse_one_off param_tls_verify v h in
    (λ w e. says_off_given v w off e, λ w e. cc, refl)
parse_tls_verification-TurnedOff none (some v) h =
    let off = parse_one_off param_ssl_verification v h in
    (λ w e. cc, λ w e. says_off_given v w off e, refl)
parse_tls_verification-TurnedOff (some a) (some b) h =
    let (ha, hb) = (parse_tls_verification_agrees a b TlsVerification.no_verification).0 h in
    (
      λ w e. says_off_given a w (parse_one_off param_tls_verify a ha) e,
      λ w e. says_off_given b w (parse_one_off param_ssl_verification b hb) e,
      refl,
    )

read_transport-TurnedOff :
    (params : ConnectParams) {t : Transport}
    → read_transport params ≡ ok t
    → t.tls_verification ≡ TlsVerification.no_verification
    → TurnedOff (params.get (key param_tls_verify)) (params.get (key param_ssl_verification))
unfolding read_transport
read_transport-TurnedOff params h n =
    parse_tls_verification-TurnedOff (params.get (key param_tls_verify))
      (params.get (key param_ssl_verification)) (ground arith)

-- The protocol, which is https when none is given, was asked to be http.
abbrev pub AskedPlain : Option Text → Type 0
AskedPlain o = (v : Text) × (o ≡ some v) × (eq_ignore_ascii_case v (codes "http") ≡ true)

get_or-AskedPlain :
    (o : Option Text)
    → eq_ignore_ascii_case (get_or o (codes "https")) (codes "http") ≡ true
    → AskedPlain o
unfolding eq_ignore_ascii_case lower eq_text
get_or-AskedPlain none h = cc
get_or-AskedPlain (some v) h = (v, refl, h)

read_transport-AskedPlain :
    (params : ConnectParams) {t : Transport}
    → read_transport params ≡ ok t
    → t.secure ≡ false
    → AskedPlain (params.get (key param_protocol))
unfolding read_transport read_protocol
read_transport-AskedPlain params h n =
    get_or-AskedPlain (params.get (key param_protocol)) (ground arith)

module _ (x : Crates) where
  -- The transport that was read is the one in the record.
  assemble_transport :
      (params : ConnectParams) (c : TrinoConnectParams x) (r : WasRead x params c)
      → (c.secure ≡ r.transport.secure) × (c.tls_verification ≡ r.transport.tls_verification)
  unfolding assemble
  assemble_transport params c r =
      (ap (λ k. k.secure) (sym r.assembled), ap (λ k. k.tls_verification) (sym r.assembled))

  -- No accepted connection is without protection unless its string says so in words: plain HTTP only
  -- if the protocol is given as http, and no verification only if one of its two keywords is given and
  -- each that is given says so. Without these keywords a connection is encrypted and verified.
  pub try_from_protected :
      (params : ConnectParams) {c : TrinoConnectParams x}
      → try_from x params ≡ ok c
      → (c.secure ≡ false → AskedPlain (params.get (key param_protocol)))
        × (c.tls_verification ≡ TlsVerification.no_verification
            → TurnedOff
                (params.get (key param_tls_verify))
                (params.get (key param_ssl_verification)))
  try_from_protected params {c} h =
      let r = try_from-WasRead x params {c = c} h in
      let (secure, verification) = assemble_transport params c r in
      (
        λ plain.
            read_transport-AskedPlain params {t = r.transport} r.transport_read
              (sym secure ∙ plain),
        λ off.
            read_transport-TurnedOff params {t = r.transport} r.transport_read
              (sym verification ∙ off),
      )
