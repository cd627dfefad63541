-- ===== src/Connect/Values.antt =====
-- The values of single keywords.
use stackable_odbc_trino.Base.{ℕ, Bool, true, false, ◌==◌, ◌||◌, Option, none, some, if◌then◌else◌}
use stackable_odbc_trino.Base.Outcome.{Result, ok, err, ◌>>=◌}
use stackable_odbc_trino.Base.Fallible.{get_or}
use stackable_odbc_trino.Base.Text.{Text, codes}
use stackable_odbc_trino.Base.Text.Case.{eq_ignore_ascii_case}
use stackable_odbc_trino.Base.Text.Parts.{after_first, before_any, contains}
use stackable_odbc_trino.Errors.{TrinoError, Message, general}
use stackable_odbc_trino.Connect.Keywords.{Keyword, key}

-- `invalid value for {key}: {raw}`
abbrev pub invalid : Keyword → Text → TrinoError
invalid k raw = general (Message.invalid_value (key k) raw)

unfoldable pub parse_bool : Keyword → Text → Result TrinoError Bool
parse_bool k raw =
    if eq_ignore_ascii_case raw (codes "true")
    then ok true
    else if eq_ignore_ascii_case raw (codes "false")
    then ok false
    else err (invalid k raw)

-- `TlsVerification` of the client; its `None` is `no_verification` here.
pub data TlsVerification : Type 0 where
  full ca_only no_verification : TlsVerification

unfoldable pub parse_one : Keyword → Text → Result TrinoError TlsVerification
parse_one k raw =
    if eq_ignore_ascii_case raw (codes "true") || eq_ignore_ascii_case raw (codes "full")
    then ok TlsVerification.full
    else if eq_ignore_ascii_case raw (codes "ca")
    then ok TlsVerification.ca_only
    else if eq_ignore_ascii_case raw (codes "false") || eq_ignore_ascii_case raw (codes "none")
    then ok TlsVerification.no_verification
    else err (invalid k raw)

-- `a == b`
unfoldable pub eq_tls : TlsVerification → TlsVerification → Bool
eq_tls TlsVerification.full TlsVerification.full = true
eq_tls TlsVerification.ca_only TlsVerification.ca_only = true
eq_tls TlsVerification.no_verification TlsVerification.no_verification = true
eq_tls _ _ = false

unfoldable pub agreed : TlsVerification → TlsVerification → Result TrinoError TlsVerification
agreed a b = if eq_tls a b then ok a else err (general Message.same_setting)

unfoldable pub parse_tls_verification :
    Option Text → Option Text → Result TrinoError TlsVerification
parse_tls_verification none none = ok TlsVerification.full
parse_tls_verification (some v) none = parse_one Keyword.param_tls_verify v
parse_tls_verification none (some v) = parse_one Keyword.param_ssl_verification v
parse_tls_verification (some a) (some b) = parse_one Keyword.param_tls_verify a >>= λ x.
    parse_one Keyword.param_ssl_verification b >>= λ y. agreed x y

-- `SelectedRole`: `RoleType` with the name of a role.
pub data SelectedRole : Type 0 where
  all_roles no_role : SelectedRole
  role : Text → SelectedRole

unfoldable pub selected_role : Text → SelectedRole
selected_role value =
    if eq_ignore_ascii_case value (codes "ALL")
    then SelectedRole.all_roles
    else if eq_ignore_ascii_case value (codes "NONE")
    then SelectedRole.no_role
    else SelectedRole.role value

-- The characters that end the authority.
unfoldable pub ends_authority : ℕ → Bool
ends_authority c = (c == b'/') || (c == b'?') || (c == b'#')

unfoldable pub authority : Text → Text
authority raw = before_any ends_authority (get_or (after_first (codes "://") raw) raw)

unfoldable pub proxy_url : Text → Result TrinoError Text
proxy_url raw =
    if contains b'@' (authority raw) then err (general Message.proxy_credentials) else ok raw
