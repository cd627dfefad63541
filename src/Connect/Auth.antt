-- ===== src/Connect/Auth.antt =====
-- What `connect` of backend.rs decides from the accepted parameters: timeouts, authentication, the
-- validation of the connection and the session's user and zone.
use stackable_odbc_trino.Base.{
  ℕ, zero, suc, ◌+◌, ℤ, pos, Bool, true, false, not, ◌&&◌, ◌==◌, List, [], ◌∷◌, ◌++◌, Option, none,
  some, if◌then◌else◌,
}
use stackable_odbc_trino.Base.Outcome.{Result, ok, err, ◌>>=◌}
use mathlib.Core.Option
use stackable_odbc_trino.Base.Fallible.{get_or}
use stackable_odbc_trino.Base.Text.{Text, codes, eq_text}
use stackable_odbc_trino.Base.Text.Parts.{or_else}
use stackable_odbc_trino.Errors.{TrinoError, Message}
use stackable_odbc_trino.Connect.Keywords.{Crates}
use stackable_odbc_trino.Connect.Params.{TrinoConnectParams}

-- `u32::MAX` seconds, in place of no timeout.
abbrev pub no_timeout : ℕ
no_timeout = 4294967295

-- The attribute wins over the keyword; 0 means none in both.
unfoldable pub request_timeout : Option ℕ → ℕ → ℕ
request_timeout (some zero) from_connection_string = no_timeout
request_timeout (some (suc n)) from_connection_string = suc n
request_timeout none zero = no_timeout
request_timeout none (suc n) = suc n

unfoldable pub login_deadline : Option ℕ → Option ℕ
login_deadline (some zero) = none
login_deadline none = none
login_deadline (some (suc n)) = some (suc n)

unfoldable pub session_user_name : Option Text → Option Text → Option Text → Text
session_user_name probed session_user user = get_or (or_else (or_else probed session_user) user) []

-- `Zone` is `SessionZone`, and `parse_zone` its reader.
module _ {Zone : Type 0} (parse_zone : Text → Option Zone) where
  unfoldable pub effective_session_zone : Option Text → Option Zone → Zone → Zone
  effective_session_zone time_zone_id configured server_default =
      get_or (or_else (Option.bind time_zone_id parse_zone) configured) server_default

-- `cat.replace('"', "\"\"")`
unfoldable pub double_double : Text → Text
double_double [] = []
double_double (c ∷ s) = if c == b'"' then b'"' ∷ b'"' ∷ double_double s else c ∷ double_double s

unfoldable pub validation_query : Option Text → Text
validation_query (some catalog) =
    codes "SHOW SCHEMAS FROM \"" ++ double_double catalog ++ codes "\" LIKE ''"
validation_query none = codes "SELECT 1"

unfoldable pub native_of : TrinoError → ℤ
native_of (TrinoError.query cause native) = native
native_of _ = pos 0

unfoldable pub connection_failed : TrinoError → TrinoError
connection_failed e = TrinoError.connection_failed e (native_of e)

-- `validate_connection`, from the outcome of its query.
unfoldable pub validate_connection :
    {A : Type 0} → Result TrinoError A → Result TrinoError (Unit {0})
validate_connection (ok rows) = ok tt
validate_connection (err (TrinoError.auth_failure m)) = err (TrinoError.auth_failure m)
validate_connection (err (TrinoError.query_timeout m)) = err (TrinoError.query_timeout m)
validate_connection (err e) = err (connection_failed e)

pub data AuthChoice : Type 0 where
  unauthenticated basic jwt external : AuthChoice

unfoldable pub resolve_auth :
    Bool → Option Text → Option Text → Bool → Bool → Result TrinoError AuthChoice
resolve_auth secure password (some t) true may_prompt =
    err (TrinoError.auth_config Message.external_with_credentials)
resolve_auth secure (some w) none true may_prompt =
    err (TrinoError.auth_config Message.external_with_credentials)
resolve_auth false none none true may_prompt =
    err (TrinoError.auth_config Message.external_without_tls)
resolve_auth true none none true false =
    err (TrinoError.auth_config Message.external_without_prompt)
resolve_auth true none none true true = ok AuthChoice.external
resolve_auth secure (some w) (some t) false may_prompt =
    err (TrinoError.auth_config Message.password_and_token)
resolve_auth false none (some t) false may_prompt =
    err (TrinoError.auth_config Message.token_without_tls)
resolve_auth true none (some t) false may_prompt = ok AuthChoice.jwt
resolve_auth true password none false may_prompt = ok AuthChoice.basic
resolve_auth false password none false may_prompt = ok AuthChoice.unauthenticated

-- The identity of a login.
pub record OAuth2Key : Type 0 where
  pub secure : Bool
  pub host : Text
  pub port : ℕ
  pub user : Option Text

unfoldable pub eq_option : Option Text → Option Text → Bool
eq_option none none = true
eq_option (some s) (some t) = eq_text s t
eq_option _ _ = false

abbrev eq_bool : Bool → Bool → Bool
eq_bool true b = b
eq_bool false b = not b

unfoldable pub eq_key : OAuth2Key → OAuth2Key → Bool
unfolding eq_option
eq_key k l =
    eq_bool k.secure l.secure
    && eq_text k.host l.host
    && (k.port == l.port)
    && eq_option k.user l.user

-- `OAUTH2_LOGINS`: the logins of the process, each the `Arc` behind its `Auth`, and the next one to be
-- made.
pub record Logins : Type 0 where
  pub known : List (OAuth2Key × ℕ)
  pub next : ℕ

unfoldable pub login_of : OAuth2Key → List (OAuth2Key × ℕ) → Option ℕ
login_of k [] = none
login_of k ((l, id) ∷ known) = if eq_key k l then some id else login_of k known

unfoldable pub remember : OAuth2Key → Logins → Option ℕ → ℕ × Logins
remember k st (some id) = (id, st)
remember k st none = (st.next, record { known = (k, st.next) ∷ st.known; next = st.next + 1 })

unfoldable pub oauth2_auth : OAuth2Key → Logins → ℕ × Logins
oauth2_auth k st = remember k st (login_of k st.known)

-- `Auth` of the client.
pub data Auth : Type 0 where
  jwt_token : Text → Auth
  basic_login : Text → Option Text → Auth
  oauth2_login : ℕ → Auth

module _ (x : Crates) where
  -- The `Auth` of a connection, for the choice that was made.
  unfoldable pub auth_for : TrinoConnectParams x → AuthChoice → Logins → Option Auth × Logins
  auth_for p AuthChoice.external st =
      let (id, st') =
        oauth2_auth (record { secure = p.secure; host = p.host; port = p.port; user = p.user })
          st in
      (some (Auth.oauth2_login id), st')
  auth_for p AuthChoice.jwt st = (Option.map Auth.jwt_token p.access_token, st)
  auth_for p AuthChoice.basic st = (Option.map (λ u. Auth.basic_login u p.password) p.user, st)
  auth_for p AuthChoice.unauthenticated st = (none, st)

  unfoldable pub authenticate :
      TrinoConnectParams x → Bool → Logins → Result TrinoError (Option Auth × Logins)
  authenticate p may_prompt st =
      resolve_auth p.secure p.password p.access_token p.external_authentication may_prompt
      >>= λ choice. ok (auth_for p choice st)
