-- ===== src/Connect/ProxyAddress.antt =====
-- Which proxy addresses are refused (`proxy_url`).
use stackable_odbc_trino.Base.{ℕ, ap, ◌∙◌, ◌≡◌, refl, true, false, [], ◌∷◌, ◌++◌, some, arith, All}
use stackable_odbc_trino.Base.Fallible.{get_or}
use stackable_odbc_trino.Base.Outcome.{ok, err}
use stackable_odbc_trino.Base.Text.{Text, codes}
use stackable_odbc_trino.Base.Text.Parts.{Lacks, after_first, strip_prefix, before_any, contains}
use stackable_odbc_trino.Errors.{Message, general}
use stackable_odbc_trino.Connect.Values.{ends_authority, authority, proxy_url}

-- No character that ends the authority.
abbrev pub InAuthority : Text → Type 0
InAuthority = All (λ c. ends_authority c ≡ false)

after_first_scheme :
    (scheme t : Text)
    → Lacks b':' scheme
    → after_first (codes "://") (scheme ++ codes "://" ++ t) ≡ some t
unfolding after_first strip_prefix
after_first_scheme [] t h = refl
after_first_scheme (c ∷ s) t (hc, hs) = ground (arith, after_first_scheme s t hs)

contains_userinfo :
    (userinfo rest : Text)
    → InAuthority userinfo
    → contains b'@' (before_any ends_authority (userinfo ++ b'@' ∷ rest)) ≡ true
unfolding contains before_any
contains_userinfo [] rest h = unfold ends_authority in refl
contains_userinfo (c ∷ s) rest (hc, hs) = ground (arith, contains_userinfo s rest hs)

before_any_path :
    (host path : Text) → InAuthority host → before_any ends_authority (host ++ b'/' ∷ path) ≡ host
unfolding before_any
before_any_path [] path h = unfold ends_authority in refl
before_any_path (c ∷ s) path (hc, hs) = ground (arith, before_any_path s path hs)

contains-Lacks : (c : ℕ) (s : Text) → Lacks c s → contains c s ≡ false
unfolding contains
contains-Lacks c [] h = refl
contains-Lacks c (d ∷ s) (hd, hs) = ground (arith, contains-Lacks c s hs)

authority_behind :
    (raw t : Text)
    → after_first (codes "://") raw ≡ some t
    → authority raw ≡ before_any ends_authority t
unfolding authority
authority_behind raw t h = ap (λ o. before_any ends_authority (get_or o raw)) h

-- A proxy address with a user or a password before its host is refused, whatever follows the `@`; an
-- address without them is taken as it is, and then an `@` in its path does no harm.
pub proxy_url_userinfo :
    (scheme userinfo host rest : Text)
    → Lacks b':' scheme
    → InAuthority userinfo
    → InAuthority host
    → Lacks b'@' host
    → (proxy_url (scheme ++ codes "://" ++ (userinfo ++ b'@' ∷ rest))
        ≡ err (general Message.proxy_credentials))
      × (proxy_url (scheme ++ codes "://" ++ (host ++ b'/' ∷ rest))
          ≡ ok (scheme ++ codes "://" ++ (host ++ b'/' ∷ rest)))
unfolding proxy_url
proxy_url_userinfo scheme userinfo host rest hs hu hh hl =
    let bad = scheme ++ codes "://" ++ (userinfo ++ b'@' ∷ rest) in
    let good = scheme ++ codes "://" ++ (host ++ b'/' ∷ rest) in
    let refused : contains b'@' (authority bad) ≡ true =
      ap (contains b'@') (
        authority_behind bad (userinfo ++ b'@' ∷ rest)
          (after_first_scheme scheme (userinfo ++ b'@' ∷ rest) hs))
      ∙ contains_userinfo userinfo rest hu in
    let taken : contains b'@' (authority good) ≡ false =
      ap (contains b'@') (
        authority_behind good (host ++ b'/' ∷ rest)
          (after_first_scheme scheme (host ++ b'/' ∷ rest) hs)
        ∙ before_any_path host rest hh)
      ∙ contains-Lacks b'@' host hl in
    (rw refused refl, rw taken refl)
