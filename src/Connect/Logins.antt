-- ===== src/Connect/Logins.antt =====
-- One interactive login per identity (`oauth2_auth` of backend.rs).
use mathlib.Core.Path.{subst}
use stackable_odbc_trino.Base.{
  ℕ, ◌<◌, ◌≡◌, refl, sym, ap, ◌∙◌, ◌↔◌, ◌⊎◌, true, List, [], ◌∷◌, Option, none, some, arith, inl,
  inr, Bool-cases,
}
use stackable_odbc_trino.Base.Text.{Text}
use stackable_odbc_trino.Base.Text.Compare.{eq_text-eq, eq_text_refl}
use stackable_odbc_trino.Connect.Auth.{
  OAuth2Key, eq_option, eq_key, Logins, login_of, remember, oauth2_auth,
}

eq_option-eq : (a b : Option Text) → eq_option a b ≡ true → a ≡ b
unfolding eq_option
eq_option-eq none none h = refl
eq_option-eq (some s) (some t) h = ap some (eq_text-eq s t h)
eq_option-eq _ _ h = cc

eq_option_refl : (a : Option Text) → eq_option a a ≡ true
unfolding eq_option
eq_option_refl none = refl
eq_option_refl (some s) = eq_text_refl s

eq_key-eq : (k l : OAuth2Key) → eq_key k l ≡ true → k ≡ l
unfolding eq_key
eq_key-eq k l h =
    let secure : k.secure ≡ l.secure = ground arith in
    let host = eq_text-eq k.host l.host (ground arith) in
    let port : k.port ≡ l.port = ground arith in
    let user = eq_option-eq k.user l.user (ground arith) in
    ap (λ a. record k { secure = a }) secure
    ∙ ap (λ a. record k { secure = l.secure; host = a }) host
    ∙ ap (λ a. record l { port = a; user = k.user }) port
    ∙ ap (λ a. record l { user = a }) user

eq_key_refl : (k : OAuth2Key) → eq_key k k ≡ true
unfolding eq_key
eq_key_refl k = let host = eq_text_refl k.host in let user = eq_option_refl k.user in ground arith

-- No two identities share a login, and the next login is a new one.
pub record IsValid (st : Logins) : Type 0 where
  pub unused : (k : OAuth2Key) (id : ℕ) → login_of k st.known ≡ some id → id < st.next
  pub distinct :
      (k l : OAuth2Key) (id : ℕ)
      → login_of k st.known ≡ some id
      → login_of l st.known ≡ some id
      → k ≡ l

-- The state after connections with these identities.
unfoldable pub after_all : List OAuth2Key → Logins → Logins
after_all [] st = st
after_all (k ∷ ks) st = after_all ks (oauth2_auth k st).1

-- A login found behind a new one is either that one or an old one.
login_of_cons :
    (l k : OAuth2Key) (new : ℕ) (known : List (OAuth2Key × ℕ)) {id : ℕ}
    → login_of l ((k, new) ∷ known) ≡ some id
    → ((l ≡ k) × (new ≡ id)) ⊎ (login_of l known ≡ some id)
unfolding login_of
login_of_cons l k new known h = elim (Bool-cases (eq_key l k)) [
  | inl e ↦ inl (eq_key-eq l k e, ground arith)
  | inr e ↦ inr (ground arith)
]

remember-IsValid :
    (k : OAuth2Key) (st : Logins) (o : Option ℕ)
    → login_of k st.known ≡ o
    → IsValid st
    → IsValid (remember k st o).1
unfolding remember
remember-IsValid k st (some id) e v = v
remember-IsValid k st none e v = record {
  unused = λ l id h. elim (login_of_cons l k st.next st.known h) [
    | inl (same, new) ↦ omega (arith, new)
    | inr old ↦ let before = v.unused l id old in omega (arith, before)
  ];
  distinct = λ l m id hl hm. elim (login_of_cons l k st.next st.known hl) [
    | inl (a, new) ↦ elim (login_of_cons m k st.next st.known hm) [
      | inl (b, _) ↦ a ∙ sym b
      | inr old ↦ let before = v.unused m id old in absurd (omega (arith, before, new))
    ]
    | inr found ↦ elim (login_of_cons m k st.next st.known hm) [
      | inl (b, new) ↦ let before = v.unused l id found in absurd (omega (arith, before, new))
      | inr old ↦ v.distinct l m id found old
    ]
  ];
}

remember_keeps :
    (k l : OAuth2Key) (st : Logins) (o : Option ℕ) {id : ℕ}
    → login_of k st.known ≡ o
    → login_of l st.known ≡ some id
    → login_of l (remember k st o).1.known ≡ some id
unfolding remember login_of
remember_keeps k l st (some a) e h = h
remember_keeps k l st none e h = elim (Bool-cases (eq_key l k)) [
  | inl same ↦
      let found : login_of k st.known ≡ some _ =
        ap (λ n. login_of n st.known) (sym (eq_key-eq l k same)) ∙ h in
      cc
  | inr other ↦ ground arith
]

remember_known :
    (k : OAuth2Key) (st : Logins) (o : Option ℕ)
    → login_of k st.known ≡ o
    → login_of k (remember k st o).1.known ≡ some (remember k st o).0
unfolding remember login_of
remember_known k st (some a) e = e
remember_known k st none e = rw (eq_key_refl k) refl

oauth2_auth-IsValid : (k : OAuth2Key) (st : Logins) → IsValid st → IsValid (oauth2_auth k st).1
unfolding oauth2_auth
oauth2_auth-IsValid k st v = remember-IsValid k st (login_of k st.known) refl v

after_all-IsValid : (ks : List OAuth2Key) (st : Logins) → IsValid st → IsValid (after_all ks st)
unfolding after_all
after_all-IsValid [] st v = v
after_all-IsValid (k ∷ ks) st v =
    after_all-IsValid ks (oauth2_auth k st).1 (oauth2_auth-IsValid k st v)

after_all_keeps :
    (ks : List OAuth2Key) (l : OAuth2Key) (st : Logins) {id : ℕ}
    → login_of l st.known ≡ some id
    → login_of l (after_all ks st).known ≡ some id
unfolding after_all oauth2_auth
after_all_keeps [] l st h = h
after_all_keeps (k ∷ ks) l st {id} h =
    after_all_keeps ks l (oauth2_auth k st).1 {id = id}
      (remember_keeps k l st (login_of k st.known) {id = id} refl h)

-- Two connections of the process, with any others between them, get the same login exactly if they
-- have the same identity: nobody logs in twice, and no identity is served from another one's login.
pub oauth2_auth_shares :
    (st : Logins) (k l : OAuth2Key) (between : List OAuth2Key)
    → IsValid st
    → ((oauth2_auth k st).0 ≡ (oauth2_auth l (after_all between (oauth2_auth k st).1)).0) ↔ (k ≡ l)
oauth2_auth_shares st k l between v =
    let first = (oauth2_auth k st).1 in
    let middle = after_all between first in
    let known : login_of k first.known ≡ some (oauth2_auth k st).0 =
      unfold oauth2_auth in remember_known k st (login_of k st.known) refl in
    let kept = after_all_keeps between k first known in
    let last_known : login_of l (oauth2_auth l middle).1.known ≡ some (oauth2_auth l middle).0 =
      unfold oauth2_auth in remember_known l middle (login_of l middle.known) refl in
    let kept_last : login_of k (oauth2_auth l middle).1.known ≡ some (oauth2_auth k st).0 =
      unfold oauth2_auth in remember_keeps l k middle (login_of l middle.known) refl kept in
    let valid =
      oauth2_auth-IsValid l middle (after_all-IsValid between first (oauth2_auth-IsValid k st v)) in
    (
      λ same. valid.distinct k l (oauth2_auth k st).0 kept_last (last_known ∙ ap some (sym same)),
      λ same.
          let again : login_of l (oauth2_auth l middle).1.known ≡ some (oauth2_auth k st).0 =
            subst (λ n. login_of n (oauth2_auth l middle).1.known ≡ some (oauth2_auth k st).0) same
              kept_last in
          let both : some (oauth2_auth k st).0 ≡ some (oauth2_auth l middle).0 =
            sym again ∙ last_known in
          cc,
    )
