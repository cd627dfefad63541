-- ===== src/Describe/Answers.antt =====
-- What `describe_param` of backend/describe_param.rs answers, from its cache and in a transaction.
use stackable_odbc_trino.Base.{
  ℕ, zero, suc, ℤ, ◌≡◌, refl, Bool, true, false, inl, inr, List, Option, none, some, Bool-cases,
  get_elem?,
}
use stackable_odbc_trino.Base.Outcome.{Result, ok, err}
use stackable_odbc_trino.Base.Text.{Text}
use stackable_odbc_trino.Base.Text.Compare.{eq_text-eq}
use stackable_odbc_trino.Errors.{TrinoError}
use stackable_odbc_trino.Session.Client.{Client}
use stackable_odbc_trino.Session.Shared.{Store}
use stackable_odbc_trino.Conversion.TypeName.{SqlDataType}
use stackable_odbc_trino.Catalog.Queries.{Queries}
use stackable_odbc_trino.Describe.Params.{ParamDescriptor}
use stackable_odbc_trino.Describe.Requests.{
  CachedParams, Described, fetch_input_params, answer_at, is_cached, refreshed, describe_param,
}

module _ {c : Client} (q : Queries c) (column_size : SqlDataType → ℤ → ℤ → ℤ) where
  -- The coordinator has described the statement with these parameters.
  abbrev pub Reported : Text → List ParamDescriptor → Type 0
  Reported sql params = (w : Store c) × ((fetch_input_params q column_size sql w).0 ≡ ok params)

  abbrev pub IsCoherent : Option CachedParams → Type 0
  IsCoherent none = Unit
  IsCoherent (some cached) = Reported cached.sql cached.params

  refreshed-IsCoherent :
      (index : ℕ) (sql : Text) (active : Bool) (cache : Option CachedParams)
      (r : Result TrinoError (List ParamDescriptor) × Store c)
      → IsCoherent cache
      → ((params : List ParamDescriptor) → r.0 ≡ ok params → Reported sql params)
      → IsCoherent (refreshed index sql active cache r).1.cache
  unfolding refreshed
  refreshed-IsCoherent index sql active cache (ok params, w) h told = told params refl
  refreshed-IsCoherent index sql true cache (err e, w) h told = h
  refreshed-IsCoherent index sql false cache (err e, w) h told = h

  refreshed_answer :
      (index : ℕ) (sql : Text) (active : Bool) (cache : Option CachedParams)
      (r : Result TrinoError (List ParamDescriptor) × Store c) (p : ParamDescriptor)
      → (refreshed index sql active cache r).0 ≡ ok (some p)
      → ((params : List ParamDescriptor) → r.0 ≡ ok params → Reported sql params)
      → (params : List ParamDescriptor) × Reported sql params × (get_elem? params index ≡ some p)
  unfolding refreshed answer_at
  refreshed_answer index sql active cache (ok params, w) p h told = (params, told params refl, cc)
  refreshed_answer index sql true cache (err e, w) p h told = cc
  refreshed_answer index sql false cache (err e, w) p h told = cc

  cached_answer :
      (index : ℕ) (sql : Text) (cache : Option CachedParams) (p : ParamDescriptor)
      → IsCoherent cache
      → is_cached sql cache ≡ true
      → answer_at index cache ≡ some p
      → (params : List ParamDescriptor) × Reported sql params × (get_elem? params index ≡ some p)
  unfolding is_cached answer_at
  cached_answer index sql none p h k e = cc
  cached_answer index sql (some cached) p h k e =
      let same : cached.sql ≡ sql = eq_text-eq cached.sql sql k in (cached.params, rw (← same) h, e)

  -- The cache never holds anything but what the coordinator has reported for the very statement that
  -- it is kept under, whatever calls are made and fail.
  pub describe_param-IsCoherent :
      (sql : Text) (number : ℕ) (d : Described c)
      → IsCoherent d.cache
      → IsCoherent (describe_param q column_size sql number d).1.cache
  unfolding describe_param
  describe_param-IsCoherent sql zero d h = h
  describe_param-IsCoherent sql (suc index) d h = elim (Bool-cases (is_cached sql d.cache)) [
    | inl e ↦ rw e h
    | inr e ↦ rw e (
        refreshed-IsCoherent index sql (c.is_active d.store.client) d.cache
          (fetch_input_params q column_size sql d.store) h (λ params r. (d.store, r)))
  ]

  -- A descriptor that is answered for a parameter is the one that the coordinator has reported for
  -- the parameter of that number, of the very statement that was asked about, whether it comes from
  -- the cache or not, and the cache that is left is again of this kind.
  pub describe_param-Reported :
      (sql : Text) (index : ℕ) (d : Described c) (p : ParamDescriptor)
      → IsCoherent d.cache
      → (describe_param q column_size sql (suc index) d).0 ≡ ok (some p)
      → ((params : List ParamDescriptor) × Reported sql params × (get_elem? params index ≡ some p))
        × IsCoherent (describe_param q column_size sql (suc index) d).1.cache
  describe_param-Reported sql index d p h e = (
    let answer : (params : List ParamDescriptor) × Reported sql params
            × (get_elem? params index ≡ some p) =
          unfold describe_param in
          elim (Bool-cases (is_cached sql d.cache)) [
            | inl k ↦
                let e' : ok (answer_at index d.cache) ≡ ok (some p) = rw k at e in
                cached_answer index sql d.cache p h k (cc)
            | inr k ↦
                refreshed_answer index sql (c.is_active d.store.client) d.cache
                  (fetch_input_params q column_size sql d.store) p (rw k at e)
                  (λ params r. (d.store, r))
          ] in
        answer,
    describe_param-IsCoherent sql (suc index) d h,
  )
