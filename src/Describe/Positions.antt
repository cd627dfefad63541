-- ===== src/Describe/Positions.antt =====
-- `describe_input_rows_to_params` of backend/describe_param.rs puts the descriptors in order.
use stackable_odbc_trino.Base.{
  ℕ, suc, ◌≤◌, ℤ, pos, ◌≡◌, ◌≢◌, refl, sym, ap, ◌∙◌, true, false, inl, inr, List, [], ◌∷◌, some,
  arith, leb, leb→le, Bool-cases, All, map,
}
use stackable_odbc_trino.Base.Text.{Text}
use stackable_odbc_trino.Conversion.Nested.{string, scalar, Scalar}
use stackable_odbc_trino.Conversion.TypeName.{SqlDataType}
use stackable_odbc_trino.Catalog.Queries.{Row, as_str, as_i64, filter_map}
use stackable_odbc_trino.Describe.Params.{
  ParamDescriptor, to_unsigned, param_descriptor, positioned, place, sort_by_key, second,
  describe_input_rows_to_params,
}

-- The same entries in another order.
pub data Shuffled {A : Type 0} : List A → List A → Type 0 where
  same : Shuffled [] []
  skip : {xs ys : List A} (x : A) → Shuffled xs ys → Shuffled (x ∷ xs) (x ∷ ys)
  swap : (x y : A) (xs : List A) → Shuffled (x ∷ y ∷ xs) (y ∷ x ∷ xs)
  chain : {xs ys zs : List A} → Shuffled xs ys → Shuffled ys zs → Shuffled xs zs

-- What holds of each entry holds of each in another order.
Shuffled-All : {A : Type 0} (P : A → Type 0) {xs ys : List A} → Shuffled xs ys → All P ys → All P xs
Shuffled-All P same h = h
Shuffled-All P (skip x s) (p, h) = (p, Shuffled-All P s h)
Shuffled-All P (swap x y xs) (p, (r, h)) = (r, (p, h))
Shuffled-All P (chain s t) h = Shuffled-All P s (Shuffled-All P t h)

Shuffled-map :
    {A B : Type 0} (f : A → B) {xs ys : List A} → Shuffled xs ys → Shuffled (map f xs) (map f ys)
Shuffled-map f same = same
Shuffled-map f (skip x s) = skip (f x) (Shuffled-map f s)
Shuffled-map f (swap x y xs) = swap (f x) (f y) (map f xs)
Shuffled-map f (chain s t) = chain (Shuffled-map f s) (Shuffled-map f t)

abbrev LacksKey : {A : Type 0} → ℕ → ℕ × A → Type 0
LacksKey k (l, a) = l ≢ k

-- No two entries have the same key.
abbrev Distinct : {A : Type 0} → List (ℕ × A) → Type 0
Distinct [] = Unit
Distinct ((k, a) ∷ xs) = All (LacksKey k) xs × Distinct xs

Shuffled-Distinct : {A : Type 0} {xs ys : List (ℕ × A)} → Shuffled xs ys → Distinct ys → Distinct xs
Shuffled-Distinct same h = h
Shuffled-Distinct (skip (k, a) s) (p, h) = (Shuffled-All (LacksKey k) s p, Shuffled-Distinct s h)
Shuffled-Distinct (swap (k, a) (l, b) xs) ((p, ps), (r, h)) = (((λ e. p (sym e)), r), (ps, h))
Shuffled-Distinct (chain s t) h = Shuffled-Distinct s (Shuffled-Distinct t h)

not_leb : (l k : ℕ) → l ≢ k → k ≤ l → leb l k ≡ false
not_leb l k h p = ground arith

place_comm :
    {A : Type 0} (k : ℕ) (a : A) (l : ℕ) (b : A) (xs : List (ℕ × A))
    → l ≢ k
    → place (k, a) (place (l, b) xs) ≡ place (l, b) (place (k, a) xs)
unfolding place
place_comm k a l b [] h = ground arith
place_comm k a l b ((m, c) ∷ xs) h =
    let ih = place_comm k a l b xs h in
    elim (Bool-cases (leb k m)) [
      | inl e ↦ elim (Bool-cases (leb l m)) [
        | inl e' ↦ elim (Bool-cases (leb k l)) [
          | inl i ↦ let f : leb l k ≡ false = not_leb l k h (leb→le k l i) in simp (e, e', i, f)
          | inr i ↦ let f : leb l k ≡ true = ground arith in simp (e, e', i, f)
        ]
        | inr e' ↦ let f : leb l k ≡ false = ground arith in simp (e, e', f)
      ]
      | inr e ↦ elim (Bool-cases (leb l m)) [
        | inl e' ↦ let f : leb k l ≡ false = ground arith in simp (e, e', f)
        | inr e' ↦ simp (e, e', ih)
      ]
    ]

-- Sorting does not depend on the order that the entries come in.
sort_by_key-Shuffled :
    {A : Type 0} {xs ys : List (ℕ × A)}
    → Shuffled xs ys
    → Distinct ys
    → sort_by_key xs ≡ sort_by_key ys
unfolding sort_by_key
sort_by_key-Shuffled same h = refl
sort_by_key-Shuffled (skip x s) (p, h) = ap (place x) (sort_by_key-Shuffled s h)
sort_by_key-Shuffled (swap (k, a) (l, b) xs) ((p, ps), h) =
    place_comm k a l b (sort_by_key xs) (λ e. p (sym e))
sort_by_key-Shuffled (chain s t) h =
    sort_by_key-Shuffled s (Shuffled-Distinct t h) ∙ sort_by_key-Shuffled t h

-- Entries with their positions, from `k` on.
abbrev pub numbered : {A : Type 0} → ℕ → List A → List (ℕ × A)
numbered k [] = []
numbered k (a ∷ as') = (k, a) ∷ numbered (suc k) as'

numbered-lacks : {A : Type 0} (k l : ℕ) (xs : List A) → suc k ≤ l → All (LacksKey k) (numbered l xs)
numbered-lacks k l [] h = tt
numbered-lacks k l (a ∷ xs) h =
    ((λ e. absurd (omega arith)), numbered-lacks k (suc l) xs (omega arith))

numbered-Distinct : {A : Type 0} (k : ℕ) (xs : List A) → Distinct (numbered k xs)
numbered-Distinct k [] = tt
numbered-Distinct k (a ∷ xs) =
    (numbered-lacks k (suc k) xs (omega arith), numbered-Distinct (suc k) xs)

placed_first :
    {A : Type 0} (k : ℕ) (a b : A) (xs : List (ℕ × A))
    → place (k, a) ((suc k, b) ∷ xs) ≡ (k, a) ∷ (suc k, b) ∷ xs
unfolding place
placed_first k a b xs = ground arith

sort-numbered : {A : Type 0} (k : ℕ) (xs : List A) → sort_by_key (numbered k xs) ≡ numbered k xs
unfolding sort_by_key
sort-numbered k [] = refl
sort-numbered k (a ∷ []) = unfold place in refl
sort-numbered k (a ∷ b ∷ xs) =
    ap (place (k, a)) (sort-numbered (suc k) (b ∷ xs))
    ∙ placed_first k a b (numbered (suc (suc k)) xs)

second-numbered : {A : Type 0} (k : ℕ) (xs : List A) → map second (numbered k xs) ≡ xs
second-numbered k [] = refl
second-numbered k (a ∷ xs) = ap (λ t. a ∷ t) (second-numbered (suc k) xs)

-- The row of `DESCRIBE INPUT` for a parameter.
abbrev pub input_row : ℕ × Text → Row
input_row (position, type_name) = scalar (Scalar.integer (pos position)) ∷ string type_name ∷ []

-- A position that the client's integers hold.
abbrev pub Fits : ℕ × Text → Type 0
Fits (position, type_name) = position ≤ 9223372036854775807

module _ (column_size : SqlDataType → ℤ → ℤ → ℤ) where
  abbrev described : ℕ × Text → ℕ × ParamDescriptor
  described (position, type_name) = (position, param_descriptor column_size type_name)

  positioned-input_row :
      (r : ℕ × Text) → Fits r → positioned column_size (input_row r) ≡ some (described r)
  unfolding positioned as_i64 as_str to_unsigned
  positioned-input_row (n, t) h = ground arith

  filter_map-input_row :
      (rs : List (ℕ × Text))
      → All Fits rs
      → filter_map (positioned column_size) (map input_row rs) ≡ map described rs
  unfolding filter_map
  filter_map-input_row [] h = refl
  filter_map-input_row (r ∷ rs) (p, h) = rw (positioned-input_row r p, filter_map-input_row rs h)

  described-numbered :
      (k : ℕ) (ts : List Text)
      → map described (numbered k ts) ≡ numbered k (map (param_descriptor column_size) ts)
  described-numbered k [] = refl
  described-numbered k (t ∷ ts) =
      ap (λ xs. (k, param_descriptor column_size t) ∷ xs) (described-numbered (suc k) ts)

  -- Whatever order Trino's rows come in, the descriptors are in the order of the parameters: if the
  -- rows are those of parameters with these types, each with its position, then the result has the
  -- descriptor of each type in its place. A position fits into 64 bits.
  pub describe_input_rows_to_params-Shuffled :
      (rs : List (ℕ × Text)) (types : List Text)
      → Shuffled rs (numbered 0 types)
      → All Fits (numbered 0 types)
      → describe_input_rows_to_params column_size (map input_row rs)
        ≡ map (param_descriptor column_size) types
  unfolding describe_input_rows_to_params
  describe_input_rows_to_params-Shuffled rs types s h =
      let ps = map (param_descriptor column_size) types in
      let t : Shuffled (map described rs) (numbered 0 ps) =
        rw (← described-numbered 0 types) (Shuffled-map described s) in
      rw
        (
          filter_map-input_row rs (Shuffled-All Fits s h),
          sort_by_key-Shuffled t (numbered-Distinct 0 ps),
          sort-numbered 0 ps,
        )
        (second-numbered 0 ps)
