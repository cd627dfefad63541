-- ===== src/Params/Counting.antt =====
-- When `interpolate_params` succeeds, and how it fails when the numbers of placeholders and of
-- parameters differ.
use native.Mathlib.Nat.{zero-add}
use stackable_odbc_trino.Base.{
  ℕ, zero, suc, ◌+◌, ◌≤◌, ◌<◌, ◌≡◌, refl, ◌∙◌, ap, false, inl, inr, List, [], ◌∷◌, ◌++◌, none, some,
  arith, ◌==◌, Bool-cases, All, length, get_elem?,
}
use stackable_odbc_trino.Base.Outcome.{ok, err, >>=-eq-ok}
use stackable_odbc_trino.Base.Text.{Text}
use stackable_odbc_trino.Column.{ColumnValue}
use stackable_odbc_trino.Errors.{general, not_enough_parameters, parameter_count_mismatch}
use stackable_odbc_trino.Params.Literal.{Externals, render_literal}
use stackable_odbc_trino.Params.Interpolate.{literal_at, finish, interpolate_params}
use stackable_odbc_trino.Params.Template.{
  Piece, char, hole, pieces, count_holes, placeholders, fill, interpolate_params-fill,
}

-- The value can be rendered.
abbrev pub Renders : Externals → ColumnValue → Type 0
Renders x v = (l : Text) × (render_literal x v ≡ ok l)

get_elem?-Renders :
    (x : Externals) (ps : List ColumnValue) (i : ℕ)
    → All (Renders x) ps
    → i < length ps
    → (v : ColumnValue) × (get_elem? ps i ≡ some v) × Renders x v
get_elem?-Renders x [] i h l = elim l [ ]
get_elem?-Renders x (v ∷ ps) zero h l = (v, refl, h.0)
get_elem?-Renders x (v ∷ ps) (suc i) h l = get_elem?-Renders x ps i h.1 (omega arith)

get_elem?_past : (ps : List ColumnValue) (i : ℕ) → length ps ≤ i → get_elem? ps i ≡ none
get_elem?_past [] i h = refl
get_elem?_past (v ∷ ps) zero h = elim h [ ]
get_elem?_past (v ∷ ps) (suc i) h = get_elem?_past ps i (omega arith)

module _ (x : Externals) (params : List ColumnValue) where
  fill-count :
      (p : List Piece) (next : ℕ) (out : Text)
      → fill x params p next ≡ ok out
      → next + count_holes p ≡ length params
  unfolding fill finish count_holes
  fill-count [] next out h = ground arith
  fill-count (char c ∷ p) next out h =
      let (t, e, _) = >>=-eq-ok (fill x params p next) _ h in fill-count p next t e
  fill-count (hole ∷ p) next out h =
      let (l, _, h') = >>=-eq-ok (literal_at x params next) _ h in
      let (t, e, _) = >>=-eq-ok (fill x params p (next + 1)) _ h' in
      omega (arith, fill-count p (next + 1) t e)

  module _ (all : All (Renders x) params) where
    literal_at-ok :
        (next : ℕ) → next < length params → (l : Text) × (literal_at x params next ≡ ok l)
    unfolding literal_at
    literal_at-ok next b =
        let (v, e, r) = get_elem?-Renders x params next all b in (r.0, ground arith)

    literal_at-err :
        (next : ℕ)
        → next ≡ length params
        → literal_at x params next
          ≡ err (general (not_enough_parameters (length params + 1) (length params)))
    unfolding literal_at
    literal_at-err next e =
        rw e (ground (arith, get_elem?_past params (length params) (omega arith)))

    -- What filling gives, by the number of holes.
    fill_exact :
        (p : List Piece) (next : ℕ)
        → next + count_holes p ≡ length params
        → (out : Text) × (fill x params p next ≡ ok out)
    unfolding fill finish count_holes
    fill_exact [] next e = ([], ground arith)
    fill_exact (char c ∷ p) next e = let (out, h) = fill_exact p next e in (c ∷ out, rw h)
    fill_exact (hole ∷ p) next e =
        let (l, hl) = literal_at-ok next (omega arith) in
        let (out, h) = fill_exact p (next + 1) (omega arith) in (l ++ out, rw (hl, h))

    fill_few :
        (p : List Piece) (next : ℕ)
        → next ≤ length params
        → length params < next + count_holes p
        → fill x params p next
          ≡ err (general (not_enough_parameters (length params + 1) (length params)))
    unfolding fill count_holes
    fill_few [] next b e = absurd (omega arith)
    fill_few (char c ∷ p) next b e = rw (fill_few p next b e)
    fill_few (hole ∷ p) next b e = elim (Bool-cases (next == length params)) [
      | inl same ↦ rw (literal_at-err next (ground arith))
      | inr differ ↦
          let (l, hl) = literal_at-ok next (ground arith) in
          rw (hl, fill_few p (next + 1) (ground arith) (omega arith))
    ]

    fill_many :
        (p : List Piece) (next : ℕ)
        → next + count_holes p < length params
        → fill x params p next
          ≡ err (general (parameter_count_mismatch (length params) (next + count_holes p)))
    unfolding fill finish count_holes
    fill_many [] next e = ground arith
    fill_many (char c ∷ p) next e = rw (fill_many p next e)
    fill_many (hole ∷ p) next e =
        let (l, hl) = literal_at-ok next (omega arith) in
        rw (hl, fill_many p (next + 1) (omega arith)) (ground arith)

-- When the result is a statement, as many parameters are bound as the statement has placeholders
-- outside its string literals.
pub interpolate_params-placeholders :
    (x : Externals) (params : List ColumnValue) (sql : Text) {out : Text}
    → interpolate_params x params sql ≡ ok out
    → placeholders sql ≡ length params
unfolding placeholders
interpolate_params-placeholders x params sql {out} h = omega (
  arith,
  fill-count x params (pieces false sql) 0 out (rw (interpolate_params-fill x params sql) at h),
)

-- If every bound value can be rendered, interpolation succeeds when the numbers of placeholders and
-- parameters agree; with too few parameters the error names the first placeholder without a value,
-- and with too many it reports both numbers.
pub interpolate_params_by_count :
    (x : Externals) (params : List ColumnValue) (sql : Text)
    → All (Renders x) params
    → (placeholders sql ≡ length params → (out : Text) × (interpolate_params x params sql ≡ ok out))
      × (length params < placeholders sql
          → interpolate_params x params sql
            ≡ err (general (not_enough_parameters (length params + 1) (length params))))
      × (placeholders sql < length params
          → interpolate_params x params sql
            ≡ err (general (parameter_count_mismatch (length params) (placeholders sql))))
unfolding placeholders
interpolate_params_by_count x params sql all = rw (interpolate_params-fill x params sql) (
  λ e. fill_exact x params all (pieces false sql) 0 (omega arith),
  λ e. fill_few x params all (pieces false sql) 0 (omega arith) (omega arith),
  λ e.
      fill_many x params all (pieces false sql) 0 (omega arith)
      ∙ ap (λ n. err (general (parameter_count_mismatch (length params) n)))
          (zero-add (count_holes (pieces false sql))),
)
