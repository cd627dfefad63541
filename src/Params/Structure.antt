-- ===== src/Params/Structure.antt =====
-- A statement before and after `interpolate_params` of backend/params.rs, as Trino's lexer reads it.
use mathlib.Core.Path.{subst}
use stackable_odbc_trino.Base.{
  ℕ, ◌+◌, ◌≡◌, refl, sym, ap, ◌∙◌, Bool, true, false, not, ◌&&◌, ◌||◌, if◌then◌else◌, inl, inr,
  List, [], ◌∷◌, ◌++◌, arith, ◌==◌, Bool-cases, Option-cases, get_elem?,
}
use stackable_odbc_trino.Base.Outcome.{Result, ok, err, ◌>>=◌}
use stackable_odbc_trino.Base.Text.{Text}
use stackable_odbc_trino.Column.{ColumnValue}
use stackable_odbc_trino.Params.Literal.{Externals, quote}
use stackable_odbc_trino.Errors.{TrinoError}
use stackable_odbc_trino.Params.Interpolate.{push, literal_at, finish, interpolate_params}
use stackable_odbc_trino.Params.Lexing.{Mode, code, opened, step, lex, lex-append, FloatsLackQuotes}
use stackable_odbc_trino.Params.Balance.{render_literal-Closed}
use stackable_odbc_trino.Params.Template.{char, hole, pieces, fill, interpolate_params-fill}

unfoldable pub is_code : Mode → Bool
is_code code = true
is_code _ = false

is_code-eq_true : (m : Mode) → is_code m ≡ true → m ≡ code
unfolding is_code
is_code-eq_true Mode.code h = refl
is_code-eq_true Mode.minus h = cc
is_code-eq_true Mode.slash h = cc
is_code-eq_true Mode.literal h = cc
is_code-eq_true Mode.identifier h = cc
is_code-eq_true Mode.backquoted h = cc
is_code-eq_true Mode.line_comment h = cc
is_code-eq_true Mode.block_comment h = cc
is_code-eq_true Mode.star h = cc

-- Whether every placeholder that the driver fills, by its own reading of the quotes, stands where
-- Trino reads code, and not directly behind a minus or a slash.
unfoldable pub fills_code : Bool → Mode → Text → Bool
unfolding is_code step
fills_code b m [] = true
fills_code b m (c ∷ s) =
    let rest = fills_code (if c == quote then not b else b) (step m c) s in
    (is_code m || not ((c == b'?') && not b)) && rest

-- The second text is the first with some placeholders replaced by texts that are read from code to
-- code; every other character is kept, and is read in the mode in which the first text has it.
pub data Keeps : Mode → Text → Text → Type 0 where
  ended : (m : Mode) → Keeps m [] []
  kept : (m : Mode) (c : ℕ) (s t : Text) → Keeps (step m c) s t → Keeps m (c ∷ s) (c ∷ t)
  filled :
      (m : Mode) (c : ℕ) (l s t out : Text)
      → m ≡ code
      → c ≡ b'?'
      → lex code l ≡ code
      → out ≡ l ++ t
      → Keeps code s t
      → Keeps m (c ∷ s) out

-- So both end in the same mode.
pub Keeps-lex : {m : Mode} {s t : Text} → Keeps m s t → lex m t ≡ lex m s
unfolding lex
Keeps-lex (ended m) = refl
Keeps-lex (kept m c s t k) = Keeps-lex k
Keeps-lex (filled m c l s t out e q closed o k) =
    let back : step m c ≡ code = rw (e, q) (unfold step opened in refl) in
    rw (o, e, lex-append code l t, closed)
      (Keeps-lex k ∙ ap (λ n. lex n s) (sym back ∙ ap (λ n. step n c) e))

-- A push that succeeds puts its character before a text.
push-eq_ok :
    (c : ℕ) (m : Result TrinoError Text) {out : Text}
    → push c m ≡ ok out
    → (t : Text) × (m ≡ ok t) × (out ≡ c ∷ t)
push-eq_ok c (ok t) h = (t, refl, cc)
push-eq_ok c (err e) h = cc

hole-eq_ok :
    (m n : Result TrinoError Text) {out : Text}
    → (m >>= λ l. n >>= λ t. ok (l ++ t)) ≡ ok out
    → (l : Text) × (t : Text) × (m ≡ ok l) × (n ≡ ok t) × (out ≡ l ++ t)
hole-eq_ok (ok l) (ok t) h = (l, t, refl, refl, cc)
hole-eq_ok (ok l) (err e) h = cc
hole-eq_ok (err e) n h = cc

pieces-quote :
    (b : Bool) (c : ℕ) (s : Text)
    → (c == quote) ≡ true
    → pieces b (c ∷ s) ≡ char c ∷ pieces (not b) s
unfolding pieces
pieces-quote b c s q = rw q

pieces_hole :
    (b : Bool) (c : ℕ) (s : Text)
    → (c == quote) ≡ false
    → ((c == b'?') && not b) ≡ true
    → pieces b (c ∷ s) ≡ hole ∷ pieces b s
unfolding pieces
pieces_hole b c s nq p = rw (nq, p)

pieces_plain :
    (b : Bool) (c : ℕ) (s : Text)
    → (c == quote) ≡ false
    → ((c == b'?') && not b) ≡ false
    → pieces b (c ∷ s) ≡ char c ∷ pieces b s
unfolding pieces
pieces_plain b c s nq p = rw (nq, p)

module _ (x : Externals) (floats : FloatsLackQuotes x) (params : List ColumnValue) where
  literal_at-Closed : (next : ℕ) (l : Text) → literal_at x params next ≡ ok l → lex code l ≡ code
  unfolding literal_at
  literal_at-Closed next l h = elim (Option-cases (get_elem? params next)) [
    | inl e ↦ ground arith
    | inr (v, e) ↦ render_literal-Closed x floats v l (ground arith)
  ]

  fills-quote :
      (b : Bool) (m : Mode) (c : ℕ) (s : Text)
      → (c == quote) ≡ true
      → fills_code b m (c ∷ s) ≡ true
      → fills_code (not b) (step m c) s ≡ true
  unfolding fills_code
  fills-quote b m c s q h = ground arith

  fills_other :
      (b : Bool) (m : Mode) (c : ℕ) (s : Text)
      → (c == quote) ≡ false
      → fills_code b m (c ∷ s) ≡ true
      → fills_code b (step m c) s ≡ true
  unfolding fills_code
  fills_other b m c s q h = ground arith

  fills_hole :
      (b : Bool) (m : Mode) (c : ℕ) (s : Text)
      → ((c == b'?') && not b) ≡ true
      → fills_code b m (c ∷ s) ≡ true
      → is_code m ≡ true
  unfolding fills_code
  fills_hole b m c s q h = ground arith

  -- One clause for each way in which the next character is read.
  fill-Keeps :
      (s : Text) (b : Bool) (m : Mode) (next : ℕ) (out : Text)
      → fills_code b m s ≡ true
      → fill x params (pieces b s) next ≡ ok out
      → Keeps m s out
  unfolding fill finish
  fill-Keeps [] b m next out f h =
      let none_left : out ≡ [] = unfold pieces in ground arith in rw none_left (ended m)
  fill-Keeps (c ∷ s) b m next out f h = elim (Bool-cases (c == quote)) [
    | inl q ↦
        let (t, e, o) =
          push-eq_ok c (fill x params (pieces (not b) s) next)
            (subst (λ p. fill x params p next ≡ ok out) (pieces-quote b c s q) h) in
        rw o (kept m c s t (fill-Keeps s (not b) (step m c) next t (fills-quote b m c s q f) e))
    | inr nq ↦ elim (Bool-cases ((c == b'?') && not b)) [
      | inl placeholder ↦
          let (l, t, el, e, o) =
            hole-eq_ok (literal_at x params next) (fill x params (pieces b s) (next + 1))
              (subst (λ p. fill x params p next ≡ ok out) (pieces_hole b c s nq placeholder) h) in
          let here = is_code-eq_true m (fills_hole b m c s placeholder f) in
          let mark : c ≡ b'?' = ground arith in
          let back : step m c ≡ code = rw (here, mark) (unfold step opened in refl) in
          filled m c l s t out here mark (literal_at-Closed next l el) o (
            fill-Keeps s b code (next + 1) t
              (subst (λ n. fills_code b n s ≡ true) back (fills_other b m c s nq f)) e)
      | inr plain ↦
          let (t, e, o) =
            push-eq_ok c (fill x params (pieces b s) next)
              (subst (λ p. fill x params p next ≡ ok out) (pieces_plain b c s nq plain) h) in
          rw o (kept m c s t (fill-Keeps s b (step m c) next t (fills_other b m c s nq f) e))
    ]
  ]

-- No bound value changes how Trino reads the statement, if every placeholder that is filled stands in
-- code, not directly behind a minus or a slash, and the float formatter prints no quote: each literal
-- is read from code to code, and every other character as in the template, inside or outside of
-- string literals, quoted identifiers and comments.
pub interpolate_params-Keeps :
    (x : Externals) (params : List ColumnValue) (sql : Text) {out : Text}
    → FloatsLackQuotes x
    → fills_code false code sql ≡ true
    → interpolate_params x params sql ≡ ok out
    → Keeps code sql out × (lex code out ≡ lex code sql)
interpolate_params-Keeps x params sql {out} floats f h =
    let kept =
      fill-Keeps x floats params sql false code 0 out f
        (rw (interpolate_params-fill x params sql) at h) in
    (kept, Keeps-lex kept)
