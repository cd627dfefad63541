-- ===== src/Params/Template.antt =====
-- `interpolate_params` against a specification with no look-ahead: the statement is first cut into
-- pieces, by a reader for which every quote toggles, and the holes are then filled in order.
use stackable_odbc_trino.Base.{
  ℕ, ◌+◌, ◌≡◌, refl, Bool, true, false, not, ◌&&◌, List, [], ◌∷◌, ◌++◌, arith, ◌==◌, if◌then◌else◌,
}
use stackable_odbc_trino.Base.Outcome.{Result, ok, ◌>>=◌}
use stackable_odbc_trino.Base.Text.{Text}
use stackable_odbc_trino.Column.{ColumnValue}
use stackable_odbc_trino.Errors.{TrinoError}
use stackable_odbc_trino.Params.Literal.{Externals, quote}
use stackable_odbc_trino.Params.Interpolate.{push, literal_at, finish, scan, interpolate_params}

pub data Piece : Type 0 where
  char : ℕ → Piece
  hole : Piece

-- The pieces of a text that is read from inside a string literal, or from outside.
unfoldable pub pieces : Bool → Text → List Piece
pieces b [] = []
pieces b (c ∷ s) =
    if c == quote
    then char c ∷ pieces (not b) s
    else if (c == b'?') && not b
    then hole ∷ pieces b s
    else char c ∷ pieces b s

unfoldable pub count_holes : List Piece → ℕ
count_holes [] = 0
count_holes (char c ∷ p) = count_holes p
count_holes (hole ∷ p) = count_holes p + 1

-- The number of `?` of a statement that stand outside its string literals.
unfoldable pub placeholders : Text → ℕ
placeholders sql = count_holes (pieces false sql)

module _ (x : Externals) (params : List ColumnValue) where
  -- The holes filled in order, from parameter `next` on.
  unfoldable pub fill : List Piece → ℕ → Result TrinoError Text
  fill [] next = finish x params next
  fill (char c ∷ p) next = push c (fill p next)
  fill (hole ∷ p) next = literal_at x params next >>= λ l. fill p (next + 1) >>= λ t. ok (l ++ t)

  scan-fill : (s : Text) (next : ℕ) (b : Bool) → scan x params s next b ≡ fill (pieces b s) next
  unfolding scan fill pieces
  scan-fill [] next b = refl
  scan-fill (c ∷ []) next b = ground arith
  scan-fill (c ∷ d ∷ s) next true =
      ground
        (arith, scan-fill (d ∷ s) next true, scan-fill (d ∷ s) next false, scan-fill s next true)
  scan-fill (c ∷ d ∷ s) next false = ground (
    arith,
    scan-fill (d ∷ s) next true,
    scan-fill (d ∷ s) next false,
    scan-fill (d ∷ s) (next + 1) false,
  )

-- For every statement and every list of parameters the loop with its look-ahead for a doubled
-- quote gives the result of the specification, errors included: the statement is cut at the
-- placeholders outside string literals, every quote toggling, and the parameters fill them in order.
pub interpolate_params-fill :
    (x : Externals) (params : List ColumnValue) (sql : Text)
    → interpolate_params x params sql ≡ fill x params (pieces false sql) 0
unfolding interpolate_params
interpolate_params-fill x params sql = scan-fill x params sql 0 false
