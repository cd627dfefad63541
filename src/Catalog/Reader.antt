-- ===== src/Catalog/Reader.antt =====
-- What the filters of backend/metadata.rs are read as: the patterns of ODBC's catalog functions, and
-- the conditions of a WHERE clause as Trino reads and evaluates them.
use stackable_odbc_trino.Base.{
  ℕ, zero, suc, ◌≢◌, Bool, true, false, ◌&&◌, ◌||◌, List, [], ◌∷◌, Option, none, some, ◌==◌,
  if◌then◌else◌, All,
}
use stackable_odbc_trino.Base.Fallible.{◌>>=◌}
use stackable_odbc_trino.Base.Text.{Text, codes, eq_text, split_once}
use stackable_odbc_trino.Base.Text.Parts.{strip_prefix}
use stackable_odbc_trino.Params.ReadString.{read_literal}
use stackable_odbc_trino.Catalog.Patterns.{backslash, is_wildcard}

-- An ODBC pattern: `%` stands for any characters, `_` for one.
pub data Item : Type 0 where
  any_run any_one : Item
  exact : ℕ → Item

-- The pattern has no backslash of its own: ODBC escapes only the two wildcards.
abbrev pub IsPlain : Item → Type 0
IsPlain any_run = Unit
IsPlain any_one = Unit
IsPlain (exact c) = c ≢ backslash

abbrev pub Plain : List Item → Type 0
Plain = All IsPlain

-- Some tail of the text passes the test.
unfoldable pub any_tail : (Text → Bool) → Text → Bool
any_tail test [] = test []
any_tail test (c ∷ s) = test (c ∷ s) || any_tail test s

unfoldable pub matches : List Item → Text → Bool
unfolding any_tail
matches [] [] = true
matches [] (c ∷ s) = false
matches (any_run ∷ p) s = any_tail (matches p) s
matches (any_one ∷ p) [] = false
matches (any_one ∷ p) (c ∷ s) = matches p s
matches (exact d ∷ p) [] = false
matches (exact d ∷ p) (c ∷ s) = (d == c) && matches p s

-- The pattern as an application writes it: a backslash before each character of the set that is
-- meant as itself.
unfoldable pub print_with : (ℕ → Bool) → List Item → Text
print_with escapes [] = []
print_with escapes (any_run ∷ p) = b'%' ∷ print_with escapes p
print_with escapes (any_one ∷ p) = b'_' ∷ print_with escapes p
print_with escapes (exact c ∷ p) =
    if escapes c then backslash ∷ c ∷ print_with escapes p else c ∷ print_with escapes p

abbrev pub print : List Item → Text
print = print_with is_wildcard

-- `LIKE` with a backslash as its escape character. Trino refuses an escape of anything but a
-- wildcard or the backslash itself.
unfoldable pub read_like : Text → Option (List Item)
read_like [] = some []
read_like (c ∷ []) =
    if c == backslash
    then none
    else if c == b'%'
    then some (any_run ∷ [])
    else if c == b'_'
    then some (any_one ∷ [])
    else some (exact c ∷ [])
read_like (c ∷ d ∷ s) =
    let escaped = (read_like s >>= λ p. some (exact d ∷ p)) in
    let rest = read_like (d ∷ s) in
    let run = (rest >>= λ p. some (any_run ∷ p)) in
    let one = (rest >>= λ p. some (any_one ∷ p)) in
    let itself = (rest >>= λ p. some (exact c ∷ p)) in
    if c == backslash
    then (if is_wildcard d || (d == backslash) then escaped else none)
    else if c == b'%'
    then run
    else if c == b'_'
    then one
    else itself

-- A condition on a column: it equals a text, or is like one.
pub data Test : Type 0 where
  equals like : Text → Test

unfoldable pub read_test : Text → Option (Test × Text)
read_test s = elim (strip_prefix (codes "= ") s) [
  | some t ↦ read_literal t >>= λ (v, rest). some (equals v, rest)
  | none ↦ strip_prefix (codes "LIKE ") s >>= λ t.
      (read_literal t >>= λ (v, u).
      (strip_prefix (codes " ESCAPE ") u >>= λ w.
      (read_literal w >>= λ (e, rest).
      (if eq_text e (codes "\\") then some (like v, rest) else none))))
]

-- A column's name, a space, and the test on the column.
unfoldable pub read_condition : Text → Option ((Text × Test) × Text)
unfolding read_test
read_condition s = split_once b' ' s >>= λ (column, t).
    (read_test t >>= λ (test, rest). some ((column, test), rest))

-- Conditions with `AND` between them; the fuel bounds their number.
unfoldable pub read_conditions : ℕ → Text → Option (List (Text × Test))
unfolding read_condition
read_conditions zero s = none
read_conditions (suc n) s = read_condition s >>= λ (first, rest). elim rest [
  | [] ↦ some (first ∷ [])
  | c ∷ more ↦ strip_prefix (codes " AND ") (c ∷ more) >>= λ t.
      (read_conditions n t >>= λ others. some (first ∷ others))
]

unfoldable pub passes : Test → Text → Option Bool
unfolding read_like matches
passes (equals v) s = some (eq_text v s)
passes (like v) s = read_like v >>= λ p. some (matches p s)

-- A row, given by the text in each column, passes them all.
unfoldable pub passes_all : List (Text × Test) → (Text → Text) → Option Bool
unfolding passes
passes_all [] row = some true
passes_all ((column, test) ∷ cs) row =
    passes test (row column) >>= λ first. (passes_all cs row >>= λ others. some (first && others))

-- Whether a clause of at most `n` conditions selects the row.
unfoldable pub selects : ℕ → Text → (Text → Text) → Option Bool
unfolding read_conditions passes_all
selects n [] row = some true
selects n (c ∷ s) row = strip_prefix (codes " WHERE ") (c ∷ s) >>= λ t.
    (read_conditions n t >>= λ cs. passes_all cs row)

-- What an argument asks of a value: an absent or an empty one asks nothing.
unfoldable pub wanted : Option (List Item) → Text → Bool
unfolding matches
wanted none s = true
wanted (some []) s = true
wanted (some (i ∷ p)) s = matches (i ∷ p) s
