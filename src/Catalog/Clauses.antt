-- ===== src/Catalog/Clauses.antt =====
-- Whole WHERE clauses of backend/metadata.rs, against the patterns of the arguments.
use stackable_odbc_trino.Base.{
  ℕ, zero, suc, ◌≤◌, ◌≡◌, refl, ◌∙◌, Bool, true, ◌&&◌, List, [], ◌∷◌, ◌++◌, map, length, Option,
  none, some, inl, inr, arith, if◌then◌else◌, All, Bool-cases, append_assoc, append-nil,
}
use mathlib.Core.Option
use stackable_odbc_trino.Base.Fallible.{◌>>=◌}
use stackable_odbc_trino.Base.Text.{Text, codes}
use stackable_odbc_trino.Base.Text.Parts.{strip_prefix, Lacks}
use stackable_odbc_trino.Catalog.Patterns.{
  condition, restricts, push_filter, push_argument, join_and, where_clause,
}
use stackable_odbc_trino.Catalog.Reader.{
  Item, Plain, matches, print, Test, read_condition, read_conditions, passes_all, selects,
}
use stackable_odbc_trino.Catalog.Filters.{test_of, read_condition_lem, passes_lem}

-- An argument of a catalog function, with the column that it restricts.
abbrev pub Argument : Type 0
Argument = Text × Option (List Item)

abbrev pub PlainArgument : Option (List Item) → Type 0
PlainArgument none = Unit
PlainArgument (some p) = Plain p

abbrev pub IsAsked : Text × List Item → Type 0
IsAsked (column, p) = Lacks b' ' column × Plain p

abbrev pub IsArgument : Argument → Type 0
IsArgument (column, arg) = Lacks b' ' column × PlainArgument arg

abbrev pub condition_of : Text × List Item → Text
condition_of (column, p) = condition column (print p)

abbrev tested : Text × List Item → Text × Test
tested (column, p) = (column, test_of p)

read_conditions_last :
    (n : ℕ) (s : Text) (first : Text × Test)
    → read_condition s ≡ some (first, [])
    → read_conditions (suc n) s ≡ some (first ∷ [])
unfolding read_conditions
read_conditions_last n s first e = rw e

read_conditions_more :
    (n : ℕ) (s t : Text) (first : Text × Test)
    → read_condition s ≡ some (first, codes " AND " ++ t)
    → read_conditions (suc n) s ≡ (read_conditions n t >>= λ others. some (first ∷ others))
unfolding read_conditions strip_prefix
read_conditions_more n s t first e = rw e

-- Conditions with `AND` between them are read one by one.
read_conditions-join :
    (n : ℕ) (k : Text × List Item) (ks : List (Text × List Item))
    → length ks ≤ n
    → All IsAsked (k ∷ ks)
    → read_conditions (suc n) (join_and (map condition_of (k ∷ ks))) ≡ some (map tested (k ∷ ks))
unfolding join_and
read_conditions-join n (column, p) [] h ((spaceless, plain), _) =
    let e : read_condition (condition column (print p)) ≡ some ((column, test_of p), []) =
      rw (← append-nil (condition column (print p)))
        (read_condition_lem column [] spaceless tt p plain) in
    read_conditions_last n _ _ e
read_conditions-join zero (column, p) (k ∷ ks) h asked = absurd (omega arith)
read_conditions-join (suc n) (column, p) (k ∷ ks) h ((spaceless, plain), asked) =
    let rest = join_and (map condition_of (k ∷ ks)) in
    let e =
      read_condition_lem column (codes " AND " ++ rest) spaceless (λ e. absurd (omega arith)) p
        plain in
    rw (read_conditions_more (suc n) _ rest _ e, read_conditions-join n k ks (omega arith) asked)

-- What the patterns ask of a row.
unfoldable pub all_match : List (Text × List Item) → (Text → Text) → Bool
all_match [] row = true
all_match ((column, p) ∷ ks) row = matches p (row column) && all_match ks row

passes_all_lem :
    (ks : List (Text × List Item)) (row : Text → Text)
    → All IsAsked ks
    → passes_all (map tested ks) row ≡ some (all_match ks row)
unfolding passes_all all_match
passes_all_lem [] row h = refl
passes_all_lem ((column, p) ∷ ks) row ((_, plain), h) =
    rw (passes_lem p (row column) plain, passes_all_lem ks row h)

pub selects_lem :
    (n : ℕ) (ks : List (Text × List Item)) (row : Text → Text)
    → length ks ≤ n
    → All IsAsked ks
    → selects n (where_clause (map condition_of ks)) row ≡ some (all_match ks row)
unfolding selects where_clause strip_prefix
selects_lem n [] row h asked = unfold all_match in refl
selects_lem zero (k ∷ ks) row h asked = absurd (omega arith)
selects_lem (suc n) (k ∷ ks) row h asked =
    rw (read_conditions-join n k ks (omega arith) asked) (passes_all_lem (k ∷ ks) row asked)

-- The arguments that give a condition.
unfoldable pub asked_of : List Argument → List (Text × List Item)
asked_of [] = []
asked_of ((column, none) ∷ args) = asked_of args
asked_of ((column, some p) ∷ args) =
    if restricts (print p) then (column, p) ∷ asked_of args else asked_of args

unfoldable pub push_all : List Text → List Argument → List Text
push_all conditions [] = conditions
push_all conditions ((column, arg) ∷ args) =
    push_all (push_argument conditions column (Option.map print arg)) args

pub push_all-asked_of :
    (conditions : List Text) (args : List Argument)
    → push_all conditions args ≡ conditions ++ map condition_of (asked_of args)
unfolding push_all asked_of push_argument push_filter
push_all-asked_of conditions [] = rw append-nil
push_all-asked_of conditions ((column, none) ∷ args) = push_all-asked_of conditions args
push_all-asked_of conditions ((column, some p) ∷ args) = elim (Bool-cases (restricts (print p))) [
  | inl e ↦ rw e (
      push_all-asked_of (conditions ++ condition column (print p) ∷ []) args
      ∙ append_assoc conditions _ _)
  | inr e ↦ rw e (push_all-asked_of conditions args)
]

pub asked_of-IsAsked : (args : List Argument) → All IsArgument args → All IsAsked (asked_of args)
unfolding asked_of
asked_of-IsAsked [] h = tt
asked_of-IsAsked ((column, none) ∷ args) (_, h) = asked_of-IsAsked args h
asked_of-IsAsked ((column, some p) ∷ args) (own, h) = elim (Bool-cases (restricts (print p))) [
  | inl e ↦ rw e (own, asked_of-IsAsked args h)
  | inr e ↦ rw e (asked_of-IsAsked args h)
]

pub length-asked_of : (args : List Argument) → length (asked_of args) ≤ length args
unfolding asked_of
length-asked_of [] = omega arith
length-asked_of ((column, none) ∷ args) = omega (arith, length-asked_of args)
length-asked_of ((column, some p) ∷ args) = ground (arith, length-asked_of args)
