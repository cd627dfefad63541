-- ===== src/Catalog/Selection.antt =====
-- What the catalog functions of backend/metadata.rs select: the rows that match every argument.
use stackable_odbc_trino.Base.{
  ℕ, ◌≤◌, ◌≡◌, refl, Bool, true, false, not, ◌&&◌, List, [], ◌∷◌, length, Option, none, some, inl,
  inr, arith, All, Bool-cases,
}
use mathlib.Core.Option
use stackable_odbc_trino.Base.Text.{Text, codes, eq_text, is_empty}
use stackable_odbc_trino.Catalog.Patterns.{
  restricts, where_clause, build_tables_where_clause, build_columns_where_clause,
}
use stackable_odbc_trino.Catalog.Reader.{
  Item, any_run, any_one, exact, any_tail, matches, print_with, print, selects, wanted,
}
use stackable_odbc_trino.Catalog.Clauses.{
  Argument, PlainArgument, IsArgument, all_match, asked_of, push_all, selects_lem,
  push_all-asked_of, asked_of-IsAsked, length-asked_of,
}

any_tail-end : (s : Text) → any_tail (matches []) s ≡ true
unfolding any_tail matches
any_tail-end [] = refl
any_tail-end (c ∷ s) = ground (arith, any_tail-end s)

print-empty : (i : Item) (p : List Item) → is_empty (print (i ∷ p)) ≡ false
unfolding print_with is_empty
print-empty any_run p = refl
print-empty any_one p = refl
print-empty (exact c) p = ground arith

eq_text_nil : (s : Text) → eq_text s [] ≡ is_empty s
unfolding eq_text is_empty
eq_text_nil [] = refl
eq_text_nil (c ∷ s) = refl

restricts_run : (i : Item) (p : List Item) → restricts (print (any_run ∷ i ∷ p)) ≡ true
restricts_run i p =
    let e : restricts (b'%' ∷ print (i ∷ p)) ≡ not (eq_text (print (i ∷ p)) []) =
      unfold restricts eq_text is_empty in refl in
    let printed : print (any_run ∷ i ∷ p) ≡ b'%' ∷ print (i ∷ p) = unfold print_with in refl in
    rw (printed, e, eq_text_nil, print-empty i p)

not_both : {b : Bool} → b ≡ false → b ≡ true → ⊥
not_both h k = cc

-- An argument that gives no condition asks nothing.
wanted-unrestricted :
    (p : List Item) (s : Text) → restricts (print p) ≡ false → wanted (some p) s ≡ true
unfolding restricts wanted
wanted-unrestricted [] s h = refl
wanted-unrestricted (any_run ∷ []) s h = unfold matches in any_tail-end s
wanted-unrestricted (any_run ∷ i ∷ p) s h = absurd (not_both h (restricts_run i p))
wanted-unrestricted (any_one ∷ p) s h = unfold print_with eq_text is_empty in cc
wanted-unrestricted (exact c ∷ p) s h = unfold print_with eq_text is_empty in ground arith

wanted-restricted :
    (p : List Item) (s : Text) → restricts (print p) ≡ true → wanted (some p) s ≡ matches p s
unfolding wanted
wanted-restricted [] s h = unfold restricts print_with is_empty in cc
wanted-restricted (i ∷ p) s h = refl

unfoldable pub all_wanted : List Argument → (Text → Text) → Bool
all_wanted [] row = true
all_wanted ((column, arg) ∷ args) row = wanted arg (row column) && all_wanted args row

all_match-asked_of :
    (args : List Argument) (row : Text → Text) → all_match (asked_of args) row ≡ all_wanted args row
unfolding all_match asked_of all_wanted wanted
all_match-asked_of [] row = refl
all_match-asked_of ((column, none) ∷ args) row = all_match-asked_of args row
all_match-asked_of ((column, some p) ∷ args) row = elim (Bool-cases (restricts (print p))) [
  | inl e ↦ rw (e, wanted-restricted p (row column) e, all_match-asked_of args row)
  | inr e ↦ rw (e, wanted-unrestricted p (row column) e, all_match-asked_of args row)
]

selects-push_all :
    (n : ℕ) (args : List Argument) (row : Text → Text)
    → length args ≤ n
    → All IsArgument args
    → selects n (where_clause (push_all [] args)) row ≡ some (all_wanted args row)
selects-push_all n args row h plain =
    rw (push_all-asked_of [] args, ← all_match-asked_of args row)
      (selects_lem n (asked_of args) row (omega (arith, length-asked_of args))
        (asked_of-IsAsked args plain))

module _ (catalog schema table : Option (List Item)) (row : Text → Text)
    (plain_catalog : PlainArgument catalog) (plain_schema : PlainArgument schema)
    (plain_table : PlainArgument table) where
  -- The clause for tables and their privileges is well-formed, and selects exactly the rows whose
  -- catalog, schema and name match the patterns of the three arguments; an argument that is absent
  -- or empty selects everything. The patterns escape nothing but wildcards.
  pub build_tables_where_clause-selects :
      selects 3
        (build_tables_where_clause
          (Option.map print catalog)
          (Option.map print schema)
          (Option.map print table))
        row
      ≡ some (
          wanted catalog (row (codes "table_catalog"))
          && (wanted schema (row (codes "table_schema"))
              && (wanted table (row (codes "table_name")) && true)))
  unfolding build_tables_where_clause push_all all_wanted
  build_tables_where_clause-selects =
      selects-push_all 3
        ((codes "table_catalog", catalog)
          ∷ (codes "table_schema", schema)
          ∷ (codes "table_name", table)
          ∷ [])
        row (omega arith)
        (
          (omega arith, plain_catalog),
          ((omega arith, plain_schema), ((omega arith, plain_table), tt)),
        )

  -- The clause for columns is well-formed, and selects exactly the rows whose catalog, schema, table
  -- and name match the patterns of the four arguments, however many wildcards, escapes and quotes
  -- these have; an argument that is absent or empty selects everything. The patterns escape nothing
  -- but wildcards.
  pub build_columns_where_clause-selects :
      (column : Option (List Item))
      → PlainArgument column
      → selects 4
          (build_columns_where_clause
            (Option.map print catalog)
            (Option.map print schema)
            (Option.map print table)
            (Option.map print column))
          row
        ≡ some (
            wanted catalog (row (codes "table_catalog"))
            && (wanted schema (row (codes "table_schema"))
                && (wanted table (row (codes "table_name"))
                    && (wanted column (row (codes "column_name")) && true))))
  unfolding build_columns_where_clause push_all all_wanted
  build_columns_where_clause-selects column plain_column =
      selects-push_all 4
        ((codes "table_catalog", catalog)
          ∷ (codes "table_schema", schema)
          ∷ (codes "table_name", table)
          ∷ (codes "column_name", column)
          ∷ [])
        row (omega arith)
        (
          (omega arith, plain_catalog),
          (
            (omega arith, plain_schema),
            ((omega arith, plain_table), ((omega arith, plain_column), tt)),
          ),
        )
