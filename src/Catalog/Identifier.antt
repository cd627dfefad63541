-- ===== src/Catalog/Identifier.antt =====
-- Whose information schema backend/metadata.rs queries, and how Trino reads its name.
use stackable_odbc_trino.Base.{
  ℕ, ◌≡◌, refl, ◌≢◌, true, false, inl, inr, List, [], ◌∷◌, ◌++◌, Option, none, some, arith, ◌==◌,
  if◌then◌else◌, Bool-cases,
}
use mathlib.Core.Option
use stackable_odbc_trino.Base.Fallible.{◌>>=◌}
use stackable_odbc_trino.Base.Text.{Text, codes, is_empty, eq_text, cons_first}
use stackable_odbc_trino.Base.Text.Parts.{strip_prefix}
use stackable_odbc_trino.Connect.Auth.{double_double}
use stackable_odbc_trino.Catalog.Patterns.{restricts, session_schema, information_schema_ref}
use stackable_odbc_trino.Catalog.Reader.{Item, any_run, any_one, exact, Plain, print, print_with}
use stackable_odbc_trino.Catalog.Clauses.{PlainArgument}
use stackable_odbc_trino.Catalog.Escapes.{
  has_wild, has_odbc_wildcards-name, name_of, unescaped-name,
}

-- What Trino reads behind the opening quote of a delimited identifier.
unfoldable pub read_delimited : Text → Option (Text × Text)
read_delimited [] = none
read_delimited (c ∷ []) = if c == b'"' then some ([], []) else none
read_delimited (c ∷ d ∷ s) =
    let doubled = cons_first b'"' (read_delimited s) in
    let copied = cons_first c (read_delimited (d ∷ s)) in
    if c == b'"' then (if d == b'"' then doubled else some ([], d ∷ s)) else copied

read_delimited_plain :
    (c : ℕ) (t : Text)
    → (c == b'"') ≡ false
    → read_delimited (c ∷ t) ≡ cons_first c (read_delimited t)
unfolding read_delimited
read_delimited_plain c [] h = rw h
read_delimited_plain c (d ∷ t) h = rw h

-- The text behind the name does not begin with the delimiter.
read-double_double :
    (s : Text) (d : ℕ) (rest : Text)
    → d ≢ b'"'
    → read_delimited (double_double s ++ b'"' ∷ d ∷ rest) ≡ some (s, d ∷ rest)
unfolding read_delimited double_double
read-double_double [] d rest h = ground arith
read-double_double (c ∷ s) d rest h = elim (Bool-cases (c == b'"')) [
  | inl q ↦ rw (q, read-double_double s d rest h) (ground arith)
  | inr nq ↦ rw (nq, read_delimited_plain c _ nq, read-double_double s d rest h)
]

-- A table of an information schema: the catalog, if one is named, and the table.
unfoldable pub read_schema : Text → Option (Option Text × Text)
read_schema [] = none
read_schema (c ∷ s) =
    if c == b'"'
    then (read_delimited s >>= λ (catalog, rest).
        (strip_prefix (codes ".information_schema.") rest >>= λ table. some (some catalog, table)))
    else (strip_prefix (codes "information_schema.") (c ∷ s) >>= λ table. some (none, table))

-- The catalog whose information schema has the answer: the one that an argument without wildcards
-- names, and otherwise the session's.
abbrev pub queried : Option (List Item) → Option Text
queried none = none
queried (some []) = none
queried (some (i ∷ p)) = if has_wild (i ∷ p) then none else some (name_of (i ∷ p))

read_session : (table : Text) → read_schema (session_schema table) ≡ some (none, table)
unfolding read_schema strip_prefix
read_session table = refl

named_schema :
    (name table : Text)
    → read_schema (b'"' ∷ (double_double name ++ (codes "\".information_schema." ++ table)))
      ≡ some (some name, table)
unfolding read_schema strip_prefix
named_schema name table = rw (
    read-double_double name b'.' (codes "information_schema." ++ table) (λ e. absurd (omega arith)))

restricts_name :
    (i : Item) (p : List Item) → has_wild (i ∷ p) ≡ false → restricts (print (i ∷ p)) ≡ true
unfolding restricts has_wild print_with is_empty eq_text
restricts_name any_run p h = cc
restricts_name any_one p h = cc
restricts_name (exact c) p h = ground arith

named_ref :
    (i : Item) (p : List Item) (table : Text)
    → Plain (i ∷ p)
    → has_wild (i ∷ p) ≡ false
    → read_schema (information_schema_ref (some (print (i ∷ p))) table)
      ≡ some (some (name_of (i ∷ p)), table)
unfolding information_schema_ref
named_ref i p table plain e =
    rw
      (restricts_name i p e, has_odbc_wildcards-name (i ∷ p) plain, e, unescaped-name (i ∷ p) plain)
      (named_schema (name_of (i ∷ p)) table)

wild_ref :
    (p : List Item) (table : Text)
    → Plain p
    → has_wild p ≡ true
    → read_schema (information_schema_ref (some (print p)) table) ≡ some (none, table)
unfolding information_schema_ref
wild_ref p table plain e = elim (Bool-cases (restricts (print p))) [
  | inl r ↦ rw (r, has_odbc_wildcards-name p plain, e) (read_session table)
  | inr r ↦ rw r (read_session table)
]

-- The query goes to the information schema of the catalog that the argument names, exactly as it is
-- named once its escapes are taken away, whatever quotes it has; a pattern with wildcards, an empty
-- argument and an absent one go to that of the session's catalog.
pub information_schema_ref_lem :
    (catalog : Option (List Item)) (table : Text)
    → PlainArgument catalog
    → read_schema (information_schema_ref (Option.map print catalog) table)
      ≡ some (queried catalog, table)
information_schema_ref_lem none table plain = unfold information_schema_ref in read_session table
information_schema_ref_lem (some []) table plain =
    unfold information_schema_ref restricts print_with is_empty in read_session table
information_schema_ref_lem (some (i ∷ p)) table plain = elim (Bool-cases (has_wild (i ∷ p))) [
  | inl e ↦ rw e (wild_ref (i ∷ p) table plain e)
  | inr e ↦ rw e (named_ref i p table plain e)
]
