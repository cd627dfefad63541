-- ===== src/Catalog/Answers.antt =====
-- What the catalog functions of backend/metadata.rs answer: in a transaction, and of which types.
use stackable_odbc_trino.Base.{
  ◌≡◌, refl, sym, ◌⊎◌, inl, inr, Bool, true, false, List, [], ◌∷◌, Option, none, some, arith,
  if◌then◌else◌, All, Bool-cases, Option-cases, map,
}
use stackable_odbc_trino.Base.Fallible.{>>=-eq-some}
use stackable_odbc_trino.Base.Outcome.{Result, ok, err, ok_injective}
use stackable_odbc_trino.Base.Text.{Text, codes, eq_text}
use stackable_odbc_trino.Errors.{TrinoError}
use stackable_odbc_trino.Errors.Mapping.{ClientError, map_trino_error}
use stackable_odbc_trino.Session.Client.{Client}
use stackable_odbc_trino.Session.Shared.{Store, statement_error, map_trino_error_on, note_error}
use stackable_odbc_trino.Catalog.Queries.{
  Queries, Row, as_str, filter_map, collected, query_all_rows, or_empty, query_information_schema,
  each_row, trino_error_code, not_found,
}
use stackable_odbc_trino.Catalog.Rows.{
  TableRow, table_row, to_uppercase, odbc_table_type, is_allowed, table_type_table, table_type_view,
}
use stackable_odbc_trino.Catalog.Functions.{tables_sql, tables}

-- The answer of a catalog function to a reply of the client, as the three functions compose it.
abbrev answer :
    {c : Client} {A : Type 0}
    → (Row → Option A)
    → Bool
    → Result ClientError (List Row) × c.State
    → Store c
    → Result TrinoError (List A) × Store c
answer f active r w = each_row f (or_empty active (collected r w))

module _ {c : Client} {A : Type 0} (f : Row → Option A) (w : Store c) where
  failure_shown :
      (e : TrinoError) (s : Store c) {rows : List A}
      → (each_row f (or_empty true (err e, s))).0 ≡ ok rows
      → ⊥
  unfolding each_row or_empty
  failure_shown e s h = ground arith

  answered :
      (r : Result ClientError (List Row) × c.State) (rows : List A)
      → (answer f true r w).0 ≡ ok rows
      → ((read : List Row) × (r.0 ≡ ok read) × (rows ≡ filter_map f read))
        × ((answer f true r w).1.txn ≡ w.txn)
  unfolding each_row or_empty collected statement_error map_trino_error_on
  answered (ok read, s) rows h = ((read, refl, sym (ok_injective h)), refl)
  answered (err e, s) rows h =
      absurd (failure_shown (map_trino_error e) (collected {A = List Row} (err e, s) w).1 h)

  reported :
      (r : Result ClientError (List Row) × c.State) (e : ClientError)
      → r.0 ≡ err e
      → ((answer f true r w).0 ≡ err (map_trino_error e))
        × ((answer f true r w).1.txn ≡ note_error w.txn)
  unfolding each_row or_empty collected statement_error map_trino_error_on
  reported (ok read, s) e h = cc
  reported (err e', s) e h = ground arith

  substituted :
      (r : Result ClientError (List Row) × c.State) (e : ClientError)
      → r.0 ≡ err e
      → (answer f false r w).0 ≡ (
          if not_found (trino_error_code (map_trino_error e))
          then ok []
          else err (map_trino_error e))
  unfolding each_row or_empty collected statement_error map_trino_error_on filter_map
  substituted (ok read, s) e h = cc
  substituted (err e', s) e h = ground arith

module _ {c : Client} {A : Type 0} (q : Queries c) (f : Row → Option A) (sql : Text)
    (w : Store c) where
  -- A metadata query never hides that it has ended the application's transaction: inside an open
  -- transaction, a catalog function that reports rows has had its query answered, reports what the
  -- answer holds, and has left the state of the transaction as it was.
  pub catalog_in_transaction :
      (rows : List A)
      → c.is_active w.client ≡ true
      → (each_row f (query_information_schema q sql w)).0 ≡ ok rows
      → ((read : List Row) × ((q.get_all sql w.client).0 ≡ ok read) × (rows ≡ filter_map f read))
        × ((each_row f (query_information_schema q sql w)).1.txn ≡ w.txn)
  unfolding query_information_schema query_all_rows
  catalog_in_transaction rows active h =
      rw active (answered f w (q.get_all sql w.client) rows (rw active at h))

  -- Inside an open transaction, a query that fails is reported, also for a catalog that does not
  -- exist, and in manual-commit mode the transaction is recorded as aborted.
  pub catalog_failure_in_transaction :
      (e : ClientError)
      → c.is_active w.client ≡ true
      → (q.get_all sql w.client).0 ≡ err e
      → ((each_row f (query_information_schema q sql w)).0 ≡ err (map_trino_error e))
        × ((each_row f (query_information_schema q sql w)).1.txn ≡ note_error w.txn)
  unfolding query_information_schema query_all_rows
  catalog_failure_in_transaction e active h = rw active (reported f w (q.get_all sql w.client) e h)

  -- Outside a transaction, a query that fails because its catalog does not exist is answered with no
  -- rows, and any other failure is reported.
  pub catalog_outside_transaction :
      (e : ClientError)
      → c.is_active w.client ≡ false
      → (q.get_all sql w.client).0 ≡ err e
      → (each_row f (query_information_schema q sql w)).0 ≡ (
          if not_found (trino_error_code (map_trino_error e))
          then ok []
          else err (map_trino_error e))
  unfolding query_information_schema query_all_rows
  catalog_outside_transaction e idle h = rw idle (substituted f w (q.get_all sql w.client) e h)

-- The row's type is one that `table_types` lists, and one that was asked for, if any were.
abbrev pub IsOffered : List Text → TableRow → Type 0
IsOffered asked row =
    (is_allowed asked row.table_type ≡ true)
    × ((row.table_type ≡ table_type_table) ⊎ (row.table_type ≡ table_type_view))

filter_map-All :
    {A B : Type 0} (P : B → Type 0) (f : A → Option B)
    → ((a : A) (b : B) → f a ≡ some b → P b)
    → (xs : List A) → All P (filter_map f xs)
unfolding filter_map
filter_map-All P f h [] = tt
filter_map-All P f h (x ∷ xs) = elim (Option-cases (f x)) [
  | inl e ↦ rw e (filter_map-All P f h xs)
  | inr (b, e) ↦ rw e (h x b e, filter_map-All P f h xs)
]

odbc_table_type-known :
    (raw : Text) {ty : Text}
    → odbc_table_type raw ≡ some ty
    → (ty ≡ table_type_table) ⊎ (ty ≡ table_type_view)
unfolding odbc_table_type
odbc_table_type-known raw {ty} h = elim (Bool-cases (eq_text raw (codes "BASE TABLE"))) [
  | inl e ↦ let k : some table_type_table ≡ some ty = rw e at h in inl (cc)
  | inr e ↦ elim (Bool-cases (eq_text raw (codes "VIEW"))) [
    | inl v ↦ let k : some table_type_view ≡ some ty = rw (e, v) at h in inr (cc)
    | inr v ↦ let k : none ≡ some ty = rw (e, v) at h in cc
  ]
]

table_row-kept :
    (asked : List Text) (r row : TableRow)
    → (if is_allowed asked r.table_type then some r else none) ≡ some row
    → (r.table_type ≡ table_type_table) ⊎ (r.table_type ≡ table_type_view)
    → IsOffered asked row
table_row-kept asked r row h known = elim (Bool-cases (is_allowed asked r.table_type)) [
  | inl e ↦
      let k : some r ≡ some row = rw e at h in let same : r ≡ row = cc in rw (← same) (e, known)
  | inr e ↦ let k : none ≡ some row = rw e at h in cc
]

table_row-IsOffered :
    (asked : List Text) (vals : Row) (row : TableRow)
    → table_row asked vals ≡ some row
    → IsOffered asked row
unfolding table_row
table_row-IsOffered asked [] row h = cc
table_row-IsOffered asked (a ∷ []) row h = cc
table_row-IsOffered asked (a ∷ b ∷ []) row h = cc
table_row-IsOffered asked (a ∷ b ∷ n ∷ []) row h = cc
table_row-IsOffered asked (cat ∷ sch ∷ n ∷ ty ∷ more) row h =
    let (table_name, _, named) = >>=-eq-some (as_str n) _ h in
    let (raw, _, typed) = >>=-eq-some (as_str ty) _ named in
    let (table_type, known, built) = >>=-eq-some (odbc_table_type (to_uppercase raw)) _ typed in
    table_row-kept asked _ row built (odbc_table_type-known (to_uppercase raw) known)

each_row-IsOffered :
    {c : Client} (asked : List Text) (r : Result TrinoError (List Row) × Store c)
    (rows : List TableRow)
    → (each_row (table_row asked) r).0 ≡ ok rows
    → All (IsOffered asked) rows
unfolding each_row
each_row-IsOffered asked (ok read, w) rows h =
    rw (← ok_injective h)
      (filter_map-All (IsOffered asked) (table_row asked) (table_row-IsOffered asked) read)
each_row-IsOffered asked (err e, w) rows h = cc

module _ {c : Client} (q : Queries c) (catalog schema table : Option Text) (table_types : List Text)
    (w : Store c) where
  -- Every row of `tables` carries a type that the enumeration of the table types lists, and if the
  -- application asked for certain types, one of these, in letters of any case.
  pub tables-IsOffered :
      (rows : List TableRow)
      → (tables q catalog schema table table_types w).0 ≡ ok rows
      → All (IsOffered (map to_uppercase table_types)) rows
  unfolding tables
  tables-IsOffered rows h =
      each_row-IsOffered (map to_uppercase table_types)
        (query_information_schema q (tables_sql catalog schema table) w) rows h
