-- ===== src/Catalog/Patterns.antt =====
-- The filters of the catalog functions: backend/metadata.rs turns arguments into WHERE clauses and
-- into the schema that is queried.
use stackable_odbc_trino.Base.{
  ℕ, Bool, false, not, ◌&&◌, ◌||◌, List, [], ◌∷◌, ◌++◌, Option, none, some, ◌==◌, if◌then◌else◌,
}
use stackable_odbc_trino.Base.Text.{Text, codes, eq_text, is_empty}
use stackable_odbc_trino.Params.Literal.{double_quotes}
use stackable_odbc_trino.Connect.Auth.{double_double}

abbrev pub backslash : ℕ
backslash = 92

abbrev pub is_wildcard : ℕ → Bool
is_wildcard c = (c == b'%') || (c == b'_')

-- The loop over the characters; whether the one before is a backslash goes along.
unfoldable pub wildcard_behind : Bool → Text → Bool
wildcard_behind escaped [] = false
wildcard_behind escaped (c ∷ s) = is_wildcard c && not escaped || wildcard_behind (c == backslash) s

unfoldable pub has_odbc_wildcards : Text → Bool
unfolding wildcard_behind
has_odbc_wildcards s = wildcard_behind false s

-- `s.replace("\\d", "d")`
unfoldable pub unescape : ℕ → Text → Text
unescape d [] = []
unescape d (c ∷ []) = c ∷ []
unescape d (c ∷ e ∷ s) =
    let taken = d ∷ unescape d s in
    let kept = c ∷ unescape d (e ∷ s) in if (c == backslash) && (e == d) then taken else kept

-- `.replace("\\_", "_").replace("\\%", "%")`
unfoldable pub unescaped : Text → Text
unfolding unescape
unescaped s = unescape b'%' (unescape b'_' s)

abbrev pub like_condition : Text → Text → Text
like_condition column escaped = column ++ (codes " LIKE '" ++ (escaped ++ codes "' ESCAPE '\\'"))

abbrev pub equals_condition : Text → Text → Text
equals_condition column literal = column ++ (codes " = '" ++ (literal ++ codes "'"))

-- The condition that `push_filter` builds, and the push.
unfoldable pub condition : Text → Text → Text
unfolding has_odbc_wildcards unescaped
condition column value =
    let escaped = double_quotes value in
    if has_odbc_wildcards escaped
    then like_condition column escaped
    else equals_condition column (unescaped escaped)

unfoldable pub push_filter : List Text → Text → Text → List Text
push_filter conditions column value = conditions ++ condition column value ∷ []

-- `filter(|s| !s.is_empty() && *s != "%")`
unfoldable pub restricts : Text → Bool
restricts s = not (is_empty s) && not (eq_text s (codes "%"))

unfoldable pub push_argument : List Text → Text → Option Text → List Text
push_argument conditions column none = conditions
push_argument conditions column (some value) =
    if restricts value then push_filter conditions column value else conditions

-- `conditions.join(" AND ")`
unfoldable pub join_and : List Text → Text
join_and [] = []
join_and (c ∷ []) = c
join_and (c ∷ d ∷ cs) = c ++ (codes " AND " ++ join_and (d ∷ cs))

unfoldable pub where_clause : List Text → Text
where_clause [] = []
where_clause (c ∷ cs) = codes " WHERE " ++ join_and (c ∷ cs)

unfoldable pub build_tables_where_clause : Option Text → Option Text → Option Text → Text
build_tables_where_clause catalog schema table =
    let with_catalog = push_argument [] (codes "table_catalog") catalog in
    let with_schema = push_argument with_catalog (codes "table_schema") schema in
    where_clause (push_argument with_schema (codes "table_name") table)

unfoldable pub build_columns_where_clause :
    Option Text → Option Text → Option Text → Option Text → Text
build_columns_where_clause catalog schema table column =
    let with_catalog = push_argument [] (codes "table_catalog") catalog in
    let with_schema = push_argument with_catalog (codes "table_schema") schema in
    let with_table = push_argument with_schema (codes "table_name") table in
    where_clause (push_argument with_table (codes "column_name") column)

abbrev pub session_schema : Text → Text
session_schema table = codes "information_schema." ++ table

unfoldable pub information_schema_ref : Option Text → Text → Text
unfolding restricts has_odbc_wildcards unescaped
information_schema_ref none table = session_schema table
information_schema_ref (some cat) table =
    if restricts cat && not (has_odbc_wildcards cat)
    then b'"' ∷ (double_double (unescaped cat) ++ (codes "\".information_schema." ++ table))
    else session_schema table
