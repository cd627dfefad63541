-- ===== src/Catalog/Filters.antt =====
-- The WHERE clauses of backend/metadata.rs select what the patterns of the arguments ask for.
use stackable_odbc_trino.Base.{
  ℕ, ◌≡◌, refl, true, false, List, [], ◌∷◌, ◌++◌, some, inl, inr, arith, ◌==◌, if◌then◌else◌,
  Bool-cases, append_assoc,
}
use stackable_odbc_trino.Base.Fallible.{◌>>=◌}
use stackable_odbc_trino.Base.Text.{Text, codes, eq_text}
use stackable_odbc_trino.Base.Text.Split.{split_once_first}
use stackable_odbc_trino.Base.Text.Parts.{strip_prefix, Lacks}
use stackable_odbc_trino.Params.Literal.{quote, double_quotes, quote_string}
use stackable_odbc_trino.Params.ReadString.{NotQuote, read_literal, read-quote_string}
use stackable_odbc_trino.Catalog.Patterns.{
  backslash, is_wildcard, condition, like_condition, equals_condition,
}
use stackable_odbc_trino.Catalog.Reader.{
  Item, any_run, any_one, exact, Plain, matches, print_with, print, read_like, Test, equals, like,
  read_test, read_condition, passes,
}
use stackable_odbc_trino.Catalog.Escapes.{
  has_wild, has_odbc_wildcards-print, name_of, unescaped-print, matches-name,
}

read_like_run : (s : Text) → read_like (b'%' ∷ s) ≡ (read_like s >>= λ p. some (any_run ∷ p))
unfolding read_like
read_like_run [] = refl
read_like_run (d ∷ s) = refl

read_like_one : (s : Text) → read_like (b'_' ∷ s) ≡ (read_like s >>= λ p. some (any_one ∷ p))
unfolding read_like
read_like_one [] = refl
read_like_one (d ∷ s) = refl

read_like_exact :
    (c : ℕ) (s : Text)
    → (c == backslash) ≡ false
    → is_wildcard c ≡ false
    → read_like (c ∷ s) ≡ (read_like s >>= λ p. some (exact c ∷ p))
unfolding read_like
read_like_exact c [] h k = ground arith
read_like_exact c (d ∷ s) h k = ground arith

read_like_escape :
    (c : ℕ) (s : Text)
    → is_wildcard c ≡ true
    → read_like (backslash ∷ c ∷ s) ≡ (read_like s >>= λ p. some (exact c ∷ p))
unfolding read_like
read_like_escape c s h = rw h

-- Trino reads the pattern as it was written.
read_like-print : (p : List Item) → Plain p → read_like (print p) ≡ some p
unfolding print_with
read_like-print [] h = unfold read_like in refl
read_like-print (any_run ∷ p) (_, h) = rw (read_like_run, read_like-print p h)
read_like-print (any_one ∷ p) (_, h) = rw (read_like_one, read_like-print p h)
read_like-print (exact c ∷ p) (own, h) =
    let k : (c == backslash) ≡ false = ground arith in
    elim (Bool-cases (is_wildcard c)) [
      | inl e ↦ rw (e, read_like_escape c _ e, read_like-print p h)
      | inr e ↦ rw (e, read_like_exact c _ k e, read_like-print p h)
    ]

read_literal_doubled :
    (v rest : Text)
    → NotQuote rest
    → read_literal (quote ∷ (double_quotes v ++ quote ∷ rest)) ≡ some (v, rest)
read_literal_doubled v rest h =
    let e : quote_string v ++ rest ≡ quote ∷ (double_quotes v ++ quote ∷ rest) =
      unfold quote_string in rw append_assoc in
    rw (← e) (read-quote_string v rest h)

-- The condition of a pattern: it is read to its end, and passed by what matches the pattern.
abbrev pub test_of : List Item → Test
test_of p = if has_wild p then like (print p) else equals (name_of p)

read_escape :
    (rest : Text) → NotQuote rest → read_literal (codes "'\\'" ++ rest) ≡ some (codes "\\", rest)
unfolding double_quotes
read_escape rest h = read_literal_doubled (codes "\\") rest h

read_like_test :
    (v rest : Text)
    → NotQuote rest
    → read_test (codes "LIKE '" ++ (double_quotes v ++ (codes "' ESCAPE '\\'" ++ rest)))
      ≡ some (like v, rest)
unfolding read_test strip_prefix eq_text
read_like_test v rest h =
    rw (read_literal_doubled v (codes " ESCAPE '\\'" ++ rest) (λ e. absurd (omega arith)))
      (rw (read_escape rest h))

read_equals_test :
    (v rest : Text)
    → NotQuote rest
    → read_test (codes "= '" ++ (double_quotes v ++ quote ∷ rest)) ≡ some (equals v, rest)
unfolding read_test strip_prefix
read_equals_test v rest h = rw (read_literal_doubled v rest h)

module _ (column rest : Text) (spaceless : Lacks b' ' column) (h : NotQuote rest) where
  read_condition_like :
      (v : Text)
      → read_condition (like_condition column (double_quotes v) ++ rest)
        ≡ some ((column, like v), rest)
  unfolding read_condition
  read_condition_like v = rw (
    append_assoc,
    append_assoc,
    append_assoc,
    split_once_first b' ' column
        (codes "LIKE '" ++ (double_quotes v ++ (codes "' ESCAPE '\\'" ++ rest))) spaceless,
    read_like_test v rest h,
  )

  read_condition_equals :
      (v : Text)
      → read_condition (equals_condition column (double_quotes v) ++ rest)
        ≡ some ((column, equals v), rest)
  unfolding read_condition
  read_condition_equals v = rw (
    append_assoc,
    append_assoc,
    append_assoc,
    split_once_first b' ' column (codes "= '" ++ (double_quotes v ++ quote ∷ rest)) spaceless,
    read_equals_test v rest h,
  )

  -- The condition of an argument is read back as its test, up to its end.
  pub read_condition_lem :
      (p : List Item)
      → Plain p
      → read_condition (condition column (print p) ++ rest) ≡ some ((column, test_of p), rest)
  unfolding condition
  read_condition_lem p plain = elim (Bool-cases (has_wild p)) [
    | inl e ↦ rw (has_odbc_wildcards-print p plain, e) (read_condition_like (print p))
    | inr e ↦
        rw (has_odbc_wildcards-print p plain, e, unescaped-print p plain)
          (read_condition_equals (name_of p))
  ]

-- The test is passed by what matches the pattern, and by nothing else.
pub passes_lem : (p : List Item) (s : Text) → Plain p → passes (test_of p) s ≡ some (matches p s)
unfolding passes
passes_lem p s plain = elim (Bool-cases (has_wild p)) [
  | inl e ↦ rw (e, read_like-print p plain)
  | inr e ↦ rw (e, matches-name p s e)
]
