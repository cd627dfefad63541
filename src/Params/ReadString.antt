-- ===== src/Params/ReadString.antt =====
-- How Trino reads a string literal, against `quote_string` of backend/params.rs.
use stackable_odbc_trino.Base.{
  ℕ, ◌≡◌, refl, ◌≢◌, append_assoc, true, false, inl, inr, [], ◌∷◌, ◌++◌, Option, none, some, arith,
  ◌==◌, if◌then◌else◌, Bool-cases,
}
use stackable_odbc_trino.Base.Text.{Text, cons_first}
use stackable_odbc_trino.Params.Literal.{quote, double_quotes, quote_string}

-- What Trino's lexer reads after the opening quote of a string literal: the text up to the first
-- quote that is not doubled, and the rest of the statement.
unfoldable pub read_string : Text → Option (Text × Text)
read_string [] = none
read_string (c ∷ []) = if c == quote then some ([], []) else none
read_string (c ∷ d ∷ s) =
    let doubled = cons_first quote (read_string s) in
    let copied = cons_first c (read_string (d ∷ s)) in
    if c == quote then (if d == quote then doubled else some ([], d ∷ s)) else copied

unfoldable pub read_literal : Text → Option (Text × Text)
unfolding read_string
read_literal [] = none
read_literal (c ∷ s) = if c == quote then read_string s else none

-- The text does not begin with a quote.
abbrev pub NotQuote : Text → Type 0
NotQuote [] = Unit
NotQuote (c ∷ s) = c ≢ quote

read_string_plain :
    (c : ℕ) (t : Text) → (c == quote) ≡ false → read_string (c ∷ t) ≡ cons_first c (read_string t)
unfolding read_string
read_string_plain c [] h = rw h
read_string_plain c (d ∷ t) h = rw h

read_string_doubled :
    (c : ℕ) (t : Text)
    → (c == quote) ≡ true
    → read_string (quote ∷ c ∷ t) ≡ cons_first c (read_string t)
unfolding read_string
read_string_doubled c t h = ground arith

read-double_quotes :
    (s rest : Text) → NotQuote rest → read_string (double_quotes s ++ quote ∷ rest) ≡ some (s, rest)
unfolding read_string double_quotes
read-double_quotes [] [] h = refl
read-double_quotes [] (d ∷ rest) h = ground arith
read-double_quotes (c ∷ s) rest h = elim (Bool-cases (c == quote)) [
  | inl q ↦ rw (q, read_string_doubled c _ q, read-double_quotes s rest h)
  | inr nq ↦ rw (nq, read_string_plain c _ nq, read-double_quotes s rest h)
]

-- Trino reads a bound text from its literal exactly as it was bound, whatever quotes it holds, and
-- goes on behind the literal; the text that follows may not begin with a quote.
pub read-quote_string :
    (s rest : Text) → NotQuote rest → read_literal (quote_string s ++ rest) ≡ some (s, rest)
unfolding quote_string read_literal
read-quote_string s rest h = rw append_assoc (read-double_quotes s rest h)
