-- ===== src/Params/Lexing.antt =====
-- Trino's lexer, as far as it says what a character belongs to: code, a string literal, a quoted
-- identifier or a comment (STRING, QUOTED_IDENTIFIER, BACKQUOTED_IDENTIFIER, SIMPLE_COMMENT and
-- BRACKETED_COMMENT of its grammar).
use stackable_odbc_trino.Base.{
  ℕ, ◌≡◌, refl, ◌≢◌, ◌<◌, ◌||◌, [], ◌∷◌, ◌++◌, arith, ◌==◌, if◌then◌else◌, All, length,
}
use stackable_odbc_trino.Base.Text.{Text, IsDigit}
use stackable_odbc_trino.Params.Literal.{Externals, quote, double_quotes, quote_string}

-- `minus` and `slash` are code directly behind that character, which may start a comment; `star` is
-- a bracketed comment behind an asterisk, which may end it.
pub data Mode : Type 0 where
  code minus slash literal identifier backquoted line_comment block_comment star : Mode

-- What a character starts in code.
unfoldable pub opened : ℕ → Mode
opened c =
    if c == quote
    then literal
    else if c == b'"'
    then identifier
    else if c == b'`'
    then backquoted
    else if c == b'-'
    then minus
    else if c == b'/'
    then slash
    else code

-- A doubled quote leaves the literal and enters it again.
unfoldable pub step : Mode → ℕ → Mode
unfolding opened
step code c = opened c
step minus c = if c == b'-' then line_comment else opened c
step slash c = if c == b'*' then block_comment else opened c
step literal c = if c == quote then code else literal
step identifier c = if c == b'"' then code else identifier
step backquoted c = if c == b'`' then code else backquoted
step line_comment c = if (c == 10) || (c == 13) then code else line_comment
step block_comment c = if c == b'*' then star else block_comment
step star c = if c == b'/' then code else if c == b'*' then star else block_comment

-- The mode behind a text.
unfoldable pub lex : Mode → Text → Mode
unfolding step
lex m [] = m
lex m (c ∷ s) = lex (step m c) s

-- No quote in the text.
abbrev pub LacksQuote : Text → Type 0
LacksQuote = All (λ c. c ≢ quote)

-- Neither a quote nor what may start a comment.
abbrev pub IsCalm : Text → Type 0
IsCalm = All (λ c. (c ≢ quote) × (c ≢ b'"') × (c ≢ b'`') × (c ≢ b'-') × (c ≢ b'/'))

-- What the theorems take from the float formatter: it prints no quote.
abbrev pub FloatsLackQuotes : Externals → Type 0
FloatsLackQuotes x = (b : ℕ) → LacksQuote (x.show_f32 b) × LacksQuote (x.show_f64 b)

pub lex-append : (m : Mode) (s t : Text) → lex m (s ++ t) ≡ lex (lex m s) t
unfolding lex
lex-append m [] t = refl
lex-append m (c ∷ s) t = lex-append (step m c) s t

pub lex_calm : (s : Text) → IsCalm s → lex code s ≡ code
unfolding lex opened
lex_calm [] h = refl
lex_calm (c ∷ s) (hc, hs) = let same : opened c ≡ code = ground arith in rw same (lex_calm s hs)

pub lex_within : (s : Text) → LacksQuote s → lex literal s ≡ literal
unfolding lex
lex_within [] h = refl
lex_within (c ∷ s) (hc, hs) = ground (arith, lex_within s hs)

pub lex_digits : (s : Text) → All IsDigit s → lex code s ≡ code
unfolding lex opened
lex_digits [] h = refl
lex_digits (c ∷ s) (hc, hs) = let same : opened c ≡ code = ground arith in rw same (lex_digits s hs)

-- A number behind a minus is code again.
pub lex_minus : (s : Text) → All IsDigit s → 0 < length s → lex minus s ≡ code
unfolding lex opened
lex_minus [] h l = elim l [ ]
lex_minus (c ∷ s) (hc, hs) l =
    let same : step minus c ≡ code = ground arith in rw same (lex_digits s hs)

-- Doubled quotes leave the reader inside the literal.
pub lex-double_quotes : (s : Text) → lex literal (double_quotes s) ≡ literal
unfolding lex double_quotes opened
lex-double_quotes [] = refl
lex-double_quotes (c ∷ s) = ground (arith, lex-double_quotes s)

pub lex-quote_string : (s : Text) → lex code (quote_string s) ≡ code
unfolding quote_string lex opened
lex-quote_string s =
    rw (lex-append literal (double_quotes s) (quote ∷ []), lex-double_quotes s) refl
