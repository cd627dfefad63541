-- ===== src/Params/Tests.antt =====
-- Interpolation on concrete statements, and the theorems applied to them.
use stackable_odbc_trino.Base.{
  ℕ, ◌≡◌, refl, negsuc, true, false, ◌&&◌, List, [], ◌∷◌, ◌++◌, some, arith, leb, All, All-mono,
  length, ◌+◌, ◌<◌, ◌≢◌,
}
use stackable_odbc_trino.Base.Outcome.{ok, err}
use stackable_odbc_trino.Base.Text.{Text, codes, show, IsDigit}
use stackable_odbc_trino.Base.Text.Decimal.{show-IsDigit}
use stackable_odbc_trino.Column.{ColumnValue}
use stackable_odbc_trino.Errors.{general, not_enough_parameters, parameter_count_mismatch}
use stackable_odbc_trino.Params.Literal.{Externals, quote, show_int, render_literal, quote_string}
use stackable_odbc_trino.Params.Interpolate.{interpolate_params}
use stackable_odbc_trino.Params.Lexing.{
  code, line_comment, opened, step, lex, lex_calm, FloatsLackQuotes, LacksQuote,
}
use stackable_odbc_trino.Params.Template.{pieces, placeholders, fill, interpolate_params-fill}
use stackable_odbc_trino.Params.Counting.{Renders, interpolate_params_by_count}
use stackable_odbc_trino.Params.Structure.{is_code, fills_code, Keeps, interpolate_params-Keeps}
use stackable_odbc_trino.Params.ReadString.{read_literal, read-quote_string}
use stackable_odbc_trino.Params.Comment.{IsPlainText, IsOneLine, of_i32, negative_starts_comment}

-- A calendar without month lengths, and a formatter that prints a float's bits.
abbrev externals : Externals
externals = record {
  from_ymd_opt = λ y m d. leb 1 m && leb m 12 && leb 1 d && leb d 31;
  show_f32 = show;
  show_f64 = show;
}

abbrev template : Text
template = codes "SELECT '?' WHERE a = ? AND b = ?"

abbrev values : List ColumnValue
values = ColumnValue.string (codes "O'Neil") ∷ ColumnValue.i32 (negsuc 4) ∷ []

abbrev filled : Text
filled = codes "SELECT '?' WHERE a = 'O''Neil' AND b = -5"

template-filled : interpolate_params externals values template ≡ ok filled
unfolding interpolate_params render_literal quote_string show_int show
template-filled = refl

values_render : All (Renders externals) values
unfolding render_literal quote_string show_int show
values_render = ((codes "'O''Neil'", refl), ((codes "-5", refl), tt))

formatter_lacks_quotes : FloatsLackQuotes externals
formatter_lacks_quotes b = (digits_lack b, digits_lack b)
  where
    digits_lack : (n : ℕ) → LacksQuote (show n)
    digits_lack n =
        All-mono IsDigit (λ c. c ≢ quote) (λ c h. omega (arith, h)) (show n) (show-IsDigit n)

interpolate_params-fill_example :
    interpolate_params externals values template ≡ fill externals values (pieces false template) 0
interpolate_params-fill_example = interpolate_params-fill externals values template

template-fills_code : fills_code false code template ≡ true
unfolding fills_code is_code step opened
template-fills_code = refl

interpolate_params-Keeps_example :
    Keeps code template filled × (lex code filled ≡ lex code template)
interpolate_params-Keeps_example =
    interpolate_params-Keeps externals values template {out = filled} formatter_lacks_quotes
      template-fills_code template-filled

interpolate_params_by_count_example :
    (placeholders template ≡ length values
      → (out : Text) × (interpolate_params externals values template ≡ ok out))
    × (length values < placeholders template
        → interpolate_params externals values template
          ≡ err (general (not_enough_parameters (length values + 1) (length values))))
    × (placeholders template < length values
        → interpolate_params externals values template
          ≡ err (general (parameter_count_mismatch (length values) (placeholders template))))
interpolate_params_by_count_example =
    interpolate_params_by_count externals values template values_render

read-quote_string_example :
    read_literal (quote_string (codes "it's") ++ codes ", 1") ≡ some (codes "it's", codes ", 1")
read-quote_string_example = read-quote_string (codes "it's") (codes ", 1") (omega arith)

before_text : IsPlainText (codes "SELECT a ")
before_text = ground arith

after_text : IsPlainText (codes " AND b = 1")
after_text = ground arith

after_line : IsOneLine (codes " AND b = 1")
after_line = ground arith

negative_starts_comment_example :
    (interpolate_params externals
        (ColumnValue.i32 (negsuc 4) ∷ [])
        (codes "SELECT a " ++ b'-' ∷ b'?' ∷ codes " AND b = 1")
      ≡ ok (codes "SELECT a " ++ b'-' ∷ b'-' ∷ (show 5 ++ codes " AND b = 1")))
    × (lex code (codes "SELECT a " ++ b'-' ∷ b'-' ∷ (show 5 ++ codes " AND b = 1")) ≡ line_comment)
negative_starts_comment_example =
    negative_starts_comment externals (ColumnValue.i32 (negsuc 4)) (codes "SELECT a ")
      (codes " AND b = 1") [] 4 (of_i32 4) before_text after_text
      (lex_calm (codes "SELECT a ") (omega arith)) after_line
