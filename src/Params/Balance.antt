-- ===== src/Params/Balance.antt =====
-- The literals of backend/params.rs as Trino's lexer passes over them: each starts and ends in code.
use stackable_odbc_trino.Base.{
  ℕ, ◌+◌, ◌≡◌, refl, ℤ, pos, negsuc, Bool, true, false, [], ◌∷◌, ◌++◌, arith, if◌then◌else◌,
}
use stackable_odbc_trino.Base.Outcome.{Result, ok_injective, ok, err, ◌>>◌}
use stackable_odbc_trino.Base.Text.{Text, codes}
use stackable_odbc_trino.Column.{ColumnValue}
use stackable_odbc_trino.Errors.{TrinoError}
use stackable_odbc_trino.Params.Literal.{
  Externals, quote, show_int, quote_string, is_plain_decimal, date_text, time_text, offset_text,
  tagged, render_literal,
}
use stackable_odbc_trino.Base.Text.{show}
use stackable_odbc_trino.Base.Text.Decimal.{show-IsDigit, length-show-pos}
use stackable_odbc_trino.Params.Lexing.{
  code, literal, opened, lex, LacksQuote, IsCalm, FloatsLackQuotes, lex-append, lex_calm,
  lex_within, lex_digits, lex_minus, lex-quote_string,
}
use stackable_odbc_trino.Params.Quotes.{
  hex_lacks, uuid_lacks, date_lacks, time_lacks, offset_lacks, decimal_lacks, join_lacks,
}

abbrev Closed : Text → Type 0
Closed l = lex code l ≡ code

tagged-Closed : (k b : Text) → IsCalm k → LacksQuote b → Closed (tagged k b)
unfolding tagged lex opened
tagged-Closed k b hk hb =
    rw
      (
        lex-append code k (quote ∷ (b ++ quote ∷ [])),
        lex_calm k hk,
        lex-append literal b (quote ∷ []),
        lex_within b hb,
      )
      refl

number-Closed : (v : ℤ) → Closed (show_int v)
unfolding show_int lex opened
number-Closed (pos n) = lex_digits (show n) (show-IsDigit n)
number-Closed (negsuc n) = lex_minus (show (n + 1)) (show-IsDigit (n + 1)) (length-show-pos (n + 1))

json-Closed : (s : Text) → Closed (codes "JSON " ++ quote_string s)
json-Closed s =
    rw (lex-append code (codes "JSON ") (quote_string s), lex_calm (codes "JSON ") (omega arith))
      (lex-quote_string s)

date-Closed : (y : ℤ) (m d : ℕ) → Closed (tagged (codes "DATE ") (date_text y m d))
date-Closed y m d = tagged-Closed _ _ (omega arith) (date_lacks y m d)

time-Closed : (h m s f : ℕ) → Closed (tagged (codes "TIME ") (time_text h m s f))
time-Closed h m s f = tagged-Closed _ _ (omega arith) (time_lacks h m s f)

timestamp-Closed :
    (y : ℤ) (mo d h mi s f : ℕ)
    → Closed (tagged (codes "TIMESTAMP ") (date_text y mo d ++ b' ' ∷ time_text h mi s f))
timestamp-Closed y mo d h mi s f =
    tagged-Closed _ _ (omega arith)
      (join_lacks _ _ _ (date_lacks y mo d) (omega arith) (time_lacks h mi s f))

timestamp_tz-Closed :
    (y : ℤ) (mo d h mi s f : ℕ) (o : ℤ)
    → Closed (
        tagged
          (codes "TIMESTAMP ")
          (date_text y mo d ++ b' ' ∷ (time_text h mi s f ++ b' ' ∷ offset_text o)))
timestamp_tz-Closed y mo d h mi s f o = tagged-Closed _ _ (omega arith) (
    join_lacks _ _ _ (date_lacks y mo d) (omega arith)
      (join_lacks _ _ _ (time_lacks h mi s f) (omega arith) (offset_lacks o)))

-- A guarded literal that is returned is that literal.
guarded :
    (b : Bool) (t l : Text) (e : TrinoError)
    → Closed t
    → (if b then ok t else err e) ≡ ok l
    → Closed l
guarded b t l e c h = ground arith

-- So is one behind a check that may fail first.
checked : (m : Result TrinoError (Unit {0})) (t l : Text) → Closed t → (m >> ok t) ≡ ok l → Closed l
checked m t l c h = ground arith

checked_twice :
    (m n : Result TrinoError (Unit {0})) (t l : Text)
    → Closed t
    → (m >> (n >> ok t)) ≡ ok l
    → Closed l
checked_twice m n t l c h = ground arith

decimal-Closed :
    (b : Bool) (s l : Text) (e : TrinoError)
    → is_plain_decimal s ≡ b
    → (if b then ok (tagged (codes "DECIMAL ") s) else err e) ≡ ok l
    → Closed l
decimal-Closed true s l e p h =
    rw (← ok_injective h) (tagged-Closed _ _ (omega arith) (decimal_lacks s p))
decimal-Closed false s l e p h = cc

module _ (x : Externals) (floats : FloatsLackQuotes x) where
  -- A literal rendered for a bound value is read from code to code.
  pub render_literal-Closed :
      (v : ColumnValue) (l : Text) → render_literal x v ≡ ok l → lex code l ≡ code
  unfolding render_literal
  render_literal-Closed ColumnValue.null l h = rw (← ok_injective h) (unfold lex opened in refl)
  render_literal-Closed (ColumnValue.bool true) l h =
      rw (← ok_injective h) (unfold lex opened in refl)
  render_literal-Closed (ColumnValue.bool false) l h =
      rw (← ok_injective h) (unfold lex opened in refl)
  render_literal-Closed (ColumnValue.i8 v) l h = rw (← ok_injective h) (number-Closed v)
  render_literal-Closed (ColumnValue.i16 v) l h = rw (← ok_injective h) (number-Closed v)
  render_literal-Closed (ColumnValue.i32 v) l h = rw (← ok_injective h) (number-Closed v)
  render_literal-Closed (ColumnValue.i64 v) l h = rw (← ok_injective h) (number-Closed v)
  render_literal-Closed (ColumnValue.f32 v) l h =
      guarded _ _ l _ (tagged-Closed (codes "REAL ") _ (omega arith) (floats v).0) h
  render_literal-Closed (ColumnValue.f64 v) l h =
      guarded _ _ l _ (tagged-Closed (codes "DOUBLE ") _ (omega arith) (floats v).1) h
  render_literal-Closed (ColumnValue.string s) l h = rw (← ok_injective h) (lex-quote_string s)
  render_literal-Closed (ColumnValue.json s) l h = rw (← ok_injective h) (json-Closed s)
  render_literal-Closed (ColumnValue.decimal s) l h =
      decimal-Closed (is_plain_decimal s) s l _ refl h
  render_literal-Closed (ColumnValue.bytes b) l h =
      rw (← ok_injective h)
        (tagged-Closed (codes "X") _ (omega arith) (hex_lacks _ b (omega arith)))
  render_literal-Closed (ColumnValue.guid b) l h =
      rw (← ok_injective h) (tagged-Closed (codes "UUID ") _ (omega arith) (uuid_lacks b))
  render_literal-Closed (ColumnValue.date y m d) l h = checked _ _ l (date-Closed y m d) h
  render_literal-Closed (ColumnValue.time hh m s f) l h = checked _ _ l (time-Closed hh m s f) h
  render_literal-Closed (ColumnValue.timestamp y mo d hh mi s f) l h =
      checked_twice _ _ _ l (timestamp-Closed y mo d hh mi s f) h
  render_literal-Closed (ColumnValue.timestamp_tz y mo d hh mi s f o) l h =
      checked_twice _ _ _ l (timestamp_tz-Closed y mo d hh mi s f o) h
  render_literal-Closed _ l h = cc
