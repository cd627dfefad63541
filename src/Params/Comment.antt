-- ===== src/Params/Comment.antt =====
-- What interpolation (backend/params.rs) does around a minus sign.
use stackable_odbc_trino.Base.{
  ℕ, ◌+◌, ◌≡◌, refl, ◌≢◌, false, List, [], ◌∷◌, ◌++◌, arith, All, All-mono, negsuc,
}
use stackable_odbc_trino.Base.Outcome.{ok}
use stackable_odbc_trino.Base.Text.{Text, IsDigit, show}
use stackable_odbc_trino.Base.Text.Decimal.{show-IsDigit}
use stackable_odbc_trino.Params.Lexing.{code, line_comment, opened, lex, lex-append}
use stackable_odbc_trino.Column.{ColumnValue}
use stackable_odbc_trino.Params.Literal.{Externals, quote, render_literal, show_int}
use stackable_odbc_trino.Params.Interpolate.{literal_at, finish, interpolate_params}
use stackable_odbc_trino.Params.Template.{pieces, fill, interpolate_params-fill}

-- No quote and no placeholder.
abbrev pub IsPlainText : Text → Type 0
IsPlainText = All (λ c. (c ≢ quote) × (c ≢ b'?'))

module _ (x : Externals) (params : List ColumnValue) where
  fill_plain :
      (s t : Text) (next : ℕ) {out : Text}
      → IsPlainText s
      → fill x params (pieces false t) next ≡ ok out
      → fill x params (pieces false (s ++ t)) next ≡ ok (s ++ out)
  unfolding fill pieces
  fill_plain [] t next h e = e
  fill_plain (c ∷ s) t next (hc, hs) e = ground (arith, fill_plain s t next hs e)

fill_tail :
    (x : Externals) (params : List ColumnValue) (s : Text) (next : ℕ)
    → IsPlainText s
    → finish x params next ≡ ok []
    → fill x params (pieces false s) next ≡ ok s
unfolding fill pieces
fill_tail x params [] next h e = e
fill_tail x params (c ∷ s) next (hc, hs) e = ground (arith, fill_tail x params s next hs e)

-- The bound negative integers of any width, with their magnitude less one.
pub data IsNegative : ColumnValue → ℕ → Type 0 where
  of_i8 : (n : ℕ) → IsNegative (ColumnValue.i8 (negsuc n)) n
  of_i16 : (n : ℕ) → IsNegative (ColumnValue.i16 (negsuc n)) n
  of_i32 : (n : ℕ) → IsNegative (ColumnValue.i32 (negsuc n)) n
  of_i64 : (n : ℕ) → IsNegative (ColumnValue.i64 (negsuc n)) n

IsNegative-render_literal :
    (x : Externals) {v : ColumnValue} {n : ℕ}
    → IsNegative v n
    → render_literal x v ≡ ok (b'-' ∷ show (n + 1))
unfolding render_literal show_int
IsNegative-render_literal x (of_i8 n) = refl
IsNegative-render_literal x (of_i16 n) = refl
IsNegative-render_literal x (of_i32 n) = refl
IsNegative-render_literal x (of_i64 n) = refl

minus_filled :
    (x : Externals) (v : ColumnValue) (after : Text) (n : ℕ)
    → IsNegative v n
    → IsPlainText after
    → fill x (v ∷ []) (pieces false (b'-' ∷ b'?' ∷ after)) 0
      ≡ ok (b'-' ∷ b'-' ∷ (show (n + 1) ++ after))
unfolding fill pieces literal_at
minus_filled x v after n neg h =
    rw (IsNegative-render_literal x neg, fill_tail x (v ∷ []) after 1 h (unfold finish in refl))
      refl

-- No end of a line.
abbrev pub IsOneLine : Text → Type 0
IsOneLine = All (λ c. (c ≢ 10) × (c ≢ 13))

line_goes_on : (s : Text) → IsOneLine s → lex line_comment s ≡ line_comment
unfolding lex
line_goes_on [] h = refl
line_goes_on (c ∷ s) (hc, hs) = ground (arith, line_goes_on s hs)

digits-IsOneLine : (s : Text) → All IsDigit s → IsOneLine s
digits-IsOneLine s =
    All-mono IsDigit (λ c. (c ≢ 10) × (c ≢ 13)) (λ c h. (omega arith, omega arith)) s

starts_comment :
    (before digits line : Text)
    → lex code before ≡ code
    → All IsDigit digits
    → IsOneLine line
    → lex code (before ++ b'-' ∷ b'-' ∷ (digits ++ line)) ≡ line_comment
unfolding lex opened
starts_comment before digits line b d l =
    rw
      (
        lex-append code before (b'-' ∷ b'-' ∷ (digits ++ line)),
        b,
        lex-append line_comment digits line,
        line_goes_on digits (digits-IsOneLine digits d),
      )
      (line_goes_on line l)

-- A negative integer, of whichever width, that is the one bound value and stands for a placeholder
-- directly behind a minus, where Trino reads code and where no quote and no other placeholder stands
-- before or after, is rendered behind that minus as it is: Trino is then inside a comment, and stays
-- there to the end of the line.
pub negative_starts_comment :
    (x : Externals) (v : ColumnValue) (before line rest : Text) (n : ℕ)
    → IsNegative v n
    → IsPlainText before
    → IsPlainText (line ++ rest)
    → lex code before ≡ code
    → IsOneLine line
    → (interpolate_params x (v ∷ []) (before ++ b'-' ∷ b'?' ∷ (line ++ rest))
        ≡ ok (before ++ b'-' ∷ b'-' ∷ (show (n + 1) ++ (line ++ rest))))
      × (lex code (before ++ b'-' ∷ b'-' ∷ (show (n + 1) ++ line)) ≡ line_comment)
negative_starts_comment x v before line rest n neg hb ha outside l = (
  rw interpolate_params-fill (
      fill_plain x _ before (b'-' ∷ b'?' ∷ (line ++ rest)) 0 hb
        (minus_filled x v (line ++ rest) n neg ha)),
  starts_comment before (show (n + 1)) line outside (show-IsDigit (n + 1)) l,
)
