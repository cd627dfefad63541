-- ===== src/Params/Quotes.antt =====
-- The texts that `render_literal` of backend/params.rs puts between quotes, and whether they hold one.
use stackable_odbc_trino.Base.{
  ℕ, ◌+◌, ◌/◌, ◌%◌, ◌<◌, ◌≡◌, ◌≢◌, ℤ, pos, negsuc, true, inl, inr, [], ◌∷◌, ◌++◌, arith, All,
  All-append, All-mono,
}
use stackable_odbc_trino.Base.Text.{Text, IsDigit, show, pad}
use stackable_odbc_trino.Base.Text.Decimal.{show-IsDigit, pad-IsDigit, IsDigit-all_digits}
use stackable_odbc_trino.Params.Literal.{
  quote, show_int, hex_digit, hex, uuid_text, year4, is_plain_decimal, date_text, time_text,
  offset_text,
}
use stackable_odbc_trino.Base.Text.Split.{split_once-eq_some}
use stackable_odbc_trino.Base.Text.{all_digits, split_once}
use stackable_odbc_trino.Base.{Option-cases}
use stackable_odbc_trino.Params.Literal.{strip_sign}
use stackable_odbc_trino.Params.Lexing.{LacksQuote}

digits_lack_quote : (s : Text) → All IsDigit s → LacksQuote s
digits_lack_quote s = All-mono IsDigit (λ c. c ≢ quote) (λ c h. omega arith) s

show_lacks : (n : ℕ) → LacksQuote (show n)
show_lacks n = digits_lack_quote (show n) (show-IsDigit n)

pad_lacks : (w n : ℕ) → LacksQuote (pad w (show n))
pad_lacks w n = digits_lack_quote (pad w (show n)) (pad-IsDigit w n)

pub show_int_lacks : (v : ℤ) → LacksQuote (show_int v)
unfolding show_int
show_int_lacks (pos n) = show_lacks n
show_int_lacks (negsuc n) = (omega arith, show_lacks (n + 1))

hex_digit_lacks : (a d : ℕ) → quote < a → hex_digit a d ≢ quote
unfolding hex_digit
hex_digit_lacks a d h = ground arith

pub hex_lacks : (a : ℕ) (s : Text) → quote < a → LacksQuote (hex a s)
unfolding hex
hex_lacks a [] h = tt
hex_lacks a (b ∷ s) h =
    (hex_digit_lacks a (b / 16) h, (hex_digit_lacks a (b % 16) h, hex_lacks a s h))

-- Two texts without a quote, joined by a character that is no quote.
pub join_lacks :
    (s t : Text) (c : ℕ) → LacksQuote s → c ≢ quote → LacksQuote t → LacksQuote (s ++ c ∷ t)
join_lacks s t c hs hc ht = All-append (λ d. d ≢ quote) s (c ∷ t) hs (hc, ht)

pub uuid_lacks : (b : Text) → LacksQuote (uuid_text b)
unfolding uuid_text
uuid_lacks b = join_lacks _ _ _ (hex_lacks _ _ (omega arith)) (omega arith) (
    join_lacks _ _ _ (hex_lacks _ _ (omega arith)) (omega arith) (
      join_lacks _ _ _ (hex_lacks _ _ (omega arith)) (omega arith) (
        join_lacks _ _ _ (hex_lacks _ _ (omega arith)) (omega arith)
          (hex_lacks _ _ (omega arith)))))

year4_lacks : (y : ℤ) → LacksQuote (year4 y)
unfolding year4
year4_lacks (pos y) = pad_lacks 4 y
year4_lacks (negsuc y) = (omega arith, pad_lacks 4 (y + 1))

pub date_lacks : (y : ℤ) (m d : ℕ) → LacksQuote (date_text y m d)
unfolding date_text
date_lacks y m d =
    join_lacks _ _ _ (year4_lacks y) (omega arith)
      (join_lacks _ _ _ (pad_lacks 2 m) (omega arith) (pad_lacks 2 d))

pub time_lacks : (h m s f : ℕ) → LacksQuote (time_text h m s f)
unfolding time_text
time_lacks h m s f =
    join_lacks _ _ _
      (join_lacks _ _ _ (pad_lacks 2 h) (omega arith)
        (join_lacks _ _ _ (pad_lacks 2 m) (omega arith) (pad_lacks 2 s)))
      (omega arith) (pad_lacks 9 _)

pub offset_lacks : (o : ℤ) → LacksQuote (offset_text o)
unfolding offset_text
offset_lacks (pos o) = (omega arith, join_lacks _ _ _ (pad_lacks 2 _) (omega arith) (pad_lacks 2 _))
offset_lacks (negsuc o) =
    (omega arith, join_lacks _ _ _ (pad_lacks 2 _) (omega arith) (pad_lacks 2 _))

all_digits_lack : (s : Text) → all_digits s ≡ true → LacksQuote s
all_digits_lack s h = digits_lack_quote s (IsDigit-all_digits s h)

body_lacks : (s : Text) → LacksQuote (strip_sign s) → LacksQuote s
unfolding strip_sign
body_lacks [] h = tt
body_lacks (c ∷ s) h = ground arith

dot_lacks : (s a b : Text) → s ≡ a ++ b'.' ∷ b → LacksQuote a → LacksQuote b → LacksQuote s
dot_lacks s a b e ha hb = rw e (join_lacks a b b'.' ha (omega arith) hb)

-- What the decimal test accepts holds no quote.
pub decimal_lacks : (s : Text) → is_plain_decimal s ≡ true → LacksQuote s
unfolding is_plain_decimal
decimal_lacks s h = body_lacks s (elim (Option-cases (split_once b'.' (strip_sign s))) [
  | inl e ↦ all_digits_lack (strip_sign s) (ground arith)
  | inr (p, e) ↦
      dot_lacks (strip_sign s) p.0 p.1 (split_once-eq_some b'.' (strip_sign s) p.0 p.1 e)
        (all_digits_lack p.0 (ground arith)) (all_digits_lack p.1 (ground arith))
])
