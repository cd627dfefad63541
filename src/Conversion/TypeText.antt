-- ===== src/Conversion/TypeText.antt =====
-- What a type-name string with an argument is read as.
use stackable_odbc_trino.Base.{
  ℕ, ◌≤◌, ◌<◌, ◌≡◌, refl, ap, ◌∙◌, ◌≢◌, pos, false, [], ◌∷◌, ◌++◌, none, some, arith, All, length,
}
use stackable_odbc_trino.Base.Fallible.{◌>>=◌}
use stackable_odbc_trino.Base.Text.{Text, IsDigit, show, parse_digits}
use stackable_odbc_trino.Base.Text.Decimal.{
  show-IsDigit, value-show, length-show-pos, parse_digits_lem,
}
use stackable_odbc_trino.Base.Text.Split.{split_once_first, split_once_lacks}
use stackable_odbc_trino.Base.Text.Space.{
  is_whitespace, trim_start, trim_end, keep_last, IsDigit-lacks_space,
}
use stackable_odbc_trino.Conversion.TypeName.{
  lower, trim, around, close_argument, open_argument, strip_precision_param,
}
use stackable_odbc_trino.Conversion.TypeParams.{
  rsplit_once, parse_i32, arguments, first_part, parse_precision_param,
}

lower-append : (s t : Text) → lower (s ++ t) ≡ lower s ++ lower t
unfolding lower
lower-append [] t = refl
lower-append (c ∷ s) t = rw (lower-append s t)

lower_digits : (s : Text) → All IsDigit s → lower s ≡ s
unfolding lower
lower_digits [] h = refl
lower_digits (c ∷ s) (hc, hs) = ground (arith, lower_digits s hs)

keep_last-false : (c : ℕ) (t : Text) → keep_last false c t ≡ c ∷ t
keep_last-false c [] = refl
keep_last-false c (d ∷ t) = refl

-- What stands before a text that begins with a kept character is kept.
trim_end_tail :
    (s : Text) (c : ℕ) (b : Text) → trim_end (c ∷ b) ≡ c ∷ b → trim_end (s ++ c ∷ b) ≡ s ++ c ∷ b
unfolding trim_end
trim_end_tail [] c b h = h
trim_end_tail (d ∷ []) c b h = ap (keep_last (is_whitespace d) d) h
trim_end_tail (d ∷ e ∷ s) c b h = ap (keep_last (is_whitespace d) d) (trim_end_tail (e ∷ s) c b h)

trim_end_cons :
    (c : ℕ) (t : Text) → is_whitespace c ≡ false → trim_end t ≡ t → trim_end (c ∷ t) ≡ c ∷ t
unfolding trim_end
trim_end_cons c t h e = rw (h, e) (keep_last-false c t)

trim_end_digits : (s : Text) → All IsDigit s → trim_end s ≡ s
trim_end_digits [] h = unfold trim_end in refl
trim_end_digits (c ∷ s) (hc, hs) =
    trim_end_cons c s (IsDigit-lacks_space c hc) (trim_end_digits s hs)

pub trim_digits : (s : Text) → All IsDigit s → trim s ≡ s
unfolding trim trim_start
trim_digits [] h = unfold trim_end in refl
trim_digits (c ∷ s) (hc, hs) = rw (IsDigit-lacks_space c hc) (trim_end_digits (c ∷ s) (hc, hs))

pub parse_i32_unsigned :
    (s : Text)
    → All IsDigit s
    → 0 < length s
    → parse_i32 s ≡ (parse_digits 2147483647 s >>= λ m. some (pos m))
unfolding parse_i32
parse_i32_unsigned [] h l = elim l [ ]
parse_i32_unsigned (c ∷ s) (hc, hs) l = ground arith

pub parse_i32_digits : (n : ℕ) → n ≤ 2147483647 → parse_i32 (show n) ≡ some (pos n)
parse_i32_digits n b =
    parse_i32_unsigned (show n) (show-IsDigit n) (length-show-pos n)
    ∙ ap (λ o. o >>= λ m. some (pos m))
        (parse_digits_lem 2147483647 (show n) (length-show-pos n) (show-IsDigit n)
            (rw (value-show n) b)
          ∙ ap some (value-show n))

rsplit_once_lacks : (sep : ℕ) (b : Text) → All (λ c. c ≢ sep) b → rsplit_once sep b ≡ none
unfolding rsplit_once
rsplit_once_lacks sep [] h = refl
rsplit_once_lacks sep (c ∷ b) (hc, hb) = rw (rsplit_once_lacks sep b hb) (ground arith)

pub rsplit_once_last :
    (sep : ℕ) (a b : Text) → All (λ c. c ≢ sep) b → rsplit_once sep (a ++ sep ∷ b) ≡ some (a, b)
unfolding rsplit_once
rsplit_once_last sep [] b h = rw (rsplit_once_lacks sep b h) (ground arith)
rsplit_once_last sep (c ∷ a) b h = rw (rsplit_once_last sep a b h) refl

digits_lack : (c : ℕ) (s : Text) → c < b'0' → All IsDigit s → All (λ d. d ≢ c) s
digits_lack c [] b h = tt
digits_lack c (d ∷ s) b (hd, hs) = (omega (arith, hd), digits_lack c s b hs)

-- The one argument of a type name.
pub parse_precision_param_lem :
    (a b : Text) (n : ℕ)
    → All (λ c. c ≢ b'(') a
    → All (λ c. c ≢ b')') b
    → n ≤ 2147483647
    → parse_precision_param (a ++ b'(' ∷ (show n ++ b')' ∷ b)) ≡ some (pos n)
unfolding parse_precision_param arguments first_part
parse_precision_param_lem a b n ha hb bound = rw (
  split_once_first b'(' a (show n ++ b')' ∷ b) ha,
  rsplit_once_last b')' (show n) b hb,
  split_once_lacks b',' (show n) (digits_lack b',' (show n) (omega arith) (show-IsDigit n)),
  trim_digits (show n) (show-IsDigit n),
  parse_i32_digits n bound,
)

-- With a name that begins with no white space, and an end that is kept, nothing is trimmed.
trim_kept :
    (c : ℕ) (a b : Text) (n : ℕ)
    → is_whitespace c ≡ false
    → trim_end (b')' ∷ b) ≡ b')' ∷ b
    → trim ((c ∷ a) ++ b'(' ∷ (show n ++ b')' ∷ b)) ≡ (c ∷ a) ++ b'(' ∷ (show n ++ b')' ∷ b)
unfolding trim trim_start
trim_kept c a b n hc hb = rw hc (
    trim_end_tail (c ∷ a) b'(' (show n ++ b')' ∷ b)
      (trim_end_cons b'(' (show n ++ b')' ∷ b) opens (trim_end_tail (show n) b')' b hb)))
  where
    opens : is_whitespace b'(' ≡ false
    opens = unfold is_whitespace in refl

lower_argument :
    (a b : Text) (n : ℕ)
    → lower (a ++ b'(' ∷ (show n ++ b')' ∷ b)) ≡ lower a ++ b'(' ∷ (show n ++ b')' ∷ lower b)
unfolding lower
lower_argument a b n =
    lower-append a (b'(' ∷ (show n ++ b')' ∷ b))
    ∙ ap (λ r. lower a ++ b'(' ∷ r)
        (lower-append (show n) (b')' ∷ b)
          ∙ ap (λ r. r ++ b')' ∷ lower b) (lower_digits (show n) (show-IsDigit n)))

pub strip_precision_param_lem :
    (c : ℕ) (a b : Text) (n : ℕ)
    → is_whitespace c ≡ false
    → All (λ d. d ≢ b'(') (lower (c ∷ a))
    → trim_end (b')' ∷ b) ≡ b')' ∷ b
    → strip_precision_param ((c ∷ a) ++ b'(' ∷ (show n ++ b')' ∷ b))
      ≡ around (lower (c ∷ a)) (lower b)
unfolding strip_precision_param open_argument close_argument
strip_precision_param_lem c a b n hc ha hb = rw (
  trim_kept c a b n hc hb,
  lower_argument (c ∷ a) b n,
  split_once_first b'(' (lower (c ∷ a)) (show n ++ b')' ∷ lower b) ha,
  split_once_first b')' (show n) (lower b)
      (digits_lack b')' (show n) (omega arith) (show-IsDigit n)),
)
