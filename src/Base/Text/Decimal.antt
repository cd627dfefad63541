-- ===== src/Base/Text/Decimal.antt =====
-- Reading a printed number gives it back, padded or not.
use stackable_odbc_trino.Base.Lists.{
  length, replicate, length-append, length-replicate, All, All-append, All-replicate,
}
use stackable_odbc_trino.Base.Text.{
  Text, IsDigit, digits, show, pad, all_digits, value, parse_digits, parse_unsigned,
}
use Prim.Native.Nat.{ℕ, zero, suc, ◌+◌, ◌-◌, ◌/◌, ◌%◌, ◌≤◌, ◌<◌, ◌^◌}
use mathlib.Core.Path.{◌≡◌, refl, ap}
use mathlib.Core.Bool.{true}
use mathlib.Core.Option.{some}
use mathlib.Core.List.{[], ◌∷◌, ◌++◌}
use native.Mathlib.Omega.{arith}
use native.Mathlib.Nat.{pow-suc}

value-digits : (f n : ℕ) (out : Text) → n < f → value 0 (digits f n out) ≡ value n out
unfolding digits
value-digits zero n out h = elim h [ ]
value-digits (suc f) n out h = ground (arith, value-digits f (n / 10) ((b'0' + n % 10) ∷ out))

-- Printing and reading give the number back.
pub value-show : (n : ℕ) → value 0 (show n) ≡ n
unfolding show
value-show n = value-digits (suc n) n [] (omega arith)

digits-IsDigit : (f n : ℕ) (out : Text) → n < f → All IsDigit out → All IsDigit (digits f n out)
unfolding digits
digits-IsDigit zero n out h all = elim h [ ]
digits-IsDigit (suc f) n out h all =
    ground (arith, digits-IsDigit f (n / 10) ((b'0' + n % 10) ∷ out))

-- A printed number is made of digits.
pub show-IsDigit : (n : ℕ) → All IsDigit (show n)
unfolding show
show-IsDigit n = digits-IsDigit (suc n) n [] (omega arith) tt

length-digits : (f n k : ℕ) (out : Text) → n < f → length out ≡ k → k < length (digits f n out)
unfolding digits
length-digits zero n k out h e = elim h [ ]
length-digits (suc f) n k out h e =
    ground (arith, length-digits f (n / 10) (suc k) ((b'0' + n % 10) ∷ out))

pub length-show-pos : (n : ℕ) → 0 < length (show n)
unfolding show
length-show-pos n = length-digits (suc n) n 0 [] (omega arith) refl

tenth_lt_pow : (w n : ℕ) → n < 10 ^ suc w → n / 10 < 10 ^ w
tenth_lt_pow w n b = omega (arith, pow-suc 10 w)

length-digits-le :
    (w f n k : ℕ) (out : Text)
    → n < f
    → n < 10 ^ suc w
    → length out ≡ k
    → length (digits f n out) ≤ suc w + k
unfolding digits
length-digits-le w zero n k out h b e = elim h [ ]
length-digits-le zero (suc f) n k out h b e =
    let b' : n < 10 = omega (arith, pow-suc 10 0) in ground arith
length-digits-le (suc w) (suc f) n k out h b e =
    ground (
      arith,
      length-digits-le w f (n / 10) (suc k) ((b'0' + n % 10) ∷ out),
      tenth_lt_pow (suc w) n b,
    )

-- A number below 10 ^ w has at most w digits, for w at least 1.
pub length-show-le : (w n : ℕ) → n < 10 ^ suc w → length (show n) ≤ suc w
unfolding show
length-show-le w n b = omega (arith, length-digits-le w (suc n) n 0 [] (omega arith) b refl)

pub pad-IsDigit : (w n : ℕ) → All IsDigit (pad w (show n))
unfolding pad
pad-IsDigit w n =
    All-append IsDigit (replicate (w - length (show n)) b'0') (show n)
      (All-replicate IsDigit (w - length (show n)) b'0' (omega arith)) (show-IsDigit n)

value-zeros : (k n : ℕ) (s : Text) → value 0 (replicate k b'0' ++ s) ≡ value 0 s
value-zeros zero n s = refl
value-zeros (suc k) n s = value-zeros k n s

pub value-pad : (w n : ℕ) → value 0 (pad w (show n)) ≡ n
unfolding pad
value-pad w n = rw (value-zeros (w - length (show n)) n (show n)) (value-show n)

-- Padded to w characters, a number of at most w digits has exactly w characters.
pub length-pad : (w n : ℕ) → n < 10 ^ suc w → length (pad (suc w) (show n)) ≡ suc w
unfolding pad
length-pad w n b = omega (
  arith,
  length-append (replicate (suc w - length (show n)) b'0') (show n),
  length-replicate {A = ℕ} (suc w - length (show n)) b'0',
  length-show-le w n b,
)

pub all_digits-IsDigit : (s : Text) → All IsDigit s → all_digits s ≡ true
unfolding all_digits
all_digits-IsDigit [] h = refl
all_digits-IsDigit (c ∷ s) (hc, hs) = ground (arith, all_digits-IsDigit s hs)

pub IsDigit-all_digits : (s : Text) → all_digits s ≡ true → All IsDigit s
unfolding all_digits
IsDigit-all_digits [] h = tt
IsDigit-all_digits (c ∷ s) h = ground (arith, IsDigit-all_digits s)

-- A non-empty run of digits that fits is read as its value.
pub parse_digits_lem :
    (max : ℕ) (s : Text)
    → 0 < length s
    → All IsDigit s
    → value 0 s ≤ max
    → parse_digits max s ≡ some (value 0 s)
unfolding parse_digits
parse_digits_lem max [] l h b = elim l [ ]
parse_digits_lem max (c ∷ s) l h b = ground (arith, all_digits-IsDigit (c ∷ s) h)

pub parse_digits_bound : (max : ℕ) (s : Text) {n : ℕ} → parse_digits max s ≡ some n → n ≤ max
unfolding parse_digits
parse_digits_bound max [] h = cc
parse_digits_bound max (c ∷ s) h = ground arith

pub parse_unsigned_lem :
    (max : ℕ) (s : Text)
    → 0 < length s
    → All IsDigit s
    → value 0 s ≤ max
    → parse_unsigned max s ≡ some (value 0 s)
unfolding parse_unsigned
parse_unsigned_lem max [] l h b = elim l [ ]
parse_unsigned_lem max (c ∷ s) l h b = ground (arith, parse_digits_lem max (c ∷ s) l h b)

pub pad-pos : (w n : ℕ) → 0 < length (pad w (show n))
unfolding pad
pad-pos w n =
    omega (arith, length-append (replicate (w - length (show n)) b'0') (show n), length-show-pos n)

-- The integer parsers read a number back from its padded decimal form.
pub parse_unsigned-pad : (max w n : ℕ) → n ≤ max → parse_unsigned max (pad w (show n)) ≡ some n
parse_unsigned-pad max w n b =
    rw
      (parse_unsigned_lem max (pad w (show n)) (pad-pos w n) (pad-IsDigit w n)
        (rw (value-pad w n) b))
      (ap some (value-pad w n))

pub parse_digits-pad : (max w n : ℕ) → n ≤ max → parse_digits max (pad w (show n)) ≡ some n
parse_digits-pad max w n b =
    rw
      (parse_digits_lem max (pad w (show n)) (pad-pos w n) (pad-IsDigit w n) (rw (value-pad w n) b))
      (ap some (value-pad w n))
