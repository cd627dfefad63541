-- ===== src/Conversion/Fractions.antt =====
-- `fraction_exceeds_nanoseconds` of type_conversion.rs against `parse_fraction_nanos`.
use mathlib.Core.Path.{subst}
use native.Mathlib.Nat.{pow-suc}
use stackable_odbc_trino.Base.{
  ℕ, zero, suc, ◌+◌, ◌-◌, ◌*◌, ◌^◌, ◌≤◌, ◌<◌, ◌≡◌, refl, sym, ap, ◌∙◌, ◌≢◌, ◌↔◌, inl, inr, false,
  [], ◌∷◌, ◌++◌, append-nil, arith, ◌==◌, leb, take, drop, length, replicate, All, All-append,
  All-replicate, All-take, All-drop, length-append, length-replicate, Bool-cases,
}
use stackable_odbc_trino.Base.Fallible.{get_or}
use stackable_odbc_trino.Base.Text.{Text, IsDigit, value, parse_unsigned}
use stackable_odbc_trino.Base.Text.Decimal.{parse_unsigned_lem}
use stackable_odbc_trino.Base.Text.Split.{split_once_first}
use stackable_odbc_trino.Base.Text.Places.{
  pow_add, value-append, value_carry, value-replicate, value-lt-pow,
}
use stackable_odbc_trino.Conversion.Temporal.{
  pad_end, parse_fraction_nanos, take_digits, any_nonzero, exceeds_behind,
  fraction_exceeds_nanoseconds,
}

take_digits_lem : (s : Text) → All IsDigit s → take_digits s ≡ s
unfolding take_digits
take_digits_lem [] h = refl
take_digits_lem (c ∷ s) (hc, hs) = ground (arith, take_digits_lem s hs)

positive_product : (a p : ℕ) → 0 < a → 0 < p → 0 < a * p
positive_product a p ha hp = grind arith

power_positive : (n : ℕ) → 0 < 10 ^ n
power_positive zero = omega arith
power_positive (suc n) = omega (arith, pow-suc 10 n, power_positive n)

-- A digit other than 0 makes the value positive.
weighs : (c : ℕ) (s : Text) → (c == b'0') ≡ false → b'0' ≤ c → value 0 (c ∷ s) ≡ 0 → ⊥
weighs c s h b e =
    let d = 0 * 10 + (c - b'0') in
    let p : 0 < d * 10 ^ length s =
      positive_product d (10 ^ length s) (ground arith) (power_positive (length s)) in
    omega (arith, value_carry d s, p, e)

-- A run of digits is all zeros exactly when its value is 0.
any_nonzero-value : (s : Text) → All IsDigit s → (any_nonzero s ≡ false) ↔ (value 0 s ≡ 0)
unfolding any_nonzero
any_nonzero-value [] h = (λ e. refl, λ e. refl)
any_nonzero-value (c ∷ s) (hc, hs) = elim (Bool-cases (c == b'0')) [
  | inl zero_here ↦
      let same : 0 * 10 + (c - b'0') ≡ 0 = ground arith in
      rw (zero_here, same) (any_nonzero-value s hs)
  | inr digit_here ↦ rw digit_here (λ e. cc, λ e. absurd (weighs c s digit_here hc.0 e))
]

take-append-drop : (n : ℕ) (s : Text) → s ≡ take n s ++ drop n s
take-append-drop zero s = refl
take-append-drop (suc n) [] = refl
take-append-drop (suc n) (c ∷ s) = ap (λ t. c ∷ t) (take-append-drop n s)

take_all : (s : Text) (n : ℕ) → length s ≡ n → take n s ≡ s
take_all [] zero e = refl
take_all [] (suc n) e = refl
take_all (c ∷ s) zero e = cc
take_all (c ∷ s) (suc n) e = rw (take_all s n (omega arith))

length-take : (n : ℕ) (s : Text) → n ≤ length s → length (take n s) ≡ n
length-take zero s h = refl
length-take (suc n) [] h = elim h [ ]
length-take (suc n) (c ∷ s) h = omega (arith, length-take n s (omega arith))

drop_past : (n : ℕ) (s : Text) → length s ≤ n → drop n s ≡ []
drop_past zero [] h = refl
drop_past (suc n) [] h = refl
drop_past zero (c ∷ s) h = elim h [ ]
drop_past (suc n) (c ∷ s) h = drop_past n s (omega arith)

-- Nine digits are read as their value.
nine_digits :
    (s : Text) → All IsDigit s → length s ≡ 9 → get_or (parse_unsigned 4294967295 s) 0 ≡ value 0 s
nine_digits s h e =
    let b : value 0 s < 10 ^ 9 = subst (λ n. value 0 s < 10 ^ n) e (value-lt-pow s h) in
    rw (parse_unsigned_lem 4294967295 s (omega (arith, e)) h (omega (arith, b)))

-- Up to nine digits: the fraction is padded, and nothing is lost.
fraction_short :
    (frac : Text)
    → All IsDigit frac
    → length frac ≤ 9
    → parse_fraction_nanos frac ≡ value 0 frac * 10 ^ (9 - length frac)
unfolding parse_fraction_nanos pad_end
fraction_short frac h b =
    let k = 9 - length frac in
    let padded = frac ++ replicate k b'0' in
    let len : length padded ≡ 9 =
      omega (arith, length-append frac (replicate k b'0'), length-replicate {A = ℕ} k b'0') in
    let all =
      All-append IsDigit frac (replicate k b'0') h (All-replicate IsDigit k b'0' (omega arith)) in
    rw (
      take_all padded 9 len,
      nine_digits padded all len,
      value-append 0 frac (replicate k b'0'),
      value-replicate (value 0 frac) k,
    )

-- From nine digits on: the first nine count.
fraction_long :
    (frac : Text)
    → All IsDigit frac
    → 9 ≤ length frac
    → parse_fraction_nanos frac ≡ value 0 (take 9 frac)
unfolding parse_fraction_nanos pad_end
fraction_long frac h b =
    let none_added : 9 - length frac ≡ 0 = omega arith in
    rw (
      none_added,
      append-nil,
      nine_digits (take 9 frac) (All-take IsDigit 9 frac h) (length-take 9 frac b),
    )

scaled_back : (v a b p : ℕ) → a * b ≡ p → v * p ≡ v * a * b
scaled_back v a b p e = rw (← e) (omega arith)

lost_iff : (a l b : ℕ) → ((a * l + b) * 1_000_000_000 ≡ a * (1_000_000_000 * l)) ↔ (b ≡ 0)
lost_iff a l b = (λ e. omega (arith, e), λ e. rw e (omega arith))

length-drop : (n : ℕ) (s : Text) → n ≤ length s → length s ≡ n + length (drop n s)
length-drop zero s h = omega arith
length-drop (suc n) [] h = elim h [ ]
length-drop (suc n) (c ∷ s) h = omega (arith, length-drop n s (omega arith))

-- For all digits of the fraction.
kept_iff :
    (frac : Text)
    → All IsDigit frac
    → (any_nonzero (drop 9 frac) ≡ false)
      ↔ (value 0 frac * 10 ^ 9 ≡ parse_fraction_nanos frac * 10 ^ length frac)
unfolding any_nonzero
kept_iff frac h = elim (Bool-cases (leb (length frac) 9)) [
  | inl short ↦
      let k = 9 - length frac in
      let sum : k + length frac ≡ 9 = ground arith in
      let powers : 10 ^ k * 10 ^ length frac ≡ 10 ^ 9 =
        sym (pow_add k (length frac)) ∙ ap (λ n. 10 ^ n) sum in
      let kept : value 0 frac * 10 ^ 9 ≡ parse_fraction_nanos frac * 10 ^ length frac =
        rw (fraction_short frac h (ground arith))
          (scaled_back (value 0 frac) (10 ^ k) (10 ^ length frac) (10 ^ 9) powers) in
      rw (drop_past 9 frac (ground arith)) (λ e. kept, λ e. refl)
  | inr long ↦
      let a = take 9 frac in
      let b = drop 9 frac in
      let whole : value 0 frac ≡ value 0 a * 10 ^ length b + value 0 b =
        ap (value 0) (take-append-drop 9 frac) ∙ value-append 0 a b ∙ value_carry (value 0 a) b in
      let len : length frac ≡ 9 + length b = length-drop 9 frac (ground arith) in
      let powers : 10 ^ length frac ≡ 10 ^ 9 * 10 ^ length b =
        ap (λ n. 10 ^ n) len ∙ pow_add 9 (length b) in
      let zeros = any_nonzero-value b (All-drop IsDigit 9 frac h) in
      let lost = lost_iff (value 0 a) (10 ^ length b) (value 0 b) in
      rw (whole, fraction_long frac h (ground arith), powers)
        (λ e. lost.1 (zeros.0 e), λ e. zeros.1 (lost.0 e))
]

-- Behind the dot of a wire text that ends with its fraction, the warning is withheld exactly when
-- the nanoseconds that are kept are the fraction on the wire: when `frac` of n digits is
-- nanoseconds / 10 ^ 9 and nothing less.
pub fraction_exceeds_nanoseconds_iff :
    (before frac : Text)
    → All (λ c. c ≢ b'.') before
    → All IsDigit frac
    → (fraction_exceeds_nanoseconds (before ++ b'.' ∷ frac) ≡ false)
      ↔ (value 0 frac * 10 ^ 9 ≡ parse_fraction_nanos frac * 10 ^ length frac)
unfolding fraction_exceeds_nanoseconds exceeds_behind
fraction_exceeds_nanoseconds_iff before frac hb hf =
    rw (split_once_first b'.' before frac hb, take_digits_lem frac hf) (kept_iff frac hf)
