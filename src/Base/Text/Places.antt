-- ===== src/Base/Text/Places.antt =====
-- Runs of digits put side by side: what their places weigh.
use stackable_odbc_trino.Base.Lists.{length, replicate, All}
use stackable_odbc_trino.Base.Text.{Text, IsDigit, value}
use Prim.Native.Nat.{ℕ, zero, suc, ◌+◌, ◌-◌, ◌*◌, ◌<◌, ◌≤◌, ◌^◌}
use mathlib.Core.Path.{◌≡◌, refl, ap}
use mathlib.Core.List.{[], ◌∷◌, ◌++◌}
use native.Mathlib.Omega.{arith}
use native.Mathlib.Nat.{pow-suc}

sum_suc : (a b : ℕ) → suc a + b ≡ suc (a + b)
sum_suc a b = omega arith

scaled : (p q : ℕ) → p * q * 10 ≡ p * 10 * q
scaled p q = omega arith

carried : (n d p r : ℕ) → (n * 10 + d) * p + r ≡ n * (p * 10) + ((0 * 10 + d) * p + r)
carried n d p r = omega arith

shifted : (n p : ℕ) → (n * 10 + 0) * p ≡ n * (p * 10)
shifted n p = omega arith

below : (d p r : ℕ) → d ≤ 9 → r < p → (0 * 10 + d) * p + r < p * 10
below d p r hd hr = grind arith

pub pow_add : (a b : ℕ) → 10 ^ (a + b) ≡ 10 ^ a * 10 ^ b
pow_add zero b = grind arith
pow_add (suc a) b =
    rw (ap (λ k. 10 ^ k) (sum_suc a b), pow-suc 10 (a + b), pow_add a b, pow-suc 10 a)
      (scaled (10 ^ a) (10 ^ b))

pub value-append : (n : ℕ) (s t : Text) → value n (s ++ t) ≡ value (value n s) t
value-append n [] t = refl
value-append n (c ∷ s) t = value-append (n * 10 + (c - b'0')) s t

-- What stands before a run of digits weighs a power of ten.
pub value_carry : (n : ℕ) (s : Text) → value n s ≡ n * 10 ^ length s + value 0 s
value_carry n [] = omega arith
value_carry n (c ∷ s) =
    rw
      (
        value_carry (n * 10 + (c - b'0')) s,
        value_carry (0 * 10 + (c - b'0')) s,
        pow-suc 10 (length s),
      )
      (carried n (c - b'0') (10 ^ length s) (value 0 s))

pub value-replicate : (n k : ℕ) → value n (replicate k b'0') ≡ n * 10 ^ k
value-replicate n zero = omega arith
value-replicate n (suc k) =
    rw (value-replicate (n * 10 + (b'0' - b'0')) k, pow-suc 10 k) (shifted n (10 ^ k))

pub value-lt-pow : (s : Text) → All IsDigit s → value 0 s < 10 ^ length s
value-lt-pow [] h = omega arith
value-lt-pow (c ∷ s) (hc, hs) =
    rw (value_carry (0 * 10 + (c - b'0')) s, pow-suc 10 (length s))
      (below (c - b'0') (10 ^ length s) (value 0 s) (omega (arith, hc)) (value-lt-pow s hs))
