-- ===== src/Base/Text.antt =====
-- Texts as lists of code points, with the parts of Rust's `str` and `fmt` that the driver uses:
-- decimal formatting, padding, the integer parsers and splitting.
use Prim.Native.Char.{code}
use Prim.Native.String.{String}
use stackable_odbc_trino.Base.Tests.{ltb, leb, ◌==◌, if◌then◌else◌}
use stackable_odbc_trino.Base.Lists.{length, replicate, All}
use Prim.Native.Nat.{ℕ, zero, suc, ◌+◌, ◌-◌, ◌*◌, ◌/◌, ◌%◌, ◌≤◌}
use mathlib.Core.Bool.{Bool, true, false, ◌&&◌, ◌||◌}
use mathlib.Core.Option.{Option, none, some}
use mathlib.Core.List.{List, [], ◌∷◌, ◌++◌}
pub mod Decimal
pub mod Split
pub mod Places
pub mod Space
pub mod Trim
pub mod Case
pub mod Parts
pub mod Compare

abbrev pub Text : Type 0
Text = List ℕ

abbrev pub codes : String → Text
codes String.[] = []
codes (String.◌∷◌ c s) = code c ∷ codes s

-- `c.is_ascii_digit()`
abbrev pub is_digit : ℕ → Bool
is_digit c = leb b'0' c && leb c b'9'

abbrev pub IsDigit : ℕ → Type 0
IsDigit c = (b'0' ≤ c) × (c ≤ b'9')

-- `t == s` on whole texts.
unfoldable pub eq_text : Text → Text → Bool
eq_text [] [] = true
eq_text [] (d ∷ t) = false
eq_text (c ∷ s) [] = false
eq_text (c ∷ s) (d ∷ t) = c == d && eq_text s t

-- The decimal digits of `n` before `out`; the fuel `n + 1` is more than the number of digits.
unfoldable pub digits : ℕ → ℕ → Text → Text
digits zero n out = out
digits (suc f) n out = elim (ltb n 10) [
  | true ↦ (b'0' + n) ∷ out
  | false ↦ digits f (n / 10) ((b'0' + n % 10) ∷ out)
]

-- `n.to_string()` for an unsigned integer.
unfoldable pub show : ℕ → Text
unfolding digits
show n = digits (suc n) n []

-- `{t:0>w}`: at least `w` characters, zeros on the left.
unfoldable pub pad : ℕ → Text → Text
pad w t = replicate (w - length t) b'0' ++ t

-- All characters are digits.
unfoldable pub all_digits : Text → Bool
all_digits [] = true
all_digits (c ∷ s) = is_digit c && all_digits s

-- The number that digits spell behind `n`, with no bound.
abbrev pub value : ℕ → Text → ℕ
value n [] = n
value n (c ∷ s) = value (n * 10 + (c - b'0')) s

-- A run of one or more digits whose value is at most `max`. Rust checks the bound at every digit;
-- since the value never falls, the test at the end refuses the same texts.
unfoldable pub parse_digits : ℕ → Text → Option ℕ
unfolding all_digits
parse_digits max [] = none
parse_digits max (c ∷ s) =
    if all_digits (c ∷ s) && leb (value 0 (c ∷ s)) max then some (value 0 (c ∷ s)) else none

-- `s.parse::<uN>()`, for the type's largest value `max`: one leading `+` is accepted.
unfoldable pub parse_unsigned : ℕ → Text → Option ℕ
unfolding parse_digits
parse_unsigned max [] = none
parse_unsigned max (c ∷ s) = if c == b'+' then parse_digits max s else parse_digits max (c ∷ s)

-- `s.split_once(sep)`: what stands before and after the first `sep`.
abbrev pub cons_first : ℕ → Option (Text × Text) → Option (Text × Text)
cons_first c none = none
cons_first c (some (a, b)) = some (c ∷ a, b)

unfoldable pub split_once : ℕ → Text → Option (Text × Text)
split_once sep [] = none
split_once sep (c ∷ s) = if c == sep then some ([], s) else cons_first c (split_once sep s)

unfoldable pub is_empty : Text → Bool
is_empty [] = true
is_empty (c ∷ s) = false
