-- ===== src/Base/Text/Parts.antt =====
-- The parts of a text between separators.
use stackable_odbc_trino.Base.Tests.{◌==◌, if◌then◌else◌, Bool-cases}
use stackable_odbc_trino.Base.Lists.{All}
use stackable_odbc_trino.Base.Text.{Text, is_empty}
use stackable_odbc_trino.Base.Text.Space.{is_whitespace, trim_start, trim_end, keep_last, trim}
use Prim.Native.Nat.{ℕ}
use mathlib.Core.Path.{◌≡◌, refl}
use mathlib.Core.Logic.{◌≢◌, inl, inr}
use mathlib.Core.Bool.{Bool, true, false}
use mathlib.Core.Option.{Option, none, some}
use mathlib.Core.List.{List, [], ◌∷◌, ◌++◌}
use native.Mathlib.Omega.{arith}

abbrev pub cons_head : ℕ → List Text → List Text
cons_head c [] = (c ∷ []) ∷ []
cons_head c (p ∷ ps) = (c ∷ p) ∷ ps

-- `s.split(sep)`
unfoldable pub split : ℕ → Text → List Text
split sep [] = [] ∷ []
split sep (c ∷ s) = elim (c == sep) [ true ↦ [] ∷ split sep s | false ↦ cons_head c (split sep s) ]

-- `s.strip_prefix(p)`, the prefix first.
unfoldable pub strip_prefix : Text → Text → Option Text
strip_prefix [] s = some s
strip_prefix (c ∷ p) [] = none
strip_prefix (c ∷ p) (d ∷ s) = if c == d then strip_prefix p s else none

abbrev pub or_else {ℓ} : {A : Type ℓ} → Option A → Option A → Option A
or_else none later = later
or_else (some a) later = some a

-- `s.split_once(p)` for a text `p`: what stands behind the first `p`.
unfoldable pub after_first : Text → Text → Option Text
unfolding strip_prefix
after_first p [] = strip_prefix p []
after_first p (c ∷ s) = or_else (strip_prefix p (c ∷ s)) (after_first p s)

-- What stands before the first character of the set.
unfoldable pub before_any : (ℕ → Bool) → Text → Text
before_any stops [] = []
before_any stops (c ∷ s) = if stops c then [] else c ∷ before_any stops s

-- `s.contains(c)`
unfoldable pub contains : ℕ → Text → Bool
contains c [] = false
contains c (d ∷ s) = if c == d then true else contains c s

abbrev pub Lacks : ℕ → Text → Type 0
Lacks sep = All (λ c. c ≢ sep)

-- A part with no separator in it is the first one.
pub split-append : (sep : ℕ) (a s : Text) → Lacks sep a → split sep (a ++ sep ∷ s) ≡ a ∷ split sep s
unfolding split
split-append sep [] s h = ground arith
split-append sep (c ∷ a) s (hc, ha) = ground (arith, split-append sep a s ha)

pub split-Lacks : (sep : ℕ) (a : Text) → Lacks sep a → split sep a ≡ a ∷ []
unfolding split
split-Lacks sep [] h = refl
split-Lacks sep (c ∷ a) (hc, ha) = ground (arith, split-Lacks sep a ha)

keep_last_rest :
    (b : Bool) (c : ℕ) (t : Text) → is_empty t ≡ false → is_empty (keep_last b c t) ≡ false
unfolding is_empty
keep_last_rest b c [] h = cc
keep_last_rest b c (d ∷ t) h = refl

keep_last-false : (c : ℕ) (t : Text) → is_empty (keep_last false c t) ≡ false
unfolding is_empty
keep_last-false c [] = refl
keep_last-false c (d ∷ t) = refl

trim_end_nonempty :
    (s : Text) (c : ℕ) (t : Text)
    → is_whitespace c ≡ false
    → is_empty (trim_end (s ++ c ∷ t)) ≡ false
unfolding trim_end
trim_end_nonempty [] c t h = rw h (keep_last-false c (trim_end t))
trim_end_nonempty (d ∷ s) c t h =
    keep_last_rest (is_whitespace d) d (trim_end (s ++ c ∷ t)) (trim_end_nonempty s c t h)

-- A text with a character that is no white space is not blank.
pub trim_nonempty :
    (s : Text) (c : ℕ) (t : Text) → is_whitespace c ≡ false → is_empty (trim (s ++ c ∷ t)) ≡ false
unfolding trim trim_start
trim_nonempty [] c t h = rw h (trim_end_nonempty [] c t h)
trim_nonempty (d ∷ s) c t h = elim (Bool-cases (is_whitespace d)) [
  | inl e ↦ rw e (trim_nonempty s c t h)
  | inr e ↦ rw e (trim_end_nonempty (d ∷ s) c t h)
]
