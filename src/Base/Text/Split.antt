-- ===== src/Base/Text/Split.antt =====
-- Splitting a text at a separator.
use stackable_odbc_trino.Base.Tests.{Option-cases}
use stackable_odbc_trino.Base.Lists.{All}
use stackable_odbc_trino.Base.Text.{Text, split_once}
use Prim.Native.Nat.{ℕ}
use mathlib.Core.Path.{◌≡◌, refl}
use mathlib.Core.Logic.{◌≢◌, inl, inr}
use mathlib.Core.Option.{none, some}
use mathlib.Core.List.{[], ◌∷◌, ◌++◌}
use native.Mathlib.Omega.{arith}

-- A text that is split at the first separator is put together again around it.
pub split_once-eq_some :
    (sep : ℕ) (s a b : Text) → split_once sep s ≡ some (a, b) → s ≡ a ++ sep ∷ b
unfolding split_once
split_once-eq_some sep [] a b h = cc
split_once-eq_some sep (c ∷ s) a b h = elim (Option-cases (split_once sep s)) [
  | inl e ↦ ground arith
  | inr (p, e) ↦ ground (arith, split_once-eq_some sep s p.0 p.1)
]

-- A text with no separator before it is split right there.
pub split_once_first :
    (sep : ℕ) (a b : Text) → All (λ c. c ≢ sep) a → split_once sep (a ++ sep ∷ b) ≡ some (a, b)
unfolding split_once
split_once_first sep [] b h = ground arith
split_once_first sep (c ∷ a) b (hc, ha) = ground (arith, split_once_first sep a b ha)

pub split_once_lacks : (sep : ℕ) (a : Text) → All (λ c. c ≢ sep) a → split_once sep a ≡ none
unfolding split_once
split_once_lacks sep [] h = refl
split_once_lacks sep (c ∷ a) (hc, ha) = ground (arith, split_once_lacks sep a ha)
