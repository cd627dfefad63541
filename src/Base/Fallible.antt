-- ===== src/Base/Fallible.antt =====
-- `do` over `Option`: Rust's `?` in a function that returns `Option`.
use mathlib.Core.Option.{Option, none, some}
use mathlib.Core.Path.{◌≡◌, refl}

infixl 5 ◌>>=◌
abbrev pub ◌>>=◌ {ℓ κ} : {A : Type ℓ} {B : Type κ} → Option A → (A → Option B) → Option B
none >>= f = none
some a >>= f = f a

-- `unwrap_or`
abbrev pub get_or {ℓ} : {A : Type ℓ} → Option A → A → A
get_or none d = d
get_or (some a) d = a

-- A chain that succeeds has a first step that does, and goes on from its value.
pub >>=-eq-some :
    {A B : Type 0} (first : Option A) (next : A → Option B) {final : B}
    → (first >>= next) ≡ some final
    → (given : A) × (first ≡ some given) × (next given ≡ some final)
>>=-eq-some none next e = cc
>>=-eq-some (some given) next e = (given, refl, e)
