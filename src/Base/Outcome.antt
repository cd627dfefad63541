-- ===== src/Base/Outcome.antt =====
-- `Result` and `do` over it: Rust's `?` in a function that returns `Result`.
use mathlib.Core.Path.{◌≡◌, refl}
use mathlib.Core.Logic.{◌⊎◌, inl, inr}

pub data Result (E A : Type 0) : Type 0 where
  err : E → Result E A
  ok : A → Result E A

pub Result-cases :
    {E A : Type 0} (r : Result E A) → ((a : A) × (r ≡ ok a)) ⊎ ((e : E) × (r ≡ err e))
Result-cases (ok a) = inl (a, refl)
Result-cases (err e) = inr (e, refl)

pub ok_injective : {E A : Type 0} {a b : A} → ◌≡◌ {A = Result E A} (ok a) (ok b) → a ≡ b
ok_injective h = cc

module _ {E A B : Type 0} where
  infixl 5 ◌>>=◌ ◌>>◌
  abbrev pub ◌>>=◌ : Result E A → (A → Result E B) → Result E B
  err failure >>= next = err failure
  ok given >>= next = next given

  -- The first result is only waited for.
  abbrev pub ◌>>◌ : Result E A → Result E B → Result E B
  err failure >> next = err failure
  ok given >> next = next

-- A chain that succeeds has a first step that does, and goes on from its value.
pub >>=-eq-ok :
    {E A B : Type 0} (first : Result E A) (next : A → Result E B) {final : B}
    → (first >>= next) ≡ ok final
    → (given : A) × (first ≡ ok given) × (next given ≡ ok final)
>>=-eq-ok (err failure) next e = cc
>>=-eq-ok (ok given) next e = (given, refl, e)
