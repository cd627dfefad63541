-- ===== src/Base/Text/Space.antt =====
-- White space in texts, and the parts of a text that it bounds.
use stackable_odbc_trino.Base.Tests.{leb, ◌==◌, if◌then◌else◌}
use stackable_odbc_trino.Base.Lists.{All, length}
use stackable_odbc_trino.Base.Text.{Text, IsDigit, is_empty}
use Prim.Native.Nat.{ℕ, ◌<◌}
use mathlib.Core.Path.{◌≡◌, refl}
use mathlib.Core.Bool.{Bool, true, false, ◌&&◌, ◌||◌}
use mathlib.Core.Option.{Option, none, some}
use mathlib.Core.List.{[], ◌∷◌}
use native.Mathlib.Omega.{arith}

-- `char::is_whitespace`: Unicode's White_Space.
unfoldable pub is_whitespace : ℕ → Bool
is_whitespace c =
    leb 9 c && leb c 13
    || (c == 32)
    || (c == 133)
    || (c == 160)
    || (c == 5760)
    || leb 8192 c && leb c 8202
    || (c == 8232)
    || (c == 8233)
    || (c == 8239)
    || (c == 8287)
    || (c == 12288)

unfoldable pub trim_start : Text → Text
trim_start [] = []
trim_start (c ∷ s) = if is_whitespace c then trim_start s else c ∷ s

-- A character before what is left of the text behind it: it goes too, if nothing is left and the
-- test on it holds.
abbrev pub keep_last : Bool → ℕ → Text → Text
keep_last true c [] = []
keep_last false c [] = c ∷ []
keep_last drops c (d ∷ rest) = c ∷ d ∷ rest

unfoldable pub trim_end : Text → Text
trim_end [] = []
trim_end (c ∷ s) = keep_last (is_whitespace c) c (trim_end s)

-- `s.trim()`
unfoldable pub trim : Text → Text
unfolding trim_start trim_end
trim s = trim_end (trim_start s)

-- What stands before the first white space.
unfoldable pub word : Text → Text
word [] = []
word (c ∷ s) = if is_whitespace c then [] else c ∷ word s

-- `s.split_whitespace().next()`
unfoldable pub first_token : Text → Option Text
unfolding trim_start word
first_token s = if is_empty (trim_start s) then none else some (word (trim_start s))

-- No white space in the text.
abbrev pub LacksSpace : Text → Type 0
LacksSpace = All (λ c. is_whitespace c ≡ false)

word_lacks : (s : Text) → LacksSpace s → word s ≡ s
unfolding word
word_lacks [] h = refl
word_lacks (c ∷ s) (hc, hs) = rw (hc, word_lacks s hs)

-- A text without white space is its own first token.
pub first_token_lem : (s : Text) → 0 < length s → LacksSpace s → first_token s ≡ some s
unfolding first_token trim_start is_empty
first_token_lem [] b h = elim b [ ]
first_token_lem (c ∷ s) b (hc, hs) = unfold word in simp (hc, word_lacks s hs)

pub IsDigit-lacks_space : (c : ℕ) → IsDigit c → is_whitespace c ≡ false
unfolding is_whitespace
IsDigit-lacks_space c h = ground arith
