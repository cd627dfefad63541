-- ===== src/Base/Text/Case.antt =====
-- Letters in either case.
use stackable_odbc_trino.Base.Tests.{leb, if◌then◌else◌}
use stackable_odbc_trino.Base.Text.{Text, eq_text}
use Prim.Native.Nat.{◌+◌, ◌-◌}
use mathlib.Core.Bool.{Bool, ◌&&◌}
use mathlib.Core.List.{[], ◌∷◌}

-- `to_ascii_lowercase`, and `to_lowercase` on ASCII. Of the other characters, `to_lowercase` makes the
-- Kelvin sign a `k`, and the dotted capital I an `i` with a combining dot: no type name has either, so
-- the parser of type names answers the same without them.
unfoldable pub lower : Text → Text
lower [] = []
lower (c ∷ s) = (if leb b'A' c && leb c b'Z' then c + 32 else c) ∷ lower s

-- `s.eq_ignore_ascii_case(t)`
unfoldable pub eq_ignore_ascii_case : Text → Text → Bool
eq_ignore_ascii_case s t = eq_text (lower s) (lower t)

-- `to_ascii_uppercase`
unfoldable pub upper : Text → Text
upper [] = []
upper (c ∷ s) = (if leb b'a' c && leb c b'z' then c - 32 else c) ∷ upper s
