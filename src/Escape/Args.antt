-- ===== src/Escape/Args.antt =====
-- `split_args`: the arguments between the top-level commas. The loop is an automaton that reads one
-- character at a time and looks at the one behind it.
use stackable_odbc_trino.Base.{
  ℕ, zero, ◌+◌, ◌-◌, Bool, true, false, ◌&&◌, ◌||◌, ◌==◌, List, [], ◌∷◌, map, if◌then◌else◌,
}
use stackable_odbc_trino.Base.Text.{Text}
use stackable_odbc_trino.Base.Text.Space.{trim}
use stackable_odbc_trino.Base.Text.Parts.{cons_head}

-- Where the loop stands before a character, each time with the depth of parentheses: in code, in a
-- literal or identifier with its quote, before the second quote of a pair in one, in a line comment,
-- before the star that opens a block comment, in a block comment, and before the slash that ends it.
pub data Place : Type 0 where
  code : ℕ → Place
  quoted doubled : ℕ → ℕ → Place
  line_comment opening block_comment closing : ℕ → Place

-- `bytes.get(i + 1) == Some(&c)`
unfoldable pub next_is : ℕ → Text → Bool
next_is c [] = false
next_is c (d ∷ s) = d == c

-- A character of code.
unfoldable pub from_code : ℕ → ℕ → Text → Place
from_code depth c behind =
    if (c == b'\'') || (c == b'"')
    then quoted c depth
    else if (c == b'-') && next_is b'-' behind
    then line_comment depth
    else if (c == b'/') && next_is b'*' behind
    then opening depth
    else if c == b'('
    then code (depth + 1)
    else if c == b')'
    then code (depth - 1)
    else code depth

-- The place behind a character, and the text behind it.
unfoldable pub step : Place → ℕ → Text → Place
step (code depth) c behind = from_code depth c behind
step (quoted quote depth) c behind =
    if c == quote
    then (if next_is quote behind then doubled quote depth else code depth)
    else quoted quote depth
step (doubled quote depth) c behind = quoted quote depth
step (line_comment depth) c behind = if c == b'\n' then code depth else line_comment depth
step (opening depth) c behind = block_comment depth
step (block_comment depth) c behind =
    if (c == b'*') && next_is b'/' behind then closing depth else block_comment depth
step (closing depth) c behind = code depth

-- A comma ends an argument in code outside all parentheses.
unfoldable pub ends_argument : Place → ℕ → Bool
ends_argument (code zero) c = c == b','
ends_argument _ c = false

unfoldable pub cut : Bool → ℕ → List Text → List Text
cut true c rest = [] ∷ rest
cut false c rest = cons_head c rest

-- The pieces between the separators, as they stand.
unfoldable pub pieces : Place → Text → List Text
pieces p [] = [] ∷ []
pieces p (c ∷ s) = cut (ends_argument p c) c (pieces (step p c s) s)

unfoldable pub split_args : Text → List Text
split_args args = map trim (pieces (code 0) args)
