-- ===== src/Connect/Pairs.antt =====
-- `parse_key_value_pairs`, with `HashMap` as a list in which each name stands once.
use stackable_odbc_trino.Base.{List, [], ◌∷◌, Option, none, some, if◌then◌else◌}
use stackable_odbc_trino.Base.Outcome.{Result, ok, err, ◌>>=◌}
use stackable_odbc_trino.Base.Text.{Text, eq_text, split_once, is_empty}
use stackable_odbc_trino.Base.Text.Space.{trim}
use stackable_odbc_trino.Base.Text.Parts.{split}
use stackable_odbc_trino.Errors.{TrinoError, Message, general}
use stackable_odbc_trino.Connect.Keywords.{Keyword, key}

abbrev pub HashMap : Type 0
HashMap = List (Text × Text)

unfoldable pub insert : Text → Text → HashMap → HashMap
insert name v [] = (name, v) ∷ []
insert name v ((n, w) ∷ m) = if eq_text name n then (name, v) ∷ m else (n, w) ∷ insert name v m

unfoldable pub lookup : Text → HashMap → Option Text
lookup name [] = none
lookup name ((n, w) ∷ m) = if eq_text name n then some w else lookup name m

-- A pair that is not blank: its name may not be empty.
unfoldable pub named :
    Keyword → Text → Option (Text × Text) → Result TrinoError (Option (Text × Text))
named k pair none = err (general (Message.not_name_value (key k) pair))
named k pair (some (name, v)) =
    if is_empty (trim name)
    then err (general (Message.empty_name (key k) pair))
    else ok (some (trim name, trim v))

-- One turn of the loop: a blank piece is skipped.
unfoldable pub read_pair : Keyword → Text → Result TrinoError (Option (Text × Text))
unfolding named
read_pair k pair = if is_empty (trim pair) then ok none else named k pair (split_once b':' pair)

unfoldable pub keep_pair : Option (Text × Text) → HashMap → HashMap
keep_pair none m = m
keep_pair (some (name, v)) m = insert name v m

unfoldable pub read_pairs : Keyword → List Text → HashMap → Result TrinoError HashMap
read_pairs k [] m = ok m
read_pairs k (pair ∷ rest) m = read_pair k pair >>= λ e. read_pairs k rest (keep_pair e m)

unfoldable pub parse_key_value_pairs : Keyword → Text → Result TrinoError HashMap
parse_key_value_pairs k raw = read_pairs k (split b';' raw) []
