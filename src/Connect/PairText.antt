-- ===== src/Connect/PairText.antt =====
-- Writing a map as connection-string text and reading it back (`parse_key_value_pairs`).
use stackable_odbc_trino.Base.{
  ◌≡◌, refl, sym, ap, ◌∙◌, true, false, List, [], ◌∷◌, ◌++◌, Option, none, some, arith, inl, inr,
  if◌then◌else◌, Bool-cases,
}
use stackable_odbc_trino.Base.{All, All-append}
use stackable_odbc_trino.Base.Outcome.{ok}
use stackable_odbc_trino.Base.Text.{Text, eq_text, is_empty}
use stackable_odbc_trino.Base.Text.Compare.{eq_text-eq, eq_text_refl}
use stackable_odbc_trino.Base.Text.Space.{trim, trim_start, trim_end, is_whitespace}
use stackable_odbc_trino.Base.Text.Split.{split_once_first}
use stackable_odbc_trino.Base.Text.Parts.{split, Lacks, split-append, trim_nonempty}
use stackable_odbc_trino.Connect.Keywords.{Keyword}
use stackable_odbc_trino.Connect.Pairs.{
  HashMap, insert, lookup, named, read_pair, keep_pair, read_pairs, parse_key_value_pairs,
}

-- A pair that survives the text: neither part has a separator of its own or space around it, and the
-- name is not empty.
pub record IsPair (p : Text × Text) : Type 0 where
  pub name_ends : Lacks b';' p.0
  pub name_colon : Lacks b':' p.0
  pub name_trimmed : trim p.0 ≡ p.0
  pub name_nonempty : is_empty p.0 ≡ false
  pub value_ends : Lacks b';' p.1
  pub value_trimmed : trim p.1 ≡ p.1

unfoldable pub pair_text : Text × Text → Text
pair_text (name, v) = name ++ b':' ∷ v

-- Each pair is followed by a separator.
unfoldable pub pairs_text : List (Text × Text) → Text
pairs_text [] = []
pairs_text (p ∷ ps) = pair_text p ++ b';' ∷ pairs_text ps

-- The value that a name has last.
unfoldable pub last_value : Text → List (Text × Text) → Option Text → Option Text
last_value name [] found = found
last_value name ((n, v) ∷ ps) found = last_value name ps (if eq_text name n then some v else found)

read_pair-pair_text :
    (k : Keyword) (p : Text × Text) → IsPair p → read_pair k (pair_text p) ≡ ok (some p)
unfolding read_pair named pair_text
read_pair-pair_text k (name, v) h =
    let colon : is_whitespace b':' ≡ false = (unfold is_whitespace in refl) in
    rw
      (
        trim_nonempty name b':' v colon,
        split_once_first b':' name v h.name_colon,
        h.name_trimmed,
        h.name_nonempty,
        h.value_trimmed,
      )
      refl

pair_text-Lacks : (p : Text × Text) → IsPair p → Lacks b';' (pair_text p)
unfolding pair_text
pair_text-Lacks (name, v) h = All-append _ name (b':' ∷ v) h.name_ends (omega arith, h.value_ends)

split-pairs_text :
    (p : Text × Text) (ps : List (Text × Text))
    → IsPair p
    → split b';' (pairs_text (p ∷ ps)) ≡ pair_text p ∷ split b';' (pairs_text ps)
unfolding pairs_text
split-pairs_text p ps h = split-append b';' (pair_text p) (pairs_text ps) (pair_text-Lacks p h)

unfoldable insert_all : List (Text × Text) → HashMap → HashMap
insert_all [] m = m
insert_all ((n, v) ∷ ps) m = insert_all ps (insert n v m)

read_nothing : (k : Keyword) (m : HashMap) → read_pairs k (split b';' []) m ≡ ok m
unfolding split read_pairs read_pair keep_pair trim trim_start trim_end is_empty
read_nothing k m = refl

read_first :
    (k : Keyword) (p : Text × Text) (parts : List Text) (m : HashMap)
    → read_pair k (pair_text p) ≡ ok (some p)
    → read_pairs k (pair_text p ∷ parts) m ≡ read_pairs k parts (insert p.0 p.1 m)
unfolding read_pairs keep_pair
read_first k p parts m h = rw h refl

read_pairs-pairs_text :
    (k : Keyword) (ps : List (Text × Text)) (m : HashMap)
    → All IsPair ps
    → read_pairs k (split b';' (pairs_text ps)) m ≡ ok (insert_all ps m)
unfolding insert_all pairs_text
read_pairs-pairs_text k [] m h = read_nothing k m
read_pairs-pairs_text k ((n, v) ∷ ps) m (hp, hs) =
    ap (λ parts. read_pairs k parts m) (split-pairs_text (n, v) ps hp)
    ∙ read_first k (n, v) (split b';' (pairs_text ps)) m (read_pair-pair_text k (n, v) hp)
    ∙ read_pairs-pairs_text k ps (insert n v m) hs

-- A text equal to one of two different ones is not equal to the other.
eq_text_other :
    (name n a : Text) → eq_text n a ≡ false → eq_text name a ≡ true → eq_text name n ≡ false
eq_text_other name n a e h = elim (Bool-cases (eq_text name n)) [
  | inl same ↦
      let both : n ≡ a = sym (eq_text-eq name n same) ∙ eq_text-eq name a h in
      let true_too : eq_text n a ≡ true = ap (eq_text n) (sym both) ∙ eq_text_refl n in cc
  | inr other ↦ other
]

-- A name finds what was inserted for it, and any other what it found before.
pub lookup-insert :
    (name n v : Text) (m : HashMap)
    → lookup name (insert n v m) ≡ (if eq_text name n then some v else lookup name m)
unfolding lookup insert
lookup-insert name n v [] = refl
lookup-insert name n v ((a, b) ∷ m) = elim (Bool-cases (eq_text n a)) [
  | inl e ↦
      let same : eq_text name n ≡ eq_text name a = ap (eq_text name) (eq_text-eq n a e) in
      ground arith
  | inr e ↦ ground (arith, lookup-insert name n v m, eq_text_other name n a e)
]

lookup-insert_all :
    (name : Text) (ps : List (Text × Text)) (m : HashMap)
    → lookup name (insert_all ps m) ≡ last_value name ps (lookup name m)
unfolding insert_all last_value
lookup-insert_all name [] m = refl
lookup-insert_all name ((n, v) ∷ ps) m =
    lookup-insert_all name ps (insert n v m) ∙ ap (last_value name ps) (lookup-insert name n v m)

-- Pairs written with a colon between name and value and a semicolon behind each are read back: if no
-- part has a separator of its own or space around it, and no name is empty, then the text is accepted,
-- and a name finds the value that it was given last, or nothing if it was given none.
pub parse_key_value_pairs-pairs_text :
    (k : Keyword) (ps : List (Text × Text))
    → All IsPair ps
    → (m : HashMap) × (parse_key_value_pairs k (pairs_text ps) ≡ ok m)
      × ((name : Text) → lookup name m ≡ last_value name ps none)
unfolding parse_key_value_pairs
parse_key_value_pairs-pairs_text k ps h = (
  insert_all ps [],
  read_pairs-pairs_text k ps [] h,
  λ name. lookup-insert_all name ps [] ∙ ap (last_value name ps) (nothing name),
)
  where
    nothing : (name : Text) → lookup name [] ≡ none
    nothing name = unfold lookup in refl
