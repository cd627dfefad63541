-- ===== src/Conversion/Losses.antt =====
-- The texts that `discards_fractional_seconds` asks about.
use stackable_odbc_trino.Base.{
  ◌≡◌, refl, sym, ap, ◌∙◌, Bool, true, false, ◌||◌, List, [], ◌∷◌, ◌++◌,
}
use stackable_odbc_trino.Base.Text.{Text}
use stackable_odbc_trino.Conversion.Temporal.{fraction_exceeds_nanoseconds}
use stackable_odbc_trino.Conversion.Nested.{
  TrinoTy, Types, no_types, with_type, NamedTypes, no_fields, with_field, Value, string, items,
  object, Values, no_values, with_value, Members, no_members, with_member, any_value, any_member,
  text_exceeds, in_items, in_object, first_value, discards_fractional_seconds, discards_in_row,
  discards_in_tuple,
}

unfoldable pub text_of : Value → List Text
text_of (string s) = s ∷ []
text_of _ = []

unfoldable pub from_items : (Values → List Text) → Value → List Text
from_items f (items vs) = f vs
from_items f _ = []

unfoldable pub from_object : (Members → List Text) → Value → List Text
from_object f (object ms) = f ms
from_object f _ = []

unfoldable pub all_values : (Value → List Text) → Values → List Text
all_values f no_values = []
all_values f (with_value v vs) = f v ++ all_values f vs

unfoldable pub all_members : (Text → Value → List Text) → Members → List Text
all_members f no_members = []
all_members f (with_member k v ms) = f k v ++ all_members f ms

unfoldable pub first_texts : (Value → List Text) → (Values → List Text) → Values → List Text
first_texts f rest no_values = []
first_texts f rest (with_value v vs) = f v ++ rest vs

-- The texts in a value that stand where its type has a time or a timestamp.
unfoldable mutual
  pub temporal_texts : TrinoTy → Value → List Text
  temporal_texts TrinoTy.time v = text_of v
  temporal_texts TrinoTy.time_with_time_zone v = text_of v
  temporal_texts TrinoTy.timestamp v = text_of v
  temporal_texts TrinoTy.timestamp_with_time_zone v = text_of v
  temporal_texts (TrinoTy.option inner) v = temporal_texts inner v
  temporal_texts (TrinoTy.array inner) v = from_items (all_values (temporal_texts inner)) v
  temporal_texts (TrinoTy.map_of key_ty val_ty) v =
      from_object (all_members (λ k w. temporal_texts key_ty (string k) ++ temporal_texts val_ty w))
        v
  temporal_texts (TrinoTy.row fields) v = from_items (row_texts fields) v
  temporal_texts (TrinoTy.tuple types) v = from_items (tuple_texts types) v
  temporal_texts (TrinoTy.plain_type plain) v = []

  pub row_texts : NamedTypes → Values → List Text
  row_texts no_fields vs = []
  row_texts (with_field name ty fields) vs = first_texts (temporal_texts ty) (row_texts fields) vs

  pub tuple_texts : Types → Values → List Text
  tuple_texts no_types vs = []
  tuple_texts (with_type ty types) vs = first_texts (temporal_texts ty) (tuple_texts types) vs

-- Some text has a digit that nanoseconds cannot hold.
unfoldable pub any_exceeds : List Text → Bool
any_exceeds [] = false
any_exceeds (t ∷ ts) = fraction_exceeds_nanoseconds t || any_exceeds ts

or_assoc : (a b c : Bool) → ((a || b) || c) ≡ (a || (b || c))
or_assoc true b c = refl
or_assoc false b c = refl

or_false : (a : Bool) → (a || false) ≡ a
or_false true = refl
or_false false = refl

any_exceeds-append : (s t : List Text) → any_exceeds (s ++ t) ≡ (any_exceeds s || any_exceeds t)
unfolding any_exceeds
any_exceeds-append [] t = refl
any_exceeds-append (x ∷ s) t =
    ap (λ b. fraction_exceeds_nanoseconds x || b) (any_exceeds-append s t)
    ∙ sym (or_assoc (fraction_exceeds_nanoseconds x) (any_exceeds s) (any_exceeds t))

text_exceeds-text_of : (v : Value) → text_exceeds v ≡ any_exceeds (text_of v)
unfolding text_exceeds text_of any_exceeds
text_exceeds-text_of (string s) = sym (or_false (fraction_exceeds_nanoseconds s))
text_exceeds-text_of _ = refl

both :
    (a b : Bool) (s t : List Text)
    → a ≡ any_exceeds s
    → b ≡ any_exceeds t
    → (a || b) ≡ any_exceeds (s ++ t)
both a b s t ha hb = rw (ha, hb) (sym (any_exceeds-append s t))

module _ (test : Value → Bool) (texts : Value → List Text)
    (same : (v : Value) → test v ≡ any_exceeds (texts v)) where
  any_value-all_values : (vs : Values) → any_value test vs ≡ any_exceeds (all_values texts vs)
  unfolding any_value all_values any_exceeds
  any_value-all_values no_values = refl
  any_value-all_values (with_value v vs) =
      both _ _ (texts v) (all_values texts vs) (same v) (any_value-all_values vs)

  first_value-first_texts :
      (rest : Values → Bool) (later : Values → List Text) (vs : Values)
      → ((ws : Values) → rest ws ≡ any_exceeds (later ws))
      → first_value test rest vs ≡ any_exceeds (first_texts texts later vs)
  unfolding first_value first_texts any_exceeds
  first_value-first_texts rest later no_values h = refl
  first_value-first_texts rest later (with_value v vs) h =
      both _ _ (texts v) (later vs) (same v) (h vs)

any_member-all_members :
    (test : Text → Value → Bool) (texts : Text → Value → List Text) (ms : Members)
    → ((k : Text) (v : Value) → test k v ≡ any_exceeds (texts k v))
    → any_member test ms ≡ any_exceeds (all_members texts ms)
unfolding any_member all_members any_exceeds
any_member-all_members test texts no_members same = refl
any_member-all_members test texts (with_member k v ms) same =
    both _ _ (texts k v) (all_members texts ms) (same k v)
      (any_member-all_members test texts ms same)

in_items-from_items :
    (test : Values → Bool) (texts : Values → List Text) (v : Value)
    → ((vs : Values) → test vs ≡ any_exceeds (texts vs))
    → in_items test v ≡ any_exceeds (from_items texts v)
unfolding in_items from_items any_exceeds
in_items-from_items test texts (items vs) same = same vs
in_items-from_items test texts _ same = refl

in_object-from_object :
    (test : Members → Bool) (texts : Members → List Text) (v : Value)
    → ((ms : Members) → test ms ≡ any_exceeds (texts ms))
    → in_object test v ≡ any_exceeds (from_object texts v)
unfolding in_object from_object any_exceeds
in_object-from_object test texts (object ms) same = same ms
in_object-from_object test texts _ same = refl

mutual
  unfolding discards_fractional_seconds temporal_texts any_exceeds

  loses :
      (ty : TrinoTy) (v : Value)
      → discards_fractional_seconds ty v ≡ any_exceeds (temporal_texts ty v)
  loses TrinoTy.time v = text_exceeds-text_of v
  loses TrinoTy.time_with_time_zone v = text_exceeds-text_of v
  loses TrinoTy.timestamp v = text_exceeds-text_of v
  loses TrinoTy.timestamp_with_time_zone v = text_exceeds-text_of v
  loses (TrinoTy.option inner) v = loses inner v
  loses (TrinoTy.array inner) v =
      in_items-from_items (any_value (discards_fractional_seconds inner))
        (all_values (temporal_texts inner)) v
        (any_value-all_values (discards_fractional_seconds inner) (temporal_texts inner)
          (loses inner))
  loses (TrinoTy.map_of key_ty val_ty) v = in_object-from_object _ _ v (λ ms.
      any_member-all_members _ _ ms (λ k w.
        both _ _ (temporal_texts key_ty (string k)) (temporal_texts val_ty w)
          (loses key_ty (string k)) (loses val_ty w)))
  loses (TrinoTy.row fields) v =
      in_items-from_items (discards_in_row fields) (row_texts fields) v (loses_row fields)
  loses (TrinoTy.tuple types) v =
      in_items-from_items (discards_in_tuple types) (tuple_texts types) v (loses_tuple types)
  loses (TrinoTy.plain_type plain) v = refl

  loses_row :
      (fields : NamedTypes) (vs : Values)
      → discards_in_row fields vs ≡ any_exceeds (row_texts fields vs)
  loses_row no_fields vs = refl
  loses_row (with_field name ty fields) vs =
      first_value-first_texts (discards_fractional_seconds ty) (temporal_texts ty) (loses ty)
        (discards_in_row fields) (row_texts fields) vs (loses_row fields)

  loses_tuple :
      (types : Types) (vs : Values)
      → discards_in_tuple types vs ≡ any_exceeds (tuple_texts types vs)
  loses_tuple no_types vs = refl
  loses_tuple (with_type ty types) vs =
      first_value-first_texts (discards_fractional_seconds ty) (temporal_texts ty) (loses ty)
        (discards_in_tuple types) (tuple_texts types) vs (loses_tuple types)
