-- ===== src/Conversion/Typed.antt =====
-- The variants of the values that `json_to_column_value` builds.
use stackable_odbc_trino.Base.{ℕ, ◌<◌, ◌^◌, ℤ, pos, negsuc, Bool}
use stackable_odbc_trino.Base.Text.{Text}
use stackable_odbc_trino.Column
use stackable_odbc_trino.Column.{ColumnValue}
use stackable_odbc_trino.Conversion.Nested.{
  TrinoTy, PlainType, Types, no_types, with_type, NamedTypes, no_fields, with_field, Value, string,
  items, object, scalar, Scalar, Values, no_values, with_value, Members, no_members, with_member,
}
use stackable_odbc_trino.Conversion.Zones.{Chrono}
use stackable_odbc_trino.Conversion.Values.{Readers, json_as_text}

-- An integer of so many bits and a sign.
abbrev pub InWidth : ℕ → ℤ → Type 0
InWidth bits (pos n) = n < 2 ^ bits
InWidth bits (negsuc n) = n < 2 ^ bits

-- The variants for the types that hold no others.
pub data IsPlainOf : PlainType → ColumnValue → Type 0 where
  int64 : (n : ℤ) → InWidth 63 n → IsPlainOf PlainType.int64 (ColumnValue.i64 n)
  int32 : (n : ℤ) → InWidth 31 n → IsPlainOf PlainType.int32 (ColumnValue.i32 n)
  int16 : (n : ℤ) → InWidth 15 n → IsPlainOf PlainType.int16 (ColumnValue.i16 n)
  int8 : (n : ℤ) → InWidth 7 n → IsPlainOf PlainType.int8 (ColumnValue.i8 n)
  float64 : (b : ℕ) → IsPlainOf PlainType.float64 (ColumnValue.f64 b)
  float32 : (b : ℕ) → IsPlainOf PlainType.float32 (ColumnValue.f32 b)
  boolean : (b : Bool) → IsPlainOf PlainType.boolean (ColumnValue.bool b)
  date : (y : ℤ) (m d : ℕ) → IsPlainOf PlainType.date (ColumnValue.date y m d)
  decimal : (p s : ℕ) (t : Text) → IsPlainOf (PlainType.decimal p s) (ColumnValue.decimal t)
  json : (t : Text) → IsPlainOf PlainType.json (ColumnValue.json t)
  var_binary : (b : Text) → IsPlainOf PlainType.var_binary (ColumnValue.bytes b)

-- The text that stands for a value: a JSON text itself, and any value's JSON.
module _ (x : Chrono) (r : Readers x) where
  pub data IsTextOf : Value → Text → Type 0 where
    as_text : (v : Value) → IsTextOf v (json_as_text x r v)
    as_json : (v : Value) → IsTextOf v (r.to_string v)

  -- What a JSON value may be as a value of a type: a null if it is one, and otherwise the variant
  -- for the type, element by element, or its text.
  mutual
    pub data IsOf : TrinoTy → Value → ColumnValue → Type 0 where
      null : (ty : TrinoTy) → IsOf ty (scalar Scalar.null) ColumnValue.null
      text : (ty : TrinoTy) (v : Value) (s : Text) → IsTextOf v s → IsOf ty v (ColumnValue.string s)
      plain :
          (p : PlainType) (v : Value) (cv : ColumnValue)
          → IsPlainOf p cv
          → IsOf (TrinoTy.plain_type p) v cv
      time : (v : Value) (h m s f : ℕ) → IsOf TrinoTy.time v (ColumnValue.time h m s f)
      zoned_time :
          (v : Value) (h m s f : ℕ) → IsOf TrinoTy.time_with_time_zone v (ColumnValue.time h m s f)
      timestamp :
          (v : Value) (y : ℤ) (mo d h m s f : ℕ)
          → IsOf TrinoTy.timestamp v (ColumnValue.timestamp y mo d h m s f)
      zoned_timestamp :
          (v : Value) (y : ℤ) (mo d h m s f : ℕ)
          → IsOf TrinoTy.timestamp_with_time_zone v (ColumnValue.timestamp y mo d h m s f)
      option :
          (ty : TrinoTy) (v : Value) (cv : ColumnValue)
          → IsOf ty v cv
          → IsOf (TrinoTy.option ty) v cv
      array :
          (ty : TrinoTy) (vs : Values) (cvs : Column.Values)
          → AllOf ty vs cvs
          → IsOf (TrinoTy.array ty) (items vs) (ColumnValue.array cvs)
      map_of :
          (k v : TrinoTy) (ms : Members) (ps : Column.Pairs)
          → PairsOf k v ms ps
          → IsOf (TrinoTy.map_of k v) (object ms) (ColumnValue.map_of ps)
      row :
          (fields : NamedTypes) (vs : Values) (cvs : Column.Values)
          → RowOf fields vs cvs
          → IsOf (TrinoTy.row fields) (items vs) (ColumnValue.row cvs)
      tuple :
          (types : Types) (vs : Values) (cvs : Column.Values)
          → TupleOf types vs cvs
          → IsOf (TrinoTy.tuple types) (items vs) (ColumnValue.row cvs)

    pub data AllOf : TrinoTy → Values → Column.Values → Type 0 where
      none_left : (ty : TrinoTy) → AllOf ty no_values Column.nil
      and_all :
          (ty : TrinoTy) (v : Value) (vs : Values) (cv : ColumnValue) (cvs : Column.Values)
          → IsOf ty v cv
          → AllOf ty vs cvs
          → AllOf ty (with_value v vs) (Column.cons cv cvs)

    pub data PairsOf : TrinoTy → TrinoTy → Members → Column.Pairs → Type 0 where
      no_pairs : (k v : TrinoTy) → PairsOf k v no_members Column.end
      and_pairs :
          (k v : TrinoTy) (s : Text) (w : Value) (ms : Members) (a b : ColumnValue)
          (ps : Column.Pairs)
          → IsOf k (string s) a
          → IsOf v w b
          → PairsOf k v ms ps
          → PairsOf k v (with_member s w ms) (Column.pair a b ps)

    -- Field by field, up to the end of the fields or of the values.
    pub data RowOf : NamedTypes → Values → Column.Values → Type 0 where
      fields_end : (vs : Values) → RowOf no_fields vs Column.nil
      row_ends : (fields : NamedTypes) → RowOf fields no_values Column.nil
      and_field :
          (name : Text) (ty : TrinoTy) (fields : NamedTypes) (v : Value) (vs : Values)
          (cv : ColumnValue) (cvs : Column.Values)
          → IsOf ty v cv
          → RowOf fields vs cvs
          → RowOf (with_field name ty fields) (with_value v vs) (Column.cons cv cvs)

    pub data TupleOf : Types → Values → Column.Values → Type 0 where
      types_end : (vs : Values) → TupleOf no_types vs Column.nil
      tuple_ends : (types : Types) → TupleOf types no_values Column.nil
      and_type :
          (ty : TrinoTy) (types : Types) (v : Value) (vs : Values) (cv : ColumnValue)
          (cvs : Column.Values)
          → IsOf ty v cv
          → TupleOf types vs cvs
          → TupleOf (with_type ty types) (with_value v vs) (Column.cons cv cvs)
