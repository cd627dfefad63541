-- ===== src/Conversion/TypedValues.antt =====
-- `json_to_column_value` builds values of the column's type.
use stackable_odbc_trino.Conversion.Temporal.{parse_trino_time, parse_trino_timestamp}
use stackable_odbc_trino.Conversion.Offsets.{parse_trino_time_with_tz}
use stackable_odbc_trino.Conversion.Nested.{
  TrinoTy, Types, no_types, with_type, NamedTypes, no_fields, with_field, Value, string, Values,
  no_values, with_value,
}
use stackable_odbc_trino.Conversion.Zones.{
  Chrono, SessionZone, offset_minutes_at, parse_trino_timestamp_tz,
}
use stackable_odbc_trino.Conversion.Values.{
  Readers, zip_first, json_to_column_value, row_values, tuple_values,
}
use stackable_odbc_trino.Conversion.Typed.{
  fields_end, types_end, IsOf, RowOf, TupleOf, row_ends, and_field, tuple_ends, and_type,
}
use stackable_odbc_trino.Conversion.Typing.{
  parse_trino_time-IsOf, parse_trino_timestamp-IsOf, parse_trino_time_with_tz-IsOf,
  parse_trino_timestamp_tz-IsOf, unless_null-IsOf, map_values-AllOf, map_members-PairsOf,
}
use stackable_odbc_trino.Conversion.PlainTyping.{
  parsed-IsOf, of_items-IsOf, of_object-IsOf, plain_value-IsOf,
}

module _ (x : Chrono) (r : Readers x) (session : SessionZone x) where
  mutual
    unfolding json_to_column_value zip_first

    delivered-IsOf :
        (ty : TrinoTy) (v : Value) → IsOf x r ty v (json_to_column_value x r session ty v)
    delivered-IsOf TrinoTy.time v =
        unless_null-IsOf x r _ v _
          (parsed-IsOf x r _ parse_trino_time v (parse_trino_time-IsOf x r v))
    delivered-IsOf TrinoTy.time_with_time_zone v =
        let offset = offset_minutes_at x session r.utc_now in
        unless_null-IsOf x r _ v _ (
          parsed-IsOf x r _ (λ s. parse_trino_time_with_tz s offset) v
            (parse_trino_time_with_tz-IsOf x r offset v))
    delivered-IsOf TrinoTy.timestamp v =
        unless_null-IsOf x r _ v _
          (parsed-IsOf x r _ parse_trino_timestamp v (parse_trino_timestamp-IsOf x r v))
    delivered-IsOf TrinoTy.timestamp_with_time_zone v = unless_null-IsOf x r _ v _ (
        parsed-IsOf x r _ (λ s. parse_trino_timestamp_tz x s session) v
          (parse_trino_timestamp_tz-IsOf x r session v))
    delivered-IsOf (TrinoTy.option inner) v =
        unless_null-IsOf x r _ v _ (IsOf.option inner v _ (delivered-IsOf inner v))
    delivered-IsOf (TrinoTy.array inner) v = unless_null-IsOf x r _ v _ (
        of_items-IsOf x r _ _ v
          (λ vs. IsOf.array inner vs _ (map_values-AllOf x r inner _ vs (delivered-IsOf inner))))
    delivered-IsOf (TrinoTy.map_of key_ty val_ty) v = unless_null-IsOf x r _ v _ (
        of_object-IsOf x r _ _ v (λ ms. IsOf.map_of key_ty val_ty ms _ (
          map_members-PairsOf x r key_ty val_ty _ _ ms (λ k. delivered-IsOf key_ty (string k))
            (delivered-IsOf val_ty))))
    delivered-IsOf (TrinoTy.row fields) v =
        unless_null-IsOf x r _ v _
          (of_items-IsOf x r _ _ v (λ vs. IsOf.row fields vs _ (row_values-RowOf fields vs)))
    delivered-IsOf (TrinoTy.tuple fields) v =
        unless_null-IsOf x r _ v _
          (of_items-IsOf x r _ _ v (λ vs. IsOf.tuple fields vs _ (tuple_values-TupleOf fields vs)))
    delivered-IsOf (TrinoTy.plain_type plain) v =
        unless_null-IsOf x r _ v _ (plain_value-IsOf x r plain v)

    row_values-RowOf :
        (fields : NamedTypes) (vs : Values) → RowOf x r fields vs (row_values x r session fields vs)
    row_values-RowOf no_fields vs = fields_end vs
    row_values-RowOf (with_field name ty more) no_values = row_ends _
    row_values-RowOf (with_field name ty more) (with_value v vs) =
        and_field name ty more v vs _ _ (delivered-IsOf ty v) (row_values-RowOf more vs)

    tuple_values-TupleOf :
        (types : Types) (vs : Values) → TupleOf x r types vs (tuple_values x r session types vs)
    tuple_values-TupleOf no_types vs = types_end vs
    tuple_values-TupleOf (with_type ty types) no_values = tuple_ends _
    tuple_values-TupleOf (with_type ty types) (with_value v vs) =
        and_type ty types v vs _ _ (delivered-IsOf ty v) (tuple_values-TupleOf types vs)

  -- A JSON value is delivered as a null only if it is one, and otherwise as the variant for the
  -- column's type or as its text. An integer is within the type's width, an array has its elements
  -- in their order, a map its keys and values, and a row its fields up to the end of the values.
  pub json_to_column_value-IsOf :
      (ty : TrinoTy) (v : Value) → IsOf x r ty v (json_to_column_value x r session ty v)
  json_to_column_value-IsOf = delivered-IsOf
