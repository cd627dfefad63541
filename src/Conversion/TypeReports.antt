-- ===== src/Conversion/TypeReports.antt =====
-- What the coordinator's type-name strings are reported as: type, precision and scale.
use stackable_odbc_trino.Base.{
  ℕ, ◌≤◌, ◌≡◌, refl, ap, ℤ, pos, Bool, true, false, [], ◌∷◌, ◌++◌, none, some, arith,
}
use stackable_odbc_trino.Base.Text.{Text, codes, show, eq_text, is_empty, split_once}
use stackable_odbc_trino.Base.Text.Space.{is_whitespace, trim_start, trim_end}
use stackable_odbc_trino.Conversion.TypeName.{
  TrinoTypeName, SqlDataType, name, lower, trim, around, strip_precision_param, spellings, spelled,
  parse, sql_type, trino_type_name_to_sql_type,
}
use stackable_odbc_trino.Conversion.TypeParams.{
  parse_precision_param, in_i16, temporal_scale_param, has_scale_param, has_precision_param,
  has_temporal_scale_param, type_name_scale, type_name_precision,
}
use stackable_odbc_trino.Conversion.TypeText.{parse_precision_param_lem, strip_precision_param_lem}

-- The name under which the driver displays a type is read as that type, and reported under its ODBC
-- type, for all twenty types.
pub parse-name :
    (ty : TrinoTypeName)
    → (parse (name ty) ≡ some ty) × (trino_type_name_to_sql_type (name ty) ≡ sql_type ty)
unfolding parse spelled strip_precision_param name trino_type_name_to_sql_type eq_text lower trim
    trim_start trim_end is_whitespace split_once
parse-name TrinoTypeName.boolean = (refl, refl)
parse-name _ = (refl, refl)

-- A type name as the coordinator writes it, with one argument behind its first word.
unfoldable pub written : TrinoTypeName → ℕ → Text
written TrinoTypeName.varchar n = codes "varchar" ++ b'(' ∷ (show n ++ b')' ∷ [])
written TrinoTypeName.char n = codes "char" ++ b'(' ∷ (show n ++ b')' ∷ [])
written TrinoTypeName.time n = codes "time" ++ b'(' ∷ (show n ++ b')' ∷ [])
written TrinoTypeName.time_with_time_zone n =
    codes "time" ++ b'(' ∷ (show n ++ b')' ∷ codes " with time zone")
written TrinoTypeName.timestamp n = codes "timestamp" ++ b'(' ∷ (show n ++ b')' ∷ [])
written TrinoTypeName.timestamp_with_time_zone n =
    codes "timestamp" ++ b'(' ∷ (show n ++ b')' ∷ codes " with time zone")
written ty n = name ty

-- The types that the coordinator writes with one argument.
unfoldable pub takes_one : TrinoTypeName → Bool
takes_one TrinoTypeName.varchar = true
takes_one TrinoTypeName.char = true
takes_one ty = has_temporal_scale_param ty

parse-written : (ty : TrinoTypeName) (n : ℕ) → takes_one ty ≡ true → parse (written ty n) ≡ some ty
unfolding parse written takes_one has_temporal_scale_param spelled eq_text around is_empty lower
    trim trim_start trim_end is_whitespace
parse-written TrinoTypeName.varchar n h =
    ap (λ s. spelled s spellings)
      (strip_precision_param_lem b'v' (codes "archar") [] n refl (ground arith) refl)
parse-written TrinoTypeName.char n h =
    ap (λ s. spelled s spellings)
      (strip_precision_param_lem b'c' (codes "har") [] n refl (ground arith) refl)
parse-written TrinoTypeName.time n h =
    ap (λ s. spelled s spellings)
      (strip_precision_param_lem b't' (codes "ime") [] n refl (ground arith) refl)
parse-written TrinoTypeName.time_with_time_zone n h =
    ap (λ s. spelled s spellings)
      (strip_precision_param_lem b't' (codes "ime") (codes " with time zone") n refl (ground arith)
        refl)
parse-written TrinoTypeName.timestamp n h =
    ap (λ s. spelled s spellings)
      (strip_precision_param_lem b't' (codes "imestamp") [] n refl (ground arith) refl)
parse-written TrinoTypeName.timestamp_with_time_zone n h =
    ap (λ s. spelled s spellings)
      (strip_precision_param_lem b't' (codes "imestamp") (codes " with time zone") n refl
        (ground arith) refl)
parse-written _ n h = cc

parse_precision_param-written :
    (ty : TrinoTypeName) (n : ℕ)
    → takes_one ty ≡ true
    → n ≤ 2147483647
    → parse_precision_param (written ty n) ≡ some (pos n)
unfolding written takes_one has_temporal_scale_param
parse_precision_param-written TrinoTypeName.varchar n h b =
    parse_precision_param_lem (codes "varchar") [] n (ground arith) tt b
parse_precision_param-written TrinoTypeName.char n h b =
    parse_precision_param_lem (codes "char") [] n (ground arith) tt b
parse_precision_param-written TrinoTypeName.time n h b =
    parse_precision_param_lem (codes "time") [] n (ground arith) tt b
parse_precision_param-written TrinoTypeName.time_with_time_zone n h b =
    parse_precision_param_lem (codes "time") (codes " with time zone") n (ground arith)
      (ground arith) b
parse_precision_param-written TrinoTypeName.timestamp n h b =
    parse_precision_param_lem (codes "timestamp") [] n (ground arith) tt b
parse_precision_param-written TrinoTypeName.timestamp_with_time_zone n h b =
    parse_precision_param_lem (codes "timestamp") (codes " with time zone") n (ground arith)
      (ground arith) b
parse_precision_param-written _ n h b = cc

temporal_takes_one : (ty : TrinoTypeName) → has_temporal_scale_param ty ≡ true → takes_one ty ≡ true
unfolding takes_one has_temporal_scale_param
temporal_takes_one TrinoTypeName.varchar h = refl
temporal_takes_one TrinoTypeName.char h = refl
temporal_takes_one _ h = h

temporal_flags :
    (ty : TrinoTypeName)
    → has_temporal_scale_param ty ≡ true
    → (has_scale_param ty ≡ false) × (has_precision_param ty ≡ false)
unfolding has_temporal_scale_param has_scale_param has_precision_param
temporal_flags TrinoTypeName.decimal h = cc
temporal_flags TrinoTypeName.varchar h = cc
temporal_flags TrinoTypeName.char h = cc
temporal_flags _ h = (refl, refl)

temporal_scale_param-written :
    (ty : TrinoTypeName) (n : ℕ)
    → has_temporal_scale_param ty ≡ true
    → n ≤ 32767
    → temporal_scale_param (written ty n) ≡ pos n
unfolding temporal_scale_param in_i16
temporal_scale_param-written ty n h b =
    rw (parse_precision_param-written ty n (temporal_takes_one ty h) (omega arith)) (ground arith)

-- The argument of a time or timestamp type, with or without a time zone, is reported as its scale,
-- never as its precision: the precision is core's column size for that scale.
pub type_name_temporal :
    (column_size : SqlDataType → ℤ → ℤ → ℤ) (ty : TrinoTypeName) (n : ℕ)
    → has_temporal_scale_param ty ≡ true
    → n ≤ 32767
    → (type_name_scale (written ty n) ≡ some (pos n))
      × (type_name_precision column_size (written ty n)
          ≡ some (column_size (sql_type ty) (pos 0) (pos n)))
unfolding type_name_scale type_name_precision
type_name_temporal column_size ty n h b =
    let parsed = parse-written ty n (temporal_takes_one ty h) in
    let (no_scale, no_precision) = temporal_flags ty h in
    let scale = temporal_scale_param-written ty n h b in
    rw (parsed, no_scale, no_precision, h, scale) (refl, refl)

-- The argument of `varchar(n)` and `char(n)` is reported as their precision, and they have no scale.
pub type_name_character :
    (column_size : SqlDataType → ℤ → ℤ → ℤ) (n : ℕ)
    → n ≤ 2147483647
    → (type_name_precision column_size (written TrinoTypeName.varchar n) ≡ some (pos n))
      × (type_name_precision column_size (written TrinoTypeName.char n) ≡ some (pos n))
      × (type_name_scale (written TrinoTypeName.varchar n) ≡ none)
      × (type_name_scale (written TrinoTypeName.char n) ≡ none)
unfolding type_name_precision type_name_scale has_precision_param has_scale_param
    has_temporal_scale_param takes_one
type_name_character column_size n b =
    rw
      (
        parse-written TrinoTypeName.varchar n refl,
        parse-written TrinoTypeName.char n refl,
        parse_precision_param-written TrinoTypeName.varchar n refl b,
        parse_precision_param-written TrinoTypeName.char n refl b,
      )
      (refl, refl, refl, refl)
