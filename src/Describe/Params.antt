-- ===== src/Describe/Params.antt =====
-- The descriptors of a statement's parameters, from the rows of `DESCRIBE INPUT`
-- (backend/describe_param.rs).
use stackable_odbc_trino.Base.{
  ℕ, ℤ, pos, negsuc, List, [], ◌∷◌, Option, none, some, leb, if◌then◌else◌, map,
}
use stackable_odbc_trino.Base.Fallible.{◌>>=◌, get_or}
use stackable_odbc_trino.Base.Text.{Text}
use stackable_odbc_trino.Conversion.TypeName.{SqlDataType, trino_type_name_to_sql_type}
use stackable_odbc_trino.Conversion.TypeParams.{in_i16, type_name_precision, type_name_scale}
use stackable_odbc_trino.Catalog.Queries.{Row, as_str, as_i64, filter_map}

-- Core's `ParamDescriptor`.
pub record ParamDescriptor : Type 0 where
  pub data_type : SqlDataType
  pub parameter_size : ℕ
  pub decimal_digits : ℤ

-- `u64::try_from` and `usize::try_from`, of a number that is at most 63 bits wide.
unfoldable pub to_unsigned : ℤ → Option ℕ
to_unsigned (pos n) = some n
to_unsigned (negsuc n) = none

-- Core's `column_size` is a parameter.
module _ (column_size : SqlDataType → ℤ → ℤ → ℤ) where
  unfoldable pub param_descriptor : Text → ParamDescriptor
  unfolding to_unsigned
  param_descriptor type_name = record {
    data_type = trino_type_name_to_sql_type type_name;
    parameter_size = get_or (type_name_precision column_size type_name >>= to_unsigned) 0;
    decimal_digits = get_or (type_name_scale type_name >>= in_i16) (pos 0);
  }

  -- A row's position with the descriptor of its type.
  unfoldable pub positioned : Row → Option (ℕ × ParamDescriptor)
  unfolding as_i64 as_str to_unsigned
  positioned (p ∷ t ∷ more) = as_i64 p >>= λ n.
      (to_unsigned n >>= λ position.
      (as_str t >>= λ type_name. some (position, param_descriptor type_name)))
  positioned _ = none

-- `sort_by_key(|(position, _)| *position)`, which is stable.
unfoldable pub place : {A : Type 0} → ℕ × A → List (ℕ × A) → List (ℕ × A)
place (k, a) [] = (k, a) ∷ []
place (k, a) ((l, b) ∷ xs) = if leb k l then (k, a) ∷ (l, b) ∷ xs else (l, b) ∷ place (k, a) xs

unfoldable pub sort_by_key : {A : Type 0} → List (ℕ × A) → List (ℕ × A)
unfolding place
sort_by_key [] = []
sort_by_key (x ∷ xs) = place x (sort_by_key xs)

abbrev pub second : {A : Type 0} → ℕ × A → A
second (k, a) = a

unfoldable pub describe_input_rows_to_params :
    (SqlDataType → ℤ → ℤ → ℤ) → List Row → List ParamDescriptor
unfolding filter_map positioned sort_by_key
describe_input_rows_to_params column_size rows =
    map second (sort_by_key (filter_map (positioned column_size) rows))
