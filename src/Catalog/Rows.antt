-- ===== src/Catalog/Rows.antt =====
-- The rows of the catalog functions: what backend/metadata.rs reads from a row of the information
-- schema, and the type names of backend/info.rs that it reports.
use stackable_odbc_trino.Base.{
  ℕ, ◌-◌, ℤ, Bool, true, false, ◌&&◌, ◌||◌, List, [], ◌∷◌, Option, none, some, ◌==◌, leb,
  if◌then◌else◌, get_elem?,
}
use stackable_odbc_trino.Base.Fallible.{◌>>=◌, get_or}
use stackable_odbc_trino.Base.Text.{Text, codes, eq_text}
use stackable_odbc_trino.Base.Text.Case.{eq_ignore_ascii_case}
use stackable_odbc_trino.Conversion.Offsets.{checked, times}
use stackable_odbc_trino.Conversion.TypeName.{
  SqlDataType, TrinoTypeName, name, parse, trino_type_name_to_sql_type,
}
use stackable_odbc_trino.Conversion.TypeParams.{in_i16, type_name_precision, type_name_scale}
use stackable_odbc_trino.Catalog.Queries.{Row, as_str, as_i64}

-- The value in a column, as a text, and as a number of 32 bits.
unfoldable pub get_str : Row → ℕ → Option Text
unfolding as_str
get_str vals i = get_elem? vals i >>= as_str

unfoldable pub get_i32 : Row → ℕ → Option ℤ
unfolding as_i64 checked
get_i32 vals i = get_elem? vals i >>= λ v. (as_i64 v >>= checked)

-- `to_uppercase`, as far as it can give one of the types below: of the letters outside ASCII, the
-- dotless i becomes an I and the long s an S, and no other becomes letters that the types have.
unfoldable pub to_uppercase : Text → Text
to_uppercase [] = []
to_uppercase (c ∷ s) =
    (if leb b'a' c && leb c b'z'
      then c - 32
      else if c == 305
      then b'I'
      else if c == 383
      then b'S'
      else c)
    ∷ to_uppercase s

abbrev pub table_type_table : Text
table_type_table = codes "TABLE"

abbrev pub table_type_view : Text
table_type_view = codes "VIEW"

abbrev pub table_types : List Text
table_types = table_type_table ∷ table_type_view ∷ []

-- ODBC's name for a type of Trino's, in upper case.
unfoldable pub odbc_table_type : Text → Option Text
unfolding eq_text
odbc_table_type raw =
    if eq_text raw (codes "BASE TABLE")
    then some table_type_table
    else if eq_text raw (codes "VIEW")
    then some table_type_view
    else none

-- `allowed.iter().any(|a| a == t)`
unfoldable pub any_text : Text → List Text → Bool
any_text t [] = false
any_text t (s ∷ ts) = eq_text s t || any_text t ts

-- `allowed.is_empty() || allowed.iter().any(|a| a == t)`
unfoldable pub is_allowed : List Text → Text → Bool
unfolding any_text
is_allowed [] t = true
is_allowed (s ∷ ts) t = any_text t (s ∷ ts)

pub record TableRow : Type 0 where
  pub catalog : Option Text
  pub schema : Option Text
  pub table_name : Text
  pub table_type : Text

unfoldable pub table_row : List Text → Row → Option TableRow
unfolding as_str to_uppercase odbc_table_type is_allowed
table_row allowed (cat ∷ sch ∷ n ∷ ty ∷ more) = as_str n >>= λ table_name.
    (as_str ty >>= λ raw.
    (odbc_table_type (to_uppercase raw) >>= λ table_type.
    (if is_allowed allowed table_type
      then some (record {
        catalog = as_str cat;
        schema = as_str sch;
        table_name = table_name;
        table_type = table_type;
      })
      else none)))
table_row allowed _ = none

-- `trino_bare_type_name`
unfoldable pub trino_bare_type_name : Text → SqlDataType → Text
unfolding parse name
trino_bare_type_name native sql_type = elim (parse native) [
  | some ty ↦ name ty
  | none ↦ elim sql_type [ SqlDataType.ext_w_varchar ↦ name TrinoTypeName.varchar | _ ↦ [] ]
]

-- The verbose type of a column, and the code that goes with `SQL_DATETIME`.
pub data VerboseType : Type 0 where
  concise : SqlDataType → VerboseType
  datetime : VerboseType

pub data DatetimeCode : Type 0 where
  code_date code_time code_timestamp : DatetimeCode

unfoldable pub verbose_type : SqlDataType → VerboseType × Option DatetimeCode
verbose_type SqlDataType.date = (datetime, some code_date)
verbose_type SqlDataType.time = (datetime, some code_time)
verbose_type SqlDataType.timestamp = (datetime, some code_timestamp)
verbose_type other = (concise other, none)

unfoldable pub is_character : SqlDataType → Bool
is_character SqlDataType.ext_w_varchar = true
is_character SqlDataType.ext_w_char = true
is_character SqlDataType.varchar = true
is_character SqlDataType.char = true
is_character _ = false

unfoldable pub char_octet_length : SqlDataType → Option ℤ → Option ℤ
unfolding is_character checked times
char_octet_length sql_type precision =
    if is_character sql_type then (precision >>= λ n. checked (times 4 n)) else none

-- Core's `Nullable`, which also gives the text of IS_NULLABLE.
pub data Nullable : Type 0 where
  no_nulls nullable unknown : Nullable

unfoldable pub nullable_of : Text → Nullable
unfolding eq_ignore_ascii_case
nullable_of s =
    if eq_ignore_ascii_case s (codes "YES")
    then nullable
    else if eq_ignore_ascii_case s (codes "NO")
    then no_nulls
    else unknown

unfoldable pub is_numeric : SqlDataType → Bool
is_numeric SqlDataType.ext_tiny_int = true
is_numeric SqlDataType.smallint = true
is_numeric SqlDataType.integer = true
is_numeric SqlDataType.ext_big_int = true
is_numeric SqlDataType.real = true
is_numeric SqlDataType.double = true
is_numeric SqlDataType.decimal = true
is_numeric _ = false

unfoldable pub has_decimal_digits : SqlDataType → Bool
has_decimal_digits SqlDataType.decimal = true
has_decimal_digits SqlDataType.time = true
has_decimal_digits SqlDataType.timestamp = true
has_decimal_digits _ = false

pub record ColumnRow : Type 0 where
  pub catalog : Option Text
  pub schema : Option Text
  pub table_name : Text
  pub column_name : Text
  pub data_type : SqlDataType
  pub type_name : Text
  pub size : Option ℤ
  pub decimal_digits : Option ℤ
  pub num_prec_radix : Option ℕ
  pub nullability : Nullable
  pub column_def : Option Text
  pub sql_data_type : VerboseType
  pub sql_datetime_sub : Option DatetimeCode
  pub octets : Option ℤ
  pub ordinal_position : ℤ

-- Core's `column_size` is a parameter.
module _ (column_size : SqlDataType → ℤ → ℤ → ℤ) where
  -- The row of a column, from the parts that it cannot do without.
  unfoldable pub described_column : Row → Text → Text → ℤ → ColumnRow
  unfolding trino_type_name_to_sql_type
  described_column vals table column ordinal =
      let raw = get_or (get_str vals 7) [] in
      let sql_type = trino_type_name_to_sql_type raw in
      let precision = type_name_precision column_size raw in
      record {
        catalog = get_str vals 0;
        schema = get_str vals 1;
        table_name = table;
        column_name = column;
        data_type = sql_type;
        type_name = trino_bare_type_name raw sql_type;
        size = precision;
        decimal_digits =
            if has_decimal_digits sql_type then (type_name_scale raw >>= in_i16) else none;
        num_prec_radix = if is_numeric sql_type then some 10 else none;
        nullability = nullable_of (get_or (get_str vals 6) []);
        column_def = get_str vals 5;
        sql_data_type = (verbose_type sql_type).0;
        sql_datetime_sub = (verbose_type sql_type).1;
        octets = char_octet_length sql_type precision;
        ordinal_position = ordinal;
      }

  unfoldable pub column_row : Row → Option ColumnRow
  unfolding described_column
  column_row vals = get_str vals 2 >>= λ table.
      (get_str vals 3 >>= λ column.
      (get_i32 vals 4 >>= λ ordinal. some (described_column vals table column ordinal)))

pub record TablePrivilegeRow : Type 0 where
  pub catalog : Option Text
  pub schema : Option Text
  pub table_name : Text
  pub grantor : Option Text
  pub grantee : Text
  pub privilege : Text
  pub is_grantable : Option Text

unfoldable pub table_privilege_row : Row → Option TablePrivilegeRow
unfolding get_str
table_privilege_row vals = get_str vals 2 >>= λ table_name.
    (get_str vals 4 >>= λ grantee.
    (get_str vals 5 >>= λ privilege. some (record {
      catalog = get_str vals 0;
      schema = get_str vals 1;
      table_name = table_name;
      grantor = get_str vals 3;
      grantee = grantee;
      privilege = privilege;
      is_grantable = get_str vals 6;
    })))
