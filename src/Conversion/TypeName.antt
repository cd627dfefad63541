-- ===== src/Conversion/TypeName.antt =====
-- `TrinoTypeName` and the type-name strings of `information_schema`: which type a string names, and
-- what its parenthesised arguments say.
unfoldable pub use stackable_odbc_trino.Base.Text.Space.{trim}
unfoldable pub use stackable_odbc_trino.Base.Text.Case.{lower}
use stackable_odbc_trino.Base.{List, [], ◌∷◌, ◌++◌, Option, none, some, if◌then◌else◌}
use stackable_odbc_trino.Base.Fallible.{◌>>=◌, get_or}
use stackable_odbc_trino.Base.Text.{Text, codes, eq_text, is_empty, split_once}
use stackable_odbc_trino.Base.Text.Space.{trim_end}

-- The constants of `SqlDataType` that the driver uses; `datetime` stands apart, in the verbose types.
pub data SqlDataType : Type 0 where
  ext_bit ext_tiny_int smallint integer ext_big_int real double decimal : SqlDataType
  ext_w_varchar ext_w_char ext_long_var_binary date time timestamp varchar char : SqlDataType

pub data TrinoTypeName : Type 0 where
  boolean tiny_int small_int integer big_int real double decimal varchar char : TrinoTypeName
  varbinary date time time_with_time_zone timestamp timestamp_with_time_zone : TrinoTypeName
  json uuid interval_day_to_second interval_year_to_month : TrinoTypeName

unfoldable pub name : TrinoTypeName → Text
name TrinoTypeName.boolean = codes "BOOLEAN"
name TrinoTypeName.tiny_int = codes "TINYINT"
name TrinoTypeName.small_int = codes "SMALLINT"
name TrinoTypeName.integer = codes "INTEGER"
name TrinoTypeName.big_int = codes "BIGINT"
name TrinoTypeName.real = codes "REAL"
name TrinoTypeName.double = codes "DOUBLE"
name TrinoTypeName.decimal = codes "DECIMAL"
name TrinoTypeName.varchar = codes "VARCHAR"
name TrinoTypeName.char = codes "CHAR"
name TrinoTypeName.varbinary = codes "VARBINARY"
name TrinoTypeName.date = codes "DATE"
name TrinoTypeName.time = codes "TIME"
name TrinoTypeName.time_with_time_zone = codes "TIME WITH TIME ZONE"
name TrinoTypeName.timestamp = codes "TIMESTAMP"
name TrinoTypeName.timestamp_with_time_zone = codes "TIMESTAMP WITH TIME ZONE"
name TrinoTypeName.json = codes "JSON"
name TrinoTypeName.uuid = codes "UUID"
name TrinoTypeName.interval_day_to_second = codes "INTERVAL DAY TO SECOND"
name TrinoTypeName.interval_year_to_month = codes "INTERVAL YEAR TO MONTH"

-- The text around the first parenthesised argument, put together.
unfoldable pub around : Text → Text → Text
unfolding trim_end trim
around before after =
    if is_empty (trim after) then trim_end before else trim_end before ++ b' ' ∷ trim after

unfoldable pub close_argument : Text → Text → Option (Text × Text) → Text
unfolding around
close_argument lowered before none = lowered
close_argument lowered before (some (argument, after)) = around before after

unfoldable pub open_argument : Text → Option (Text × Text) → Text
unfolding close_argument
open_argument lowered none = lowered
open_argument lowered (some (before, rest)) = close_argument lowered before (split_once b')' rest)

unfoldable pub strip_precision_param : Text → Text
unfolding lower trim open_argument
strip_precision_param s =
    let lowered = lower (trim s) in open_argument lowered (split_once b'(' lowered)

-- The spellings that `parse` knows, in its order.
abbrev pub spellings : List (Text × TrinoTypeName)
spellings =
    (codes "boolean", TrinoTypeName.boolean)
    ∷ (codes "tinyint", TrinoTypeName.tiny_int)
    ∷ (codes "smallint", TrinoTypeName.small_int)
    ∷ (codes "integer", TrinoTypeName.integer)
    ∷ (codes "int", TrinoTypeName.integer)
    ∷ (codes "bigint", TrinoTypeName.big_int)
    ∷ (codes "real", TrinoTypeName.real)
    ∷ (codes "double", TrinoTypeName.double)
    ∷ (codes "double precision", TrinoTypeName.double)
    ∷ (codes "decimal", TrinoTypeName.decimal)
    ∷ (codes "numeric", TrinoTypeName.decimal)
    ∷ (codes "varchar", TrinoTypeName.varchar)
    ∷ (codes "character varying", TrinoTypeName.varchar)
    ∷ (codes "string", TrinoTypeName.varchar)
    ∷ (codes "char", TrinoTypeName.char)
    ∷ (codes "varbinary", TrinoTypeName.varbinary)
    ∷ (codes "date", TrinoTypeName.date)
    ∷ (codes "time", TrinoTypeName.time)
    ∷ (codes "time with time zone", TrinoTypeName.time_with_time_zone)
    ∷ (codes "timestamp", TrinoTypeName.timestamp)
    ∷ (codes "timestamp with time zone", TrinoTypeName.timestamp_with_time_zone)
    ∷ (codes "json", TrinoTypeName.json)
    ∷ (codes "uuid", TrinoTypeName.uuid)
    ∷ (codes "interval day to second", TrinoTypeName.interval_day_to_second)
    ∷ (codes "interval year to month", TrinoTypeName.interval_year_to_month)
    ∷ []

unfoldable pub spelled : Text → List (Text × TrinoTypeName) → Option TrinoTypeName
unfolding eq_text
spelled base [] = none
spelled base ((s, ty) ∷ rest) = if eq_text base s then some ty else spelled base rest

unfoldable pub parse : Text → Option TrinoTypeName
unfolding spelled strip_precision_param
parse s = spelled (strip_precision_param s) spellings

unfoldable pub sql_type : TrinoTypeName → SqlDataType
sql_type TrinoTypeName.boolean = SqlDataType.ext_bit
sql_type TrinoTypeName.tiny_int = SqlDataType.ext_tiny_int
sql_type TrinoTypeName.small_int = SqlDataType.smallint
sql_type TrinoTypeName.integer = SqlDataType.integer
sql_type TrinoTypeName.big_int = SqlDataType.ext_big_int
sql_type TrinoTypeName.real = SqlDataType.real
sql_type TrinoTypeName.double = SqlDataType.double
sql_type TrinoTypeName.decimal = SqlDataType.decimal
sql_type TrinoTypeName.varchar = SqlDataType.ext_w_varchar
sql_type TrinoTypeName.char = SqlDataType.ext_w_char
sql_type TrinoTypeName.varbinary = SqlDataType.ext_long_var_binary
sql_type TrinoTypeName.date = SqlDataType.date
sql_type TrinoTypeName.time = SqlDataType.time
sql_type TrinoTypeName.time_with_time_zone = SqlDataType.time
sql_type TrinoTypeName.timestamp = SqlDataType.timestamp
sql_type TrinoTypeName.timestamp_with_time_zone = SqlDataType.timestamp
sql_type _ = SqlDataType.ext_w_varchar

unfoldable pub trino_type_name_to_sql_type : Text → SqlDataType
unfolding parse sql_type
trino_type_name_to_sql_type s =
    get_or (parse s >>= λ ty. some (sql_type ty)) SqlDataType.ext_w_varchar
