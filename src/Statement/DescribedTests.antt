-- ===== src/Statement/DescribedTests.antt =====
-- A column of DECIMAL(10, 2), described and read.
use stackable_odbc_trino.Base.{ℤ, ◌≡◌, refl, some}
use stackable_odbc_trino.Base.Text.{Text, codes, split_once, is_empty}
use stackable_odbc_trino.Base.Text.Space.{is_whitespace}
use stackable_odbc_trino.Conversion.Nested.{TrinoTy, PlainType, string}
use stackable_odbc_trino.Conversion.TypeName.{
  SqlDataType, TrinoTypeName, parse, spelled, strip_precision_param, open_argument, close_argument,
  around, trim, lower,
}
use stackable_odbc_trino.Conversion.Values.{json_to_column_value}
use stackable_odbc_trino.Conversion.Agreement.{Names, decimal, Fits}
use stackable_odbc_trino.Conversion.ValueTests.{clock, readers, east}
use stackable_odbc_trino.Statement.Described.{column_descriptor, column_descriptor-Fits}

abbrev declared : Text
declared = codes "decimal(10,2)"

abbrev amount_type : TrinoTy
amount_type = TrinoTy.plain_type (PlainType.decimal 10 2)

abbrev core_size : SqlDataType → ℤ → ℤ → ℤ
core_size ty p s = p

declared-parse : parse declared ≡ some TrinoTypeName.decimal
unfolding parse spelled strip_precision_param open_argument close_argument around trim lower
    split_once is_whitespace is_empty
declared-parse = refl

declared-Names : (n : TrinoTypeName) → parse declared ≡ some n → Names n amount_type
declared-Names n h =
    let e : TrinoTypeName.decimal ≡ n = cc declared-parse in rw (← e) (decimal 10 2)

column_descriptor-Fits_example :
    Fits
      (column_descriptor core_size 0 (codes "amount") declared amount_type).reported_type
      (json_to_column_value clock readers east amount_type (string (codes "12.50")))
column_descriptor-Fits_example =
    column_descriptor-Fits clock readers east core_size 0 (codes "amount") declared amount_type
      (string (codes "12.50")) declared-Names
