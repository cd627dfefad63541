-- ===== src/Escape/Functions.antt =====
-- The names of scalar functions, interval units and conversion targets, and the rewriting of calls.
use stackable_odbc_trino.Base.{
  ℕ, zero, suc, ◌^◌, ℤ, pos, negsuc, Bool, leb, List, [], ◌∷◌, ◌++◌, Option, none, some,
  if◌then◌else◌,
}
use mathlib.Core.Option
use stackable_odbc_trino.Base.Text.{Text, codes, eq_text, is_empty, show}
use stackable_odbc_trino.Base.Text.Space.{trim}
use stackable_odbc_trino.Base.Text.Case.{upper}
use stackable_odbc_trino.Conversion.TypeParams.{parse_i32}
use stackable_odbc_trino.Escape.Args.{split_args}

-- The value of the first arm whose name is the text.
unfoldable pub arm : {A : Type 0} → Text → List (Text × A) → Option A
arm name [] = none
arm name ((n, a) ∷ arms) = if eq_text name n then some a else arm name arms

abbrev remapped : List (Text × Text)
remapped =
    (codes "UCASE", codes "upper")
    ∷ (codes "LCASE", codes "lower")
    ∷ (codes "CHAR", codes "chr")
    ∷ (codes "LOG", codes "ln")
    ∷ (codes "IFNULL", codes "coalesce")
    ∷ (codes "DAYOFMONTH", codes "day_of_month")
    ∷ (codes "DAYOFYEAR", codes "day_of_year")
    ∷ []

unfoldable pub remap_scalar_fn : Text → Option Text
remap_scalar_fn name = arm (upper name) remapped

abbrev units : List (Text × Text)
units =
    (codes "SQL_TSI_SECOND", codes "second")
    ∷ (codes "SQL_TSI_MINUTE", codes "minute")
    ∷ (codes "SQL_TSI_HOUR", codes "hour")
    ∷ (codes "SQL_TSI_DAY", codes "day")
    ∷ (codes "SQL_TSI_WEEK", codes "week")
    ∷ (codes "SQL_TSI_MONTH", codes "month")
    ∷ (codes "SQL_TSI_QUARTER", codes "quarter")
    ∷ (codes "SQL_TSI_YEAR", codes "year")
    ∷ []

unfoldable pub trino_interval_unit : Text → Option Text
trino_interval_unit keyword = arm (upper (trim keyword)) units

abbrev pub targets : List (Text × Text)
targets =
    (codes "SQL_BIGINT", codes "BIGINT")
    ∷ (codes "SQL_INTEGER", codes "INTEGER")
    ∷ (codes "SQL_SMALLINT", codes "SMALLINT")
    ∷ (codes "SQL_TINYINT", codes "TINYINT")
    ∷ (codes "SQL_DOUBLE", codes "DOUBLE")
    ∷ (codes "SQL_FLOAT", codes "DOUBLE")
    ∷ (codes "SQL_REAL", codes "REAL")
    ∷ (codes "SQL_DECIMAL", codes "DECIMAL")
    ∷ (codes "SQL_NUMERIC", codes "DECIMAL")
    ∷ (codes "SQL_BIT", codes "BOOLEAN")
    ∷ (codes "SQL_CHAR", codes "VARCHAR")
    ∷ (codes "SQL_VARCHAR", codes "VARCHAR")
    ∷ (codes "SQL_LONGVARCHAR", codes "VARCHAR")
    ∷ (codes "SQL_WCHAR", codes "VARCHAR")
    ∷ (codes "SQL_WVARCHAR", codes "VARCHAR")
    ∷ (codes "SQL_WLONGVARCHAR", codes "VARCHAR")
    ∷ (codes "SQL_BINARY", codes "VARBINARY")
    ∷ (codes "SQL_VARBINARY", codes "VARBINARY")
    ∷ (codes "SQL_LONGVARBINARY", codes "VARBINARY")
    ∷ (codes "SQL_DATE", codes "DATE")
    ∷ (codes "SQL_TYPE_DATE", codes "DATE")
    ∷ (codes "SQL_TIME", codes "TIME")
    ∷ (codes "SQL_TYPE_TIME", codes "TIME")
    ∷ (codes "SQL_TIMESTAMP", codes "TIMESTAMP")
    ∷ (codes "SQL_TYPE_TIMESTAMP", codes "TIMESTAMP")
    ∷ (codes "SQL_GUID", codes "UUID")
    ∷ []

unfoldable pub trino_convert_target : Text → Option Text
trino_convert_target keyword = arm (upper (trim keyword)) targets

-- `TRUNCATE_LITERAL_SCALE_LIMIT`
abbrev pub truncate_literal_scale_limit : ℕ
truncate_literal_scale_limit = 18

unfoldable pub by_power : Text → Text → Text
by_power value digits =
    codes "(truncate("
    ++ value
    ++ codes " * power(10, "
    ++ digits
    ++ codes ")) / power(10, "
    ++ digits
    ++ codes "))"

-- By how much the digits scale: by a literal, if they are one that is small enough.
unfoldable pub scaled : Text → Text → Option ℤ → Text
scaled value digits (some (pos zero)) = codes "truncate(" ++ value ++ codes ")"
scaled value digits (some (pos (suc n))) =
    if leb (suc n) truncate_literal_scale_limit
    then codes "(truncate("
      ++ value
      ++ codes " * "
      ++ show (10 ^ suc n)
      ++ codes ") / "
      ++ show (10 ^ suc n)
      ++ codes ")"
    else by_power value digits
scaled value digits (some (negsuc n)) =
    if leb (suc n) truncate_literal_scale_limit
    then codes "(truncate("
      ++ value
      ++ codes " / "
      ++ show (10 ^ suc n)
      ++ codes ") * "
      ++ show (10 ^ suc n)
      ++ codes ")"
    else by_power value digits
scaled value digits none = by_power value digits

unfoldable pub rewrite_truncate : Text → Text → Text
rewrite_truncate value digits = scaled value digits (parse_i32 (trim digits))

-- The arms of `rewrite_scalar_fn`, each from the arguments; `none` where the guard on their number
-- fails.
unfoldable pub with_one : (Text → Option Text) → List Text → Option Text
with_one f (a ∷ []) = f a
with_one f _ = none

unfoldable pub with_two : (Text → Text → Option Text) → List Text → Option Text
with_two f (a ∷ b ∷ []) = f a b
with_two f _ = none

unfoldable pub with_three : (Text → Text → Text → Option Text) → List Text → Option Text
with_three f (a ∷ b ∷ c ∷ []) = f a b c
with_three f _ = none

unfoldable pub bare : Text → Bool → Option Text
bare keyword empty = if empty then some keyword else none

-- `date_add` and `date_diff`
unfoldable pub with_unit : Text → Text → Text → Text → Option Text
with_unit f keyword a b =
    Option.map (λ unit. f ++ codes "('" ++ unit ++ codes "', " ++ a ++ codes ", " ++ b ++ codes ")")
      (trino_interval_unit keyword)

unfoldable pub with_target : Text → Text → Option Text
with_target value keyword =
    Option.map (λ target. codes "CAST(" ++ value ++ codes " AS " ++ target ++ codes ")")
      (trino_convert_target keyword)

abbrev pub rewrites : List (Text × (List Text → Bool → Option Text))
rewrites =
    (
      codes "LOCATE",
      λ parts empty.
          with_two (λ a b. some (codes "position(" ++ a ++ codes " IN " ++ b ++ codes ")")) parts,
    )
    ∷ (
      codes "LENGTH",
      λ parts empty. with_one (λ a. some (codes "length(rtrim(" ++ a ++ codes ", ' '))")) parts,
    )
    ∷ (
      codes "LTRIM",
      λ parts empty. with_one (λ a. some (codes "ltrim(" ++ a ++ codes ", ' ')")) parts,
    )
    ∷ (
      codes "RTRIM",
      λ parts empty. with_one (λ a. some (codes "rtrim(" ++ a ++ codes ", ' ')")) parts,
    )
    ∷ (codes "CURDATE", λ parts empty. bare (codes "current_date") empty)
    ∷ (codes "CURRENT_DATE", λ parts empty. bare (codes "current_date") empty)
    ∷ (codes "CURTIME", λ parts empty. bare (codes "current_time") empty)
    ∷ (codes "CURRENT_TIME", λ parts empty. bare (codes "current_time") empty)
    ∷ (codes "CURRENT_TIMESTAMP", λ parts empty. bare (codes "current_timestamp") empty)
    ∷ (codes "USERNAME", λ parts empty. bare (codes "current_user") empty)
    ∷ (codes "DBNAME", λ parts empty. bare (codes "current_catalog") empty)
    ∷ (codes "TIMESTAMPADD", λ parts empty. with_three (with_unit (codes "date_add")) parts)
    ∷ (codes "TIMESTAMPDIFF", λ parts empty. with_three (with_unit (codes "date_diff")) parts)
    ∷ (codes "CONVERT", λ parts empty. with_two with_target parts)
    ∷ (
      codes "RAND",
      λ parts empty. if empty then none else with_one (λ seed. some (codes "random()")) parts,
    )
    ∷ (codes "TRUNCATE", λ parts empty. with_two (λ a b. some (rewrite_truncate a b)) parts)
    ∷ (
      codes "DAYOFWEEK",
      λ parts empty.
          with_one (λ a. some (codes "((day_of_week(" ++ a ++ codes ") % 7) + 1)")) parts,
    )
    ∷ []

unfoldable pub apply_arm : Option (List Text → Bool → Option Text) → List Text → Bool → Option Text
apply_arm none parts empty = none
apply_arm (some f) parts empty = f parts empty

unfoldable pub rewrite_scalar_fn : Text → Text → Option Text
rewrite_scalar_fn name args =
    apply_arm (arm (upper name) rewrites) (split_args args) (is_empty (trim args))
