-- ===== src/Escape/Targets.antt =====
-- The ODBC type keywords of `{fn CONVERT}` by the Trino type that each stands for, and what the table of
-- `trino_convert_target` does with them.
use mathlib.Core.Path.{subst}
use stackable_odbc_trino.Base.{
  ◌≡◌, ◌≢◌, refl, sym, ap, ◌∙◌, ◌⊎◌, inl, inr, List, [], ◌∷◌, ◌++◌, none, some, map, All,
  All-append, arith,
}
use stackable_odbc_trino.Base.Text.{Text, codes, eq_text}
use stackable_odbc_trino.Base.Text.Compare.{eq_text-eq}
use stackable_odbc_trino.Escape.Functions.{arm, targets}

pub data TargetType : Type 0 where
  bigint integer smallint tinyint double real decimal boolean varchar varbinary : TargetType
  date time timestamp uuid : TargetType

abbrev pub type_name : TargetType → Text
type_name TargetType.bigint = codes "BIGINT"
type_name TargetType.integer = codes "INTEGER"
type_name TargetType.smallint = codes "SMALLINT"
type_name TargetType.tinyint = codes "TINYINT"
type_name TargetType.double = codes "DOUBLE"
type_name TargetType.real = codes "REAL"
type_name TargetType.decimal = codes "DECIMAL"
type_name TargetType.boolean = codes "BOOLEAN"
type_name TargetType.varchar = codes "VARCHAR"
type_name TargetType.varbinary = codes "VARBINARY"
type_name TargetType.date = codes "DATE"
type_name TargetType.time = codes "TIME"
type_name TargetType.timestamp = codes "TIMESTAMP"
type_name TargetType.uuid = codes "UUID"

-- The keywords that the spec lists for the escape, by what they stand for.
abbrev pub keywords : TargetType → List Text
keywords TargetType.bigint = codes "SQL_BIGINT" ∷ []
keywords TargetType.integer = codes "SQL_INTEGER" ∷ []
keywords TargetType.smallint = codes "SQL_SMALLINT" ∷ []
keywords TargetType.tinyint = codes "SQL_TINYINT" ∷ []
keywords TargetType.double = codes "SQL_DOUBLE" ∷ codes "SQL_FLOAT" ∷ []
keywords TargetType.real = codes "SQL_REAL" ∷ []
keywords TargetType.decimal = codes "SQL_DECIMAL" ∷ codes "SQL_NUMERIC" ∷ []
keywords TargetType.boolean = codes "SQL_BIT" ∷ []
keywords TargetType.varchar =
    codes "SQL_CHAR"
    ∷ codes "SQL_VARCHAR"
    ∷ codes "SQL_LONGVARCHAR"
    ∷ codes "SQL_WCHAR"
    ∷ codes "SQL_WVARCHAR"
    ∷ codes "SQL_WLONGVARCHAR"
    ∷ []
keywords TargetType.varbinary =
    codes "SQL_BINARY" ∷ codes "SQL_VARBINARY" ∷ codes "SQL_LONGVARBINARY" ∷ []
keywords TargetType.date = codes "SQL_DATE" ∷ codes "SQL_TYPE_DATE" ∷ []
keywords TargetType.time = codes "SQL_TIME" ∷ codes "SQL_TYPE_TIME" ∷ []
keywords TargetType.timestamp = codes "SQL_TIMESTAMP" ∷ codes "SQL_TYPE_TIMESTAMP" ∷ []
keywords TargetType.uuid = codes "SQL_GUID" ∷ []

-- The text is one of the list.
abbrev pub IsOneOf : Text → List Text → Type 0
IsOneOf k [] = ⊥
IsOneOf k (x ∷ xs) = (k ≡ x) ⊎ IsOneOf k xs

one_of_all : (P : Text → Type 0) (k : Text) (ks : List Text) → All P ks → IsOneOf k ks → P k
one_of_all P k [] h e = elim e [ ]
one_of_all P k (x ∷ xs) (p, h) (inl e) = subst P (sym e) p
one_of_all P k (x ∷ xs) (p, h) (inr e) = one_of_all P k xs h e

targets-All : (t : TargetType) → All (λ k. arm k targets ≡ some (type_name t)) (keywords t)
unfolding arm eq_text
targets-All TargetType.bigint = (refl, tt)
targets-All TargetType.integer = (refl, tt)
targets-All TargetType.smallint = (refl, tt)
targets-All TargetType.tinyint = (refl, tt)
targets-All TargetType.double = (refl, (refl, tt))
targets-All TargetType.real = (refl, tt)
targets-All TargetType.decimal = (refl, (refl, tt))
targets-All TargetType.boolean = (refl, tt)
targets-All TargetType.varchar = (refl, (refl, (refl, (refl, (refl, (refl, tt))))))
targets-All TargetType.varbinary = (refl, (refl, (refl, tt)))
targets-All TargetType.date = (refl, (refl, tt))
targets-All TargetType.time = (refl, (refl, tt))
targets-All TargetType.timestamp = (refl, (refl, tt))
targets-All TargetType.uuid = (refl, tt)

-- A keyword of a type is translated to the type.
pub arm-targets :
    (t : TargetType) (k : Text) → IsOneOf k (keywords t) → arm k targets ≡ some (type_name t)
arm-targets t k h =
    one_of_all (λ k. arm k targets ≡ some (type_name t)) k (keywords t) (targets-All t) h

arm_differs :
    {A : Type 0}
    → (k : Text) (arms : List (Text × A)) → All (λ row. k ≢ row.0) arms
    → arm k arms ≡ none
unfolding arm
arm_differs k [] h = refl
arm_differs k ((n, a) ∷ arms) (d, h) = ground (arith, eq_text-eq k n, d, arm_differs k arms h)

-- The rows of a type, and of several.
rows : TargetType → List (Text × Text)
rows t = map (λ k. (k, type_name t)) (keywords t)

table : List TargetType → List (Text × Text)
table [] = []
table (t ∷ ts) = rows t ++ table ts

types : List TargetType
types =
    TargetType.bigint ∷ TargetType.integer ∷ TargetType.smallint ∷ TargetType.tinyint
    ∷ TargetType.double ∷ TargetType.real ∷ TargetType.decimal ∷ TargetType.boolean
    ∷ TargetType.varchar ∷ TargetType.varbinary ∷ TargetType.date ∷ TargetType.time
    ∷ TargetType.timestamp ∷ TargetType.uuid ∷ []

targets-table : targets ≡ table types
unfolding table rows types
targets-table = refl

named_differs :
    (k name : Text) (ks : List Text)
    → (IsOneOf k ks → ⊥)
    → All (λ (row : Text × Text). k ≢ row.0) (map (λ x. (x, name)) ks)
named_differs k name [] h = tt
named_differs k name (x ∷ xs) h = (λ e. h (inl e), named_differs k name xs (λ e. h (inr e)))

table_differs :
    (k : Text) (ts : List TargetType)
    → ((t : TargetType) → IsOneOf k (keywords t) → ⊥)
    → All (λ (row : Text × Text). k ≢ row.0) (table ts)
unfolding table rows
table_differs k [] h = tt
table_differs k (t ∷ ts) h =
    All-append (λ (row : Text × Text). k ≢ row.0) (rows t) (table ts)
      (named_differs k (type_name t) (keywords t) (h t)) (table_differs k ts h)

-- A text that is a keyword of no type is not translated.
pub arm-targets-none :
    (k : Text) → ((t : TargetType) → IsOneOf k (keywords t) → ⊥) → arm k targets ≡ none
arm-targets-none k h =
    ap (arm k) targets-table ∙ arm_differs k (table types) (table_differs k types h)
