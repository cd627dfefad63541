-- ===== src/Conversion/Agreement.antt =====
-- The SQL types that the driver reports, by the name of a type and by the client's type, and the
-- values it delivers.
use stackable_odbc_trino.Base.{ℕ, ℤ, pos, Bool, ◌≡◌, refl, some}
use stackable_odbc_trino.Base.Text.{Text}
use stackable_odbc_trino.Column
use stackable_odbc_trino.Column.{ColumnValue}
use stackable_odbc_trino.Conversion.Nested.{TrinoTy, PlainType, Value}
use stackable_odbc_trino.Conversion.TypeName.{SqlDataType, TrinoTypeName, sql_type}
use stackable_odbc_trino.Conversion.TypeParams.{fixed_precision}
use stackable_odbc_trino.Conversion.Zones.{Chrono}
use stackable_odbc_trino.Conversion.Values.{Readers}
use stackable_odbc_trino.Conversion.Typed.{IsOf, IsPlainOf}
use stackable_odbc_trino.Conversion.Reported.{
  plain_sql_type, trino_ty_to_sql_type, precision_as_u32, plain_precision, trino_ty_precision,
}

-- The client's type of a column whose declared type has a name.
pub data Names : TrinoTypeName → TrinoTy → Type 0 where
  boolean : Names TrinoTypeName.boolean (TrinoTy.plain_type PlainType.boolean)
  tiny_int : Names TrinoTypeName.tiny_int (TrinoTy.plain_type PlainType.int8)
  small_int : Names TrinoTypeName.small_int (TrinoTy.plain_type PlainType.int16)
  integer : Names TrinoTypeName.integer (TrinoTy.plain_type PlainType.int32)
  big_int : Names TrinoTypeName.big_int (TrinoTy.plain_type PlainType.int64)
  real : Names TrinoTypeName.real (TrinoTy.plain_type PlainType.float32)
  double : Names TrinoTypeName.double (TrinoTy.plain_type PlainType.float64)
  decimal : (p s : ℕ) → Names TrinoTypeName.decimal (TrinoTy.plain_type (PlainType.decimal p s))
  varchar : Names TrinoTypeName.varchar (TrinoTy.plain_type PlainType.varchar)
  char : (n : ℕ) → Names TrinoTypeName.char (TrinoTy.plain_type (PlainType.char n))
  varbinary : Names TrinoTypeName.varbinary (TrinoTy.plain_type PlainType.var_binary)
  date : Names TrinoTypeName.date (TrinoTy.plain_type PlainType.date)
  time : Names TrinoTypeName.time TrinoTy.time
  zoned_time : Names TrinoTypeName.time_with_time_zone TrinoTy.time_with_time_zone
  timestamp : Names TrinoTypeName.timestamp TrinoTy.timestamp
  zoned_timestamp : Names TrinoTypeName.timestamp_with_time_zone TrinoTy.timestamp_with_time_zone
  json : Names TrinoTypeName.json (TrinoTy.plain_type PlainType.json)
  uuid : Names TrinoTypeName.uuid (TrinoTy.plain_type PlainType.uuid)
  day_to_second :
      Names TrinoTypeName.interval_day_to_second
        (TrinoTy.plain_type PlainType.interval_day_to_second)
  year_to_month :
      Names TrinoTypeName.interval_year_to_month
        (TrinoTy.plain_type PlainType.interval_year_to_month)

-- The variants that a column reported as a SQL type may deliver. Composite values and JSON are
-- rendered as text by core.
pub data Fits : SqlDataType → ColumnValue → Type 0 where
  null : (t : SqlDataType) → Fits t ColumnValue.null
  text : (t : SqlDataType) (s : Text) → Fits t (ColumnValue.string s)
  bit : (b : Bool) → Fits SqlDataType.ext_bit (ColumnValue.bool b)
  tiny : (n : ℤ) → Fits SqlDataType.ext_tiny_int (ColumnValue.i8 n)
  small : (n : ℤ) → Fits SqlDataType.smallint (ColumnValue.i16 n)
  int : (n : ℤ) → Fits SqlDataType.integer (ColumnValue.i32 n)
  big : (n : ℤ) → Fits SqlDataType.ext_big_int (ColumnValue.i64 n)
  single : (b : ℕ) → Fits SqlDataType.real (ColumnValue.f32 b)
  float : (b : ℕ) → Fits SqlDataType.double (ColumnValue.f64 b)
  number : (t : Text) → Fits SqlDataType.decimal (ColumnValue.decimal t)
  binary : (b : Text) → Fits SqlDataType.ext_long_var_binary (ColumnValue.bytes b)
  day : (y : ℤ) (m d : ℕ) → Fits SqlDataType.date (ColumnValue.date y m d)
  time_of_day : (h m s f : ℕ) → Fits SqlDataType.time (ColumnValue.time h m s f)
  instant :
      (y : ℤ) (mo d h m s f : ℕ) → Fits SqlDataType.timestamp (ColumnValue.timestamp y mo d h m s f)
  document : (t : Text) → Fits SqlDataType.ext_w_varchar (ColumnValue.json t)
  listed : (vs : Column.Values) → Fits SqlDataType.ext_w_varchar (ColumnValue.array vs)
  mapped : (ps : Column.Pairs) → Fits SqlDataType.ext_w_varchar (ColumnValue.map_of ps)
  fielded : (vs : Column.Values) → Fits SqlDataType.ext_w_varchar (ColumnValue.row vs)

IsPlainOf-Fits : {p : PlainType} {cv : ColumnValue} → IsPlainOf p cv → Fits (plain_sql_type p) cv
unfolding plain_sql_type
IsPlainOf-Fits (IsPlainOf.int64 n h) = big n
IsPlainOf-Fits (IsPlainOf.int32 n h) = int n
IsPlainOf-Fits (IsPlainOf.int16 n h) = small n
IsPlainOf-Fits (IsPlainOf.int8 n h) = tiny n
IsPlainOf-Fits (IsPlainOf.float64 b) = float b
IsPlainOf-Fits (IsPlainOf.float32 b) = single b
IsPlainOf-Fits (IsPlainOf.boolean b) = bit b
IsPlainOf-Fits (IsPlainOf.date y m d) = day y m d
IsPlainOf-Fits (IsPlainOf.decimal p s t) = number t
IsPlainOf-Fits (IsPlainOf.json t) = document t
IsPlainOf-Fits (IsPlainOf.var_binary b) = binary b

-- No variant of its own stands for a CHAR.
char-IsPlainOf :
    (n : ℕ) {cv : ColumnValue} → IsPlainOf (PlainType.char n) cv → Fits SqlDataType.ext_w_char cv
char-IsPlainOf n h = elim h [ ]

module _ (x : Chrono) (r : Readers x) where
  pub IsOf-Fits :
      {ty : TrinoTy} {v : Value} {cv : ColumnValue}
      → IsOf x r ty v cv
      → Fits (trino_ty_to_sql_type ty) cv
  unfolding trino_ty_to_sql_type
  IsOf-Fits (IsOf.null ty) = Fits.null _
  IsOf-Fits (IsOf.text ty v s h) = Fits.text _ s
  IsOf-Fits (IsOf.plain p v cv h) = IsPlainOf-Fits h
  IsOf-Fits (IsOf.time v h m s f) = time_of_day h m s f
  IsOf-Fits (IsOf.zoned_time v h m s f) = time_of_day h m s f
  IsOf-Fits (IsOf.timestamp v y mo d h m s f) = instant y mo d h m s f
  IsOf-Fits (IsOf.zoned_timestamp v y mo d h m s f) = instant y mo d h m s f
  IsOf-Fits (IsOf.option ty v cv h) = IsOf-Fits h
  IsOf-Fits (IsOf.array ty vs cvs h) = listed cvs
  IsOf-Fits (IsOf.map_of k v ms ps h) = mapped ps
  IsOf-Fits (IsOf.row fs vs cvs h) = fielded cvs
  IsOf-Fits (IsOf.tuple ts vs cvs h) = fielded cvs

  char-IsOf :
      (n : ℕ) {v : Value} {cv : ColumnValue}
      → IsOf x r (TrinoTy.plain_type (PlainType.char n)) v cv
      → Fits SqlDataType.ext_w_char cv
  char-IsOf n (IsOf.null ty) = Fits.null _
  char-IsOf n (IsOf.text ty v s h) = Fits.text _ s
  char-IsOf n (IsOf.plain p v cv h) = char-IsPlainOf n h

  -- By its name a CHAR is reported as itself, and by the client's type as a VARCHAR; everything else
  -- is reported alike.
  pub IsOf-named :
      {n : TrinoTypeName} {ty : TrinoTy} {v : Value} {cv : ColumnValue}
      → Names n ty
      → IsOf x r ty v cv
      → Fits (sql_type n) cv
  unfolding sql_type trino_ty_to_sql_type plain_sql_type
  IsOf-named boolean h = IsOf-Fits h
  IsOf-named tiny_int h = IsOf-Fits h
  IsOf-named small_int h = IsOf-Fits h
  IsOf-named integer h = IsOf-Fits h
  IsOf-named big_int h = IsOf-Fits h
  IsOf-named real h = IsOf-Fits h
  IsOf-named double h = IsOf-Fits h
  IsOf-named (decimal p s) h = IsOf-Fits h
  IsOf-named varchar h = IsOf-Fits h
  IsOf-named (char n) h = char-IsOf n h
  IsOf-named varbinary h = IsOf-Fits h
  IsOf-named date h = IsOf-Fits h
  IsOf-named time h = IsOf-Fits h
  IsOf-named zoned_time h = IsOf-Fits h
  IsOf-named timestamp h = IsOf-Fits h
  IsOf-named zoned_timestamp h = IsOf-Fits h
  IsOf-named json h = IsOf-Fits h
  IsOf-named uuid h = IsOf-Fits h
  IsOf-named day_to_second h = IsOf-Fits h
  IsOf-named year_to_month h = IsOf-Fits h

read_size : (z : ℤ) (p : ℕ) → some z ≡ some (pos p) → precision_as_u32 z ≡ p
unfolding precision_as_u32
read_size z p h = let e : z ≡ pos p = cc in rw e refl

-- The size that is reported for a name without a length is the one that is reported for the client's
-- type, where core's size is not negative.
pub trino_ty_precision-named :
    (column_size : SqlDataType → ℤ → ℤ → ℤ) (undeterminable : ℕ) {n : TrinoTypeName} {ty : TrinoTy}
    (p : ℕ)
    → Names n ty
    → fixed_precision column_size n ≡ some (pos p)
    → trino_ty_precision column_size undeterminable ty ≡ p
unfolding fixed_precision trino_ty_precision plain_precision
trino_ty_precision-named size u p boolean h = read_size _ p h
trino_ty_precision-named size u p tiny_int h = read_size _ p h
trino_ty_precision-named size u p small_int h = read_size _ p h
trino_ty_precision-named size u p integer h = read_size _ p h
trino_ty_precision-named size u p big_int h = read_size _ p h
trino_ty_precision-named size u p real h = read_size _ p h
trino_ty_precision-named size u p double h = read_size _ p h
trino_ty_precision-named size u p (decimal q s) h = cc
trino_ty_precision-named size u p varchar h = cc
trino_ty_precision-named size u p (char n) h = cc
trino_ty_precision-named size u p varbinary h = cc
trino_ty_precision-named size u p date h = read_size _ p h
trino_ty_precision-named size u p time h = read_size _ p h
trino_ty_precision-named size u p zoned_time h = read_size _ p h
trino_ty_precision-named size u p timestamp h = read_size _ p h
trino_ty_precision-named size u p zoned_timestamp h = read_size _ p h
trino_ty_precision-named size u p json h = cc
trino_ty_precision-named size u p uuid h = cc
trino_ty_precision-named size u p day_to_second h = cc
trino_ty_precision-named size u p year_to_month h = cc
