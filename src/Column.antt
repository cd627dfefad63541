-- ===== src/Column.antt =====
-- `ColumnValue`, the value type that the driver shares with its core crate: the variants are those
-- that backend/params.rs and type_conversion.rs build or match. Integers of a fixed width
-- are ℤ, whose range the core type guarantees; floats are their IEEE 754 bit patterns.
use stackable_odbc_trino.Base.{ℕ, ℤ, Bool}
use stackable_odbc_trino.Base.Text.{Text}

mutual
  pub data ColumnValue : Type 0 where
    null : ColumnValue
    bool : Bool → ColumnValue
    i8 i16 i32 i64 : ℤ → ColumnValue
    f32 f64 : ℕ → ColumnValue
    string json decimal : Text → ColumnValue
    bytes guid : Text → ColumnValue
    date : ℤ → ℕ → ℕ → ColumnValue
    time : ℕ → ℕ → ℕ → ℕ → ColumnValue
    timestamp : ℤ → ℕ → ℕ → ℕ → ℕ → ℕ → ℕ → ColumnValue
    timestamp_tz : ℤ → ℕ → ℕ → ℕ → ℕ → ℕ → ℕ → ℤ → ColumnValue
    array row : Values → ColumnValue
    map_of : Pairs → ColumnValue
    interval_year_month interval_day_time other : ColumnValue

  pub data Values : Type 0 where
    nil : Values
    cons : ColumnValue → Values → Values

  pub data Pairs : Type 0 where
    end : Pairs
    pair : ColumnValue → ColumnValue → Pairs → Pairs
