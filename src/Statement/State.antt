-- ===== src/Statement/State.antt =====
-- `TrinoStatement`, the statement that `prepare` makes, `convert_rows`, `get_data`, `column_count`,
-- `describe_col`, and what discards a result set.
use stackable_odbc_trino.Base.{
  ℕ, zero, suc, ◌+◌, ◌-◌, Bool, true, false, ◌&&◌, ◌||◌, List, [], ◌∷◌, ◌++◌, Option, none, some,
  ◌==◌, ltb, if◌then◌else◌, length, get_elem?,
}
use stackable_odbc_trino.Base.Outcome.{Result, ok, err}
use stackable_odbc_trino.Base.Text.{Text}
use stackable_odbc_trino.Column.{ColumnValue}
use stackable_odbc_trino.Errors.{
  TrinoError, odbc, SqlState, get_data_before_fetch, column_must_be_positive, column_range,
}
use stackable_odbc_trino.Errors.Mapping.{is_cancellation}

abbrev pub Row : Type 0
Row = List ColumnValue

-- `D` is core's `ColumnDescriptor`, and `T` the crate's column type. `online` says that `client`,
-- `runtime`, `cancel_state`, `txn` and `liveness` are set: they are so together, or none of them is.
-- `token` is the number of the token whose `cancel_state` that is; where there is none it is 0.
pub record Statement (D T : Type 0) : Type 0 where
  pub pending_sql : Option Text
  pub columns : List D
  pub trino_types : List T
  pub batch : List Row
  pub truncated_cells : List (ℕ × ℕ)
  pub pending_value_warning : Bool
  pub batch_cursor : ℕ
  pub fetch_failed : Bool
  pub next_uri : Option Text
  pub query_id : Option Text
  pub online : Bool
  pub token : ℕ
  pub txn_epoch : ℕ
  pub page_count : ℕ
  pub empty_page_count : ℕ
  pub total_rows_fetched : ℕ

unfoldable pub member : List (ℕ × ℕ) → ℕ → ℕ → Bool
member [] r k = false
member ((i, j) ∷ cells) r k = (i == r) && (j == k) || member cells r k

-- The cell of a row, or `07009`.
unfoldable pub cell : Row → ℕ → Result TrinoError ColumnValue
cell row k = elim (get_elem? row k) [
  | none ↦ err (odbc (column_range (k + 1) (length row)) SqlState.invalid_descriptor_index)
  | some v ↦ ok v
]

module _ {D T : Type 0} where
  -- `prepare`
  unfoldable pub prepare : Text → Statement D T
  prepare sql = record {
    pending_sql = some sql;
    columns = [];
    trino_types = [];
    batch = [];
    truncated_cells = [];
    pending_value_warning = false;
    batch_cursor = 0;
    fetch_failed = false;
    next_uri = none;
    query_id = none;
    online = false;
    token = 0;
    txn_epoch = 0;
    page_count = 0;
    empty_page_count = 0;
    total_rows_fetched = 0;
  }

  -- `abandon_result_set`
  unfoldable pub abandon_result_set : Statement D T → Statement D T
  abandon_result_set s = record s {
    batch = [];
    truncated_cells = [];
    batch_cursor = 0;
    next_uri = none;
    fetch_failed = true;
  }

  -- `end_page_fetch`: a cancellation is no failure of the result set.
  unfoldable pub end_page_fetch : TrinoError → Statement D T → Statement D T
  unfolding abandon_result_set
  end_page_fetch e s =
      if is_cancellation e
      then record s { batch = []; truncated_cells = []; batch_cursor = 0; next_uri = none }
      else abandon_result_set s

  -- `get_data`. The index `self.batch[self.batch_cursor - 1]` panics out of range: `none`.
  unfoldable pub get_data :
      ℕ → Statement D T → Option (Result TrinoError ColumnValue × Statement D T)
  unfolding member cell
  get_data zero s =
      if s.batch_cursor == 0
      then some (err (odbc get_data_before_fetch SqlState.general_error), s)
      else some (err (odbc column_must_be_positive SqlState.invalid_descriptor_index), s)
  get_data (suc k) s =
      let armed = record s {
        pending_value_warning = member s.truncated_cells (s.batch_cursor - 1) k;
      } in
      let read : Option (Result TrinoError ColumnValue × Statement D T) =
        elim (get_elem? s.batch (s.batch_cursor - 1)) [
          | none ↦ none
          | some row ↦ some (cell row k, armed)
        ] in
      if s.batch_cursor == 0
      then some (err (odbc get_data_before_fetch SqlState.general_error), s)
      else read

  -- `take_value_warning`
  unfoldable pub take_value_warning : Statement D T → Bool × Statement D T
  take_value_warning s = (s.pending_value_warning, record s { pending_value_warning = false })

  -- `column_count` saturates at the largest `i16`.
  unfoldable pub column_count : Statement D T → ℕ
  column_count s = if ltb 32767 (length s.columns) then 32767 else length s.columns

  -- `describe_col`
  unfoldable pub describe_col : ℕ → Statement D T → Result TrinoError D
  describe_col zero s = err (odbc column_must_be_positive SqlState.invalid_descriptor_index)
  describe_col (suc k) s = elim (get_elem? s.columns k) [
    | none ↦ err (odbc (column_range (k + 1) (length s.columns)) SqlState.invalid_descriptor_index)
    | some d ↦ ok d
  ]

-- `convert_rows`: each value is converted under its column's type, up to the shorter of the row and
-- the types, and the cells that lose fractional digits are recorded.
module _ {J T : Type 0} (convert : J → T → ColumnValue) where
  unfoldable pub convert_row : List J → List T → Row
  convert_row [] types = []
  convert_row (v ∷ vs) [] = []
  convert_row (v ∷ vs) (t ∷ types) = convert v t ∷ convert_row vs types

  unfoldable pub convert_rows : List (List J) → List T → List Row
  unfolding convert_row
  convert_rows [] types = []
  convert_rows (r ∷ rs) types = convert_row r types ∷ convert_rows rs types

module _ {J T : Type 0} (discards : J → T → Bool) where
  unfoldable pub truncated_in : ℕ → ℕ → List J → List T → List (ℕ × ℕ)
  truncated_in r k [] types = []
  truncated_in r k (v ∷ vs) [] = []
  truncated_in r k (v ∷ vs) (t ∷ types) =
      let rest = truncated_in r (k + 1) vs types in if discards v t then (r, k) ∷ rest else rest

  unfoldable pub truncated_from : ℕ → List (List J) → List T → List (ℕ × ℕ)
  unfolding truncated_in
  truncated_from r [] types = []
  truncated_from r (row ∷ rows) types =
      truncated_in r 0 row types ++ truncated_from (r + 1) rows types
