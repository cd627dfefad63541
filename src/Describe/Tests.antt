-- ===== src/Describe/Tests.antt =====
-- Runs of `describe_param`, and its theorems at concrete statements.
use stackable_odbc_trino.Base.{
  ℕ, ℤ, pos, ◌≡◌, refl, true, false, List, [], ◌∷◌, none, some, arith, map, get_elem?,
}
use stackable_odbc_trino.Base.Outcome.{ok, err}
use stackable_odbc_trino.Base.Text.{Text, codes, split_once}
use stackable_odbc_trino.Base.Text.Space.{is_whitespace}
use stackable_odbc_trino.Errors.Mapping.{ClientError, map_trino_error}
use stackable_odbc_trino.Session.Client.{Client}
use stackable_odbc_trino.Session.Shared.{no_query, map_trino_error_on}
use stackable_odbc_trino.Session.Transaction.{end_tran}
use stackable_odbc_trino.Session.Tests.{slot_client}
use stackable_odbc_trino.Conversion.TypeName.{SqlDataType, trino_type_name_to_sql_type}
use stackable_odbc_trino.Conversion.TypeParams.{type_name_precision, type_name_scale}
use stackable_odbc_trino.Catalog.Queries.{
  Queries, query_all_rows, collected, filter_map, as_str, as_i64,
}
use stackable_odbc_trino.Describe.Params.{
  ParamDescriptor, param_descriptor, describe_input_rows_to_params, to_unsigned, positioned, place,
  sort_by_key,
}
use stackable_odbc_trino.Describe.Requests.{
  Described, fetch_input_params, describe_param, is_cached, refreshed, answer_at, prepared, dropped,
  execute_statement, executed,
}
use stackable_odbc_trino.Describe.Answers.{Reported, IsCoherent, describe_param-Reported}
use stackable_odbc_trino.Describe.Aborts.{describe_param_unprepared}
use stackable_odbc_trino.Describe.Positions.{
  swap, input_row, describe_input_rows_to_params-Shuffled,
}

abbrev sized : SqlDataType → ℤ → ℤ → ℤ
sized ty precision scale = precision

abbrev two_types : List Text
two_types = codes "bigint" ∷ codes "char(20)" ∷ []

abbrev backwards : List (ℕ × Text)
backwards = (1, codes "char(20)") ∷ (0, codes "bigint") ∷ []

describe_input_rows_to_params-Shuffled_example :
    describe_input_rows_to_params sized (map input_row backwards)
    ≡ map (param_descriptor sized) two_types
describe_input_rows_to_params-Shuffled_example =
    describe_input_rows_to_params-Shuffled sized backwards two_types
      (swap (1, codes "char(20)") (0, codes "bigint") []) (omega arith)

-- A client whose commit is refused.
abbrev refusing_commit : Client
refusing_commit = record slot_client { commit = λ s. (err ClientError.other, s) }

-- A coordinator that describes two parameters, one that declines to prepare, and one that declines to
-- describe.
abbrev describing : Queries slot_client
describing = record {
  get_all = λ sql s. (ok (map input_row backwards), s);
  execute = λ sql s. (ok tt, s);
}

abbrev unprepared : Queries refusing_commit
unprepared = record { get_all = λ sql s. (ok [], s); execute = λ sql s. (err ClientError.other, s) }

abbrev undescribed : Queries slot_client
undescribed = record {
  get_all = λ sql s. (err ClientError.other, s);
  execute = λ sql s. (ok tt, s);
}

abbrev in_transaction_of : (c : Client) → c.State → Described c
in_transaction_of c s = record {
  store = record {
    client = s;
    txn = record { autocommit = false; aborted = false; epoch = 0 };
    dead = false;
    cancels = λ k. no_query;
  };
  cache = none;
}

abbrev select_two : Text
select_two = codes "SELECT ?, ?"

abbrev big : ParamDescriptor
big = record { data_type = SqlDataType.ext_big_int; parameter_size = 0; decimal_digits = pos 0 }

abbrev declined : Described refusing_commit
declined = in_transaction_of refusing_commit true

abbrev lost_input : Described slot_client
lost_input = in_transaction_of slot_client true

describe_param_unprepared_example :
    ((describe_param unprepared sized select_two 1 declined).0
      ≡ err (map_trino_error ClientError.other))
    × ((end_tran true (describe_param unprepared sized select_two 1 declined).1.store).0
        ≡ err (map_trino_error ClientError.other))
    × ((end_tran true (describe_param unprepared sized select_two 1 declined).1.store).1.client
        ≡ (refusing_commit.commit
            (describe_param unprepared sized select_two 1 declined).1.store.client).1)
unfolding describe_param is_cached refreshed fetch_input_params prepared execute_statement executed
    map_trino_error_on
describe_param_unprepared_example =
    describe_param_unprepared unprepared sized select_two 0 declined ClientError.other refl refl
      ClientError.other refl refl refl refl

describes_first : (describe_param describing sized select_two 1 lost_input).0 ≡ ok (some big)
unfolding describe_param is_cached refreshed fetch_input_params prepared execute_statement executed
    dropped query_all_rows collected answer_at describe_input_rows_to_params filter_map positioned
    sort_by_key place as_str as_i64 to_unsigned param_descriptor trino_type_name_to_sql_type
    type_name_precision type_name_scale split_once is_whitespace
describes_first = refl

describe_param-Reported_example :
    ((params : List ParamDescriptor) × Reported describing sized select_two params
      × (get_elem? params 0 ≡ some big))
    × IsCoherent describing sized (describe_param describing sized select_two 1 lost_input).1.cache
describe_param-Reported_example =
    describe_param-Reported describing sized select_two 0 lost_input big tt describes_first
