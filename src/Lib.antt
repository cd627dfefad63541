-- ===== src/Lib.antt =====
-- The Trino ODBC driver: the parts of the Rust code that decide what is sent to the coordinator and
-- what an application sees of the reply.
--
-- Parts and how they interact. An application binds parameters to a statement: the driver renders
-- them as SQL literals into the text (Params). Running a statement makes sure that a transaction is
-- open when the connection is in manual-commit mode (Session), and gives a result set that arrives
-- page by page (Statement). A client error on the way is classified (Errors), and aborts an open
-- transaction; a commit, a rollback or a cancellation on the connection ends the result sets of its
-- statements, which see it through the store that both share. Before all that, a connection string
-- is read and checked, and decides what credentials are sent and over what (Connect). Core hands the
-- `{fn ...}` escapes of a statement to the dialect, which rewrites them (Escape). The catalog functions
-- and SQLDescribeParam run queries of their own on the connection (Catalog, Describe), inside whatever
-- transaction the application has open.
--
-- Files and code:
--   Base, Base/*      lists, numbers, texts, the two ways to fail, and their lemmas
--   Column            core's ColumnValue, as far as the driver builds or matches it
--   Errors, Errors/*  src/backend.rs: TrinoError, map_trino_error, Liveness, the SQLSTATEs
--   Params/*          src/backend/params.rs: Literal has render_literal and its helpers, Interpolate
--                     has interpolate_params; Lexing is Trino's lexer, as far as quotes and comments go;
--                     the other files hold the specifications and proofs
--   Session/*         src/backend.rs: Shared has TransactionState and CancelState, with cancel of
--                     src/backend/execute.rs; Transaction has ensure_transaction, end_tran,
--                     set_autocommit and disconnect; Commit has the proofs
--   Statement/*       src/backend/execute.rs: State has the record, prepare, get_data, describe_col
--                     and convert_rows; Submit has exec_direct and Execute has execute; Fetch has
--                     fetch; Close has close_cursor and Drop; Described
--                     has the description of a column; Execution/*, Invariant, Operations,
--                     Streaming, Endings and Cancel have the proofs; Terminator has
--                     strip_trailing_semicolons
--   Conversion/*      src/type_conversion.rs: Temporal has the parsers of dates, times, timestamps
--                     and fractions; TypeName has TrinoTypeName with its parser, TypeParams the
--                     numbers in a type name, Offsets times of day with a zone, Nested the values
--                     that lose digits inside arrays, maps and rows, Zones the session zone
--                     and timestamps with a zone, Values json_to_column_value; Typed says
--                     which values a type has; Reported has the SQL types and sizes of
--                     the client's types; the other files have the proofs
--   Connect/*         src/backend/types/connect_params.rs: Values and Pairs have the parsers of single
--                     keywords, Stages and Params have try_from; src/backend.rs: Auth has what
--                     connect decides; the other files have the proofs
--   Catalog/*         src/backend/metadata.rs: Patterns has the WHERE clauses and the schema, Queries
--                     the queries with query_all_rows of src/backend.rs, Rows and Functions the
--                     catalog functions; Reader says how ODBC and Trino read patterns and
--                     conditions; the other files have the proofs
--   Describe/*        src/backend/describe_param.rs: Params and Requests have the code, the other
--                     files the proofs
--   Information/*     src/backend/info.rs: TypeInfo has the rows of SQLGetTypeInfo, Agreement the proofs
--   Escape/*          src/escape_dialect.rs: Args has split_args, Functions the renaming and rewriting
--                     of `{fn ...}` calls; Grammar says what an argument is (one without
--                     comments), Targets which keywords stand for a type; Splitting and Calls
--                     have the proofs
--
-- State. A connection's `Arc`s are one record, Store, beside the state of the HTTP client, and each
-- operation takes it and gives it back. A statement's Options that are set together by exec_direct
-- (client, runtime, cancel_state, txn, liveness) are the one flag `online`. `raw_columns` and
-- `session_zone` never change after exec_direct and are part of the client's decoding and of the
-- conversion. Timers and log lines are left out. The store holds a CancelState for each token: a
-- statement's field `token` says which one is its own, and execute and exec_direct take the token
-- that core gives to the new statement. A cancellation by another thread is a store in which the
-- flag of a token is set before a fetch; one that arrives within a fetch shows as the coordinator's
-- answer.
-- Poisoned locks are left out.
--
-- Numbers. Counters wrap at the width of their Rust type. Integers of fixed width in values are ℤ or
-- ℕ; floats are their bit patterns. Texts are lists of code points. A diagnostic's wording is
-- represented by which message it is.
--
-- Fuel. Decimal formatting has n + 1 steps for n, more than its digits. The fetch loop and the drain
-- take as fuel the number of rounds or requests: one round more than there are pages left is enough
-- for a fetch, and as many requests as there are pages for a drain.
-- exec_direct takes the number of further pages that it may ask for before the coordinator names the
-- columns.
--
-- Parameters. The HTTP client (trino-rust-client) is a record of functions on its own state, with its
-- documented behaviour around the transaction id in TracksTransactions. chrono's calendar and Rust's
-- float formatter are in Params.Literal.Externals, and FloatsLackQuotes says that the formatter
-- prints no quote. Core's `column_size` is an argument of the functions that report precisions. Names of
-- Conversion.Agreement says which of the client's types a type name stands for.
-- Connect.Keywords.Crates has the readers of time zones and encodings and the crate's version. A
-- HashMap is a list in which each name stands once, a HashSet a list without repetition; a login's
-- shared state is a number, and only a new login makes a new one. Conversion.Zones.Chrono has chrono's
-- and chrono-tz's local times, and KeepsTime what they document; a shift out of chrono's calendar,
-- which panics, is not shown. Conversion.Values.Readers has the printing of JSON, Rust's conversions
-- between numbers, the reader of base64 and the clock. Catalog.Queries.Queries has the client's two
-- requests for a catalog query. `usize` has 64 bits.
--
-- Not modelled: building the HTTP client, reading certificates and prompting (input and output), the
-- answers of SQLGetInfo (bitmaps of core's constants).
pub mod Base
pub mod Column
pub mod Errors
pub mod Params
pub mod Session
pub mod Statement
pub mod Conversion
pub mod Connect
pub mod Information
pub mod Escape
pub mod Catalog
pub mod Describe
