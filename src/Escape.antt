-- ===== src/Escape.antt =====
-- src/escape_dialect.rs: the translation of ODBC's `{fn NAME(args)}` escapes into Trino's SQL.
pub mod Args
pub mod Functions
pub mod Grammar
pub mod Splitting
pub mod Targets
pub mod Calls
mod Tests
