-- ===== src/Catalog.antt =====
-- backend/metadata.rs: the catalog functions.
pub mod Patterns
pub mod Reader
mod Escapes
mod Filters
mod Clauses
pub mod Selection
pub mod Queries
pub mod Rows
pub mod Functions
pub mod Answers
pub mod Identifier
mod Tests
