-- ===== src/Statement.antt =====
-- backend/execute.rs: the statement, its pages and its cursor.
pub mod State
pub mod Fetch
pub mod Invariant
pub mod Close
pub mod Streaming
pub mod Endings
pub mod Cancel
pub mod Terminator
pub mod Operations
pub mod Submit
pub mod Execute
pub mod Execution
pub mod Described
mod Tests
mod DescribedTests
