-- ===== src/Describe.antt =====
-- backend/describe_param.rs: SQLDescribeParam, answered from Trino's `DESCRIBE INPUT`.
pub mod Params
pub mod Requests
pub mod Answers
pub mod Aborts
pub mod Positions
mod Tests
