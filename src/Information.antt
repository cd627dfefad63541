-- ===== src/Information.antt =====
-- backend/info.rs: the rows of SQLGetTypeInfo.
pub mod TypeInfo
pub mod Agreement
mod Tests
