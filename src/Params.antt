-- ===== src/Params.antt =====
-- backend/params.rs: bound parameters rendered as SQL literals into the statement text.
pub mod Literal
pub mod Interpolate
pub mod Lexing
pub mod Quotes
pub mod Balance
pub mod Template
pub mod Counting
pub mod Structure
pub mod ReadString
pub mod Comment
mod Tests
