-- ===== src/Connect.antt =====
-- src/backend/types/connect_params.rs and the part of src/backend.rs that connects.
pub mod Keywords
pub mod Values
pub mod Pairs
pub mod Stages
pub mod Params
pub mod Accepted
pub mod Protection
pub mod ProxyAddress
pub mod PairText
pub mod Auth
pub mod Logins
pub mod Credentials
pub mod Validation
mod Tests
