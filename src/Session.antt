-- ===== src/Session.antt =====
-- The connection: the client it talks through, the transaction state and the cancel state that it
-- shares with its statements (backend.rs).
pub mod Client
pub mod Shared
pub mod Transaction
pub mod Commit
pub mod Tests
