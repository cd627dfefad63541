-- ===== src/Connect/Credentials.antt =====
-- Which credentials a connection sends (`resolve_auth` and `connect` of backend.rs).
use stackable_odbc_trino.Connect.Auth.{Auth}
