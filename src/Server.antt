-- ===== src/Server.antt =====
-- cmd/server: how the server is configured and started.
pub mod Setup
pub mod Main
