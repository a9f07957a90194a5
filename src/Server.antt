-- ===== src/Server.antt =====
-- Package server, internal/server: what its handlers compute from a form.
pub mod Amounts
