-- ===== src/Web.antt =====
-- The HTTP API and the pages of the host: crates/fluxion-host/src/api.rs and ui.rs.
pub mod Ui
pub mod Escaped
