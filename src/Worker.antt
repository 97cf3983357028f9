-- ===== src/Worker.antt =====
-- crates/fluxion-worker/src/lib.rs: the HTTP worker that runs jobs for other hosts.
pub mod Handlers
pub mod Active
pub mod Steps
pub mod Cas
pub mod Table
pub mod Jobs
