-- ===== src/Expand.antt =====
-- crates/fluxion-core/src/expand.rs: foreach jobs and the jobs that they expand to.
pub mod Defs
pub mod Steps
pub mod Rewrite
pub mod Correct
pub mod Known
