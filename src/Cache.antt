-- ===== src/Cache.antt =====
-- crates/fluxion-host/src/cache.rs and the runs of a component in crates/fluxion-host/src/lib.rs.
pub mod Disk
pub mod Run
pub mod Coherent
pub mod Transparent
pub mod Runs
