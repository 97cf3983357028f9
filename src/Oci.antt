-- ===== src/Oci.antt =====
-- crates/fluxion-host/src/oci.rs: the client of component registries.
pub mod Target
pub mod Targets
pub mod Client
pub mod Verified
