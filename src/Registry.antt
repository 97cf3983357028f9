-- ===== src/Registry.antt =====
-- crates/fluxion-core/src/registry.rs: references to components in a registry, and the local table of
-- the components that were pulled.
pub mod Reference
pub mod Roundtrip
pub mod Entries
pub mod Resolve
