-- ===== src/Remote.antt =====
-- crates/fluxion-host/src/remote.rs: how a host runs a job on a worker.
pub mod Client
pub mod Async
pub mod Ends
pub mod Worker
pub mod Served
