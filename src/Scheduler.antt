-- ===== src/Scheduler.antt =====
-- crates/fluxion-host/src/scheduler.rs: which jobs run when, where, and on what input.
pub mod When
pub mod Workers
pub mod FanIn
pub mod Run
pub mod Loop
pub mod Start
pub mod History
pub mod Ordered
pub mod Safe
pub mod Siblings
pub mod Failover
pub mod Launch
pub mod Launched
pub mod Outputs
pub mod Pool
pub mod Execute
pub mod Downstream
pub mod Retry
pub mod Entry
