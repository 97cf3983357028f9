-- ===== src/Workflow.antt =====
-- crates/fluxion-core/src/workflow.rs: the workflow, its validation and the search for a cycle.
pub mod Types
pub mod Cycle
pub mod Acyclic
pub mod Decides
pub mod Validate
pub mod Valid
pub mod Reduce
