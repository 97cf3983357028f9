-- ===== src/Store.antt =====
-- crates/fluxion-core/src/store.rs: the store of runs, workers and schedules. A table is the list of
-- its rows in the order of their rowids, and an SQL statement of the source is a function on it.
-- Where a statement leaves the order of equal rows open, they stay in the order of the table. A
-- failure of SQLite itself is left out.
pub mod Tables
pub mod Runs
pub mod Workers
pub mod Schedules
pub mod Status
pub mod Reload
pub mod Claims
pub mod Prune
pub mod Health
