-- ===== src/Dag.antt =====
-- crates/fluxion-core/src/dag.rs: the graph of a workflow's jobs. A hash map is the list of its
-- entries in the order in which it is iterated, and a map that is built from another is iterated
-- in the order of the other; the theorems hold for every such order.
pub mod Kahn
pub mod Order
pub mod Notify
pub mod Loop
pub mod Positions
pub mod Consistent
pub mod Sort
pub mod Correct
pub mod Build
pub use Kahn.{DagError, Deps, dependents_of, kahn_sort}
pub use Build.{Dag, build, roots, insert_nodes, remove_node}
