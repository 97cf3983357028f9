-- ===== src/Dag/Build.antt =====
-- Dag::build, roots, insert_nodes and remove_node of crates/fluxion-core/src/dag.rs.
use fluxion.Prelude.{String, List, [], ◌∷◌, ◌++◌, Map, keep, not, ◌==◌, insert, remove}
use fluxion.Outcome.{Outcome, ok, ◌>>=◌}
use fluxion.Workflow.Types.{JobDefinition, Workflow}
use fluxion.Dag.Kahn.{Deps, DagError, dependents_of, kahn_sort, push_all}

pub record Dag : Type 0 where
  pub topo_order : List String
  pub deps : Deps
  pub dependents : Deps

-- job → its depends_on
abbrev pub deps_of_jobs : Map JobDefinition → Deps
deps_of_jobs [] = []
deps_of_jobs ((id, def) ∷ jobs) = (id, def.depends_on) ∷ deps_of_jobs jobs

-- job → the empty list
abbrev pub no_dependents : Map JobDefinition → Deps
no_dependents [] = []
no_dependents ((id, def) ∷ jobs) = (id, []) ∷ no_dependents jobs

unfoldable pub build : Workflow → Outcome DagError Dag
build wf = do
  topo_order ← kahn_sort (deps_of_jobs wf.jobs)
  ok (record {
    topo_order = topo_order;
    deps = deps_of_jobs wf.jobs;
    dependents = dependents_of (deps_of_jobs wf.jobs) (no_dependents wf.jobs);
  })

unfoldable pub roots_of : Deps → List String
roots_of [] = []
roots_of ((id, d) ∷ rest) = let others = roots_of rest in elim d [ [] ↦ id ∷ others | _ ↦ others ]

unfoldable pub roots : Dag → List String
unfolding roots_of
roots dag = roots_of dag.deps

unfoldable pub insert_node : String → List String → Dag → Dag
insert_node job_id deps dag = record {
  topo_order = dag.topo_order ++ job_id ∷ [];
  deps = insert job_id deps dag.deps;
  dependents = push_all job_id deps (insert job_id [] dag.dependents);
}

unfoldable pub insert_nodes : Deps → Dag → Dag
unfolding insert_node
insert_nodes [] dag = dag
insert_nodes ((job_id, deps) ∷ rest) dag = insert_nodes rest (insert_node job_id deps dag)

abbrev drop_waiter : String → Deps → Deps
drop_waiter id [] = []
drop_waiter id ((k, waiters) ∷ m) = (k, keep (λ w. not (w == id)) waiters) ∷ drop_waiter id m

unfoldable pub remove_node : String → Dag → Dag
remove_node job_id dag = record {
  topo_order = keep (λ id. not (id == job_id)) dag.topo_order;
  deps = remove job_id dag.deps;
  dependents = drop_waiter job_id (remove job_id dag.dependents);
}
