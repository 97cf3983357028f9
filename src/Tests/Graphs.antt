-- ===== src/Tests/Graphs.antt =====
-- Tests of the graph.
use fluxion.Prelude.{
  String, List, [], ◌∷◌, ◌≡◌, ◌⊎◌, refl, inl, inr, IsMap, String-cases, subst, contains_key, false,
  arith,
}
use fluxion.Outcome.{ok, err}
use fluxion.Workflow.Validate.{validate}
use fluxion.Workflow.Cycle.{has_cycle}
use fluxion.Dag.Kahn.{circular_dependency, kahn_sort}
use fluxion.Dag.Build.{insert_nodes, Dag, build}
use fluxion.Dag.Order.{IsTopoOrder}
use fluxion.Dag.Sort.{kahn_sort-cases}
use fluxion.Dag.Consistent.{IsConsistent, IsExtension, insert_nodes-IsConsistent}
use fluxion.Dag.Correct.{build-of_valid, build-IsConsistent}
use fluxion.Tests.Samples.{chain, chain_deps, chain_dag, pair-IsMap, job}

chain_deps-IsMap : IsMap chain_deps
chain_deps-IsMap = pair-IsMap {V = List String} "b" "a" ("a" ∷ []) [] refl

chain-IsMap : IsMap chain.jobs
chain-IsMap = pair-IsMap "b" "a" (job ("a" ∷ [])) (job []) refl

chain-build : build chain ≡ ok chain_dag
unfolding build kahn_sort
chain-build = refl

chain-validate : validate chain ≡ ok (record { errors = []; warnings = [] })
unfolding validate has_cycle
chain-validate = refl

kahn_sort-cases_example :
    ((o : List String) × (kahn_sort chain_deps ≡ ok o) × IsTopoOrder chain_deps o)
    ⊎ ((kahn_sort chain_deps ≡ err circular_dependency)
        × ((t : List String) → ¬ IsTopoOrder chain_deps t))
kahn_sort-cases_example = kahn_sort-cases chain_deps chain_deps-IsMap

build-of_valid_example :
    (dag : Dag) × (build chain ≡ ok dag)
    × IsConsistent dag
    × (dag.deps ≡ ("b", "a" ∷ []) ∷ ("a", []) ∷ [])
build-of_valid_example =
    build-of_valid chain (record { errors = []; warnings = [] }) chain-IsMap chain-validate refl

chain_dag-IsConsistent : IsConsistent chain_dag
chain_dag-IsConsistent = (build-IsConsistent chain chain_dag chain-IsMap chain-build).0

one_more : IsExtension chain_dag (("c", "b" ∷ []) ∷ [])
one_more = record {
  distinct = λ k. ground arith;
  fresh = λ k h. elim (String-cases "c" k) [
    | inl (e, _) ↦ subst (λ j. contains_key j chain_dag.deps ≡ false) e refl
    | inr (_, e) ↦ absurd (ground arith)
  ];
  known = ((refl, tt), tt);
}

insert_nodes-IsConsistent_example : IsConsistent (insert_nodes (("c", "b" ∷ []) ∷ []) chain_dag)
insert_nodes-IsConsistent_example =
    insert_nodes-IsConsistent (("c", "b" ∷ []) ∷ []) chain_dag chain_dag-IsConsistent one_more

linear_chain :
    kahn_sort (("a", []) ∷ ("b", "a" ∷ []) ∷ ("c", "b" ∷ []) ∷ []) ≡ ok ("a" ∷ "b" ∷ "c" ∷ [])
unfolding kahn_sort
linear_chain = refl

cycle_is_detected : kahn_sort (("a", "b" ∷ []) ∷ ("b", "a" ∷ []) ∷ []) ≡ err circular_dependency
unfolding kahn_sort
cycle_is_detected = refl
