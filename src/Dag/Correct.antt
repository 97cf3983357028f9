-- ===== src/Dag/Correct.antt =====
-- Dag::build succeeds on every workflow that validation accepts, and gives a consistent graph.
use fluxion.Prelude.{
  map, refl, ◌<◌, ◌≤◌, String, List, [], ◌∷◌, Map, some, count, keys, lookup, contains_key, IsMap,
  All, ◌==◌, ◌≡◌, sym, subst, arith, true, false, Bool, Option-cases, inl, inr, count-keys_pos, ap,
  Bool-cases, ◌↔◌,
}
use fluxion.Outcome.{Outcome, ok, Returns-value, ◌>>=◌}
use fluxion.Workflow.Types.{JobDefinition, Workflow}
use fluxion.Workflow.Cycle.{depends, has_cycle}
use fluxion.Workflow.Acyclic.{IsCleared, Answer, has_cycle-Answer}
use fluxion.Workflow.Validate.{ValidationReport, is_ok, validate}
use fluxion.Workflow.Valid.{IsJobOk, IsWellFormed, validate_iff}
use fluxion.Dag.Kahn.{Deps, DagError, dependents_of, kahn_sort}
use fluxion.Dag.Order.{IsTopoOrder}
use fluxion.Dag.Positions.{All-at}
use fluxion.Dag.Sort.{kahn_sort-cases}
use fluxion.Dag.Build.{Dag, build, deps_of_jobs, no_dependents, roots, roots_of}
use fluxion.Dag.Notify.{IsMap-tail}
use fluxion.Dag.Consistent.{IsConsistent, dependents-inverse, keys-deps_of_jobs}

pub IsMap-deps : (jobs : Map JobDefinition) → IsMap jobs → IsMap (deps_of_jobs jobs)
IsMap-deps jobs m k = rw (keys-deps_of_jobs jobs) (m k)

abbrev built : Workflow → List String → Dag
built wf order = record {
  topo_order = order;
  deps = deps_of_jobs wf.jobs;
  dependents = dependents_of (deps_of_jobs wf.jobs) (no_dependents wf.jobs);
}

build-eq :
    (wf : Workflow) (o : List String)
    → kahn_sort (deps_of_jobs wf.jobs) ≡ ok o
    → build wf ≡ ok (built wf o)
unfolding build
build-eq wf o e = rw e

built-IsConsistent :
    (wf : Workflow) (o : List String)
    → IsMap wf.jobs
    → IsTopoOrder (deps_of_jobs wf.jobs) o
    → IsConsistent (built wf o)
built-IsConsistent wf o m topo = record { topo = topo; inverse = dependents-inverse wf.jobs m }

-- A graph that is built from a workflow with distinct job names is consistent, and its dependencies are those of the workflow.
pub build-IsConsistent :
    (wf : Workflow) (dag : Dag)
    → IsMap wf.jobs
    → build wf ≡ ok dag
    → IsConsistent dag × (dag.deps ≡ deps_of_jobs wf.jobs)
unfolding build
build-IsConsistent wf dag m h =
    elim (kahn_sort-cases (deps_of_jobs wf.jobs) (IsMap-deps wf.jobs m)) [
      | inl (o, e, topo) ↦
          let e' : dag ≡ built wf o = cc (h, build-eq wf o e) in
          (
            subst IsConsistent (sym e') (built-IsConsistent wf o m topo),
            ap (λ (g : Dag). g.deps) e',
          )
      | inr (e, no_order) ↦
          cc (h, ap (λ (x : Outcome DagError (List String)). x >>= λ t. ok (built wf t)) e)
    ]

All-lookup {ℓ} :
    {V : Type ℓ} (Q : V → Type 0) (k : String) (m : Map V) (v : V)
    → All (λ e. Q e.1) m
    → lookup k m ≡ some v
    → Q v
All-lookup Q k [] v a h = cc
All-lookup Q k ((j, w) ∷ m) v a h = elim (Bool-cases (j == k)) [
  | inl e ↦ subst Q (ground arith) a.0
  | inr e ↦ All-lookup Q k m v a.1 (rw e at h)
]

-- In a workflow that is well formed, dependencies of jobs are jobs.
known_closed :
    (wf : Workflow)
    → IsWellFormed wf
    → (a b : String) → 0 < count a (keys wf.jobs)
    → 0 < count b (depends a wf.jobs)
    → 0 < count b (keys wf.jobs)
known_closed wf w a b pa pb = elim (Option-cases (lookup a wf.jobs)) [
  | inl missing ↦ absurd (ground arith)
  | inr (def, found) ↦
      let job = All-lookup (IsJobOk wf.jobs) a wf.jobs def w.each found in
      count-keys_pos b wf.jobs
        (All-at (λ d. contains_key d wf.jobs ≡ true) def.depends_on b job.known (ground arith))
]

cleared-topo :
    (wf : Workflow)
    → IsMap wf.jobs
    → (c : IsCleared wf.jobs (λ k. 0 < count k (keys wf.jobs)))
    → IsTopoOrder (deps_of_jobs wf.jobs) c.order
cleared-topo wf m c = record {
  complete = λ k. rw (keys-deps_of_jobs wf.jobs) (
      ground (
        arith,
        m k,
        c.once k,
        c.origin k,
        All-at (λ j. 0 < count j c.order) (keys wf.jobs) k c.covers,
      ));
  ordered = c.ordered;
}

pub well_formed-topo :
    (wf : Workflow)
    → IsMap wf.jobs
    → IsWellFormed wf
    → (o : List String) × IsTopoOrder (deps_of_jobs wf.jobs) o
well_formed-topo wf m w =
    let (answer, e, a) =
      Returns-value (Answer wf.jobs known) (has_cycle wf.jobs)
        (has_cycle-Answer wf.jobs known (known_closed wf w) (λ k p. p)) in
    order answer a
  where
    known : String → Type 0
    known k = 0 < count k (keys wf.jobs)

    order :
        (answer : Bool)
        → Answer wf.jobs known answer
        → (o : List String) × IsTopoOrder (deps_of_jobs wf.jobs) o
    order true cycle = absurd (w.acyclic cycle)
    order false c = (c.order, cleared-topo wf m c)

deps-map :
    (jobs : Map JobDefinition)
    → deps_of_jobs jobs ≡ map (λ (e : String × JobDefinition). (e.0, e.1.depends_on)) jobs
deps-map [] = refl
deps-map ((id, def) ∷ jobs) = ap (λ t. (id, def.depends_on) ∷ t) (deps-map jobs)

-- If validation of a workflow with distinct job names reports no error, its graph is built, and the graph
-- is consistent and has the dependencies that the jobs name.
pub build-of_valid :
    (wf : Workflow) (r : ValidationReport)
    → IsMap wf.jobs
    → validate wf ≡ ok r
    → is_ok r ≡ true
    → (dag : Dag) × (build wf ≡ ok dag)
      × IsConsistent dag
      × (dag.deps ≡ map (λ (e : String × JobDefinition). (e.0, e.1.depends_on)) wf.jobs)
build-of_valid wf r m v good =
    let (r', v', iff) = validate_iff wf in
    let same : r ≡ r' = cc (v, v') in
    let (t, topo) = well_formed-topo wf m (iff.0 (subst (λ x. is_ok x ≡ true) same good)) in
    elim (kahn_sort-cases (deps_of_jobs wf.jobs) (IsMap-deps wf.jobs m)) [
      | inl (o, e, placed) ↦
          (built wf o, build-eq wf o e, built-IsConsistent wf o m placed, deps-map wf.jobs)
      | inr (e, no_order) ↦ absurd (no_order t topo)
    ]

count-roots-le : (k : String) (deps : Deps) → count k (roots_of deps) ≤ count k (keys deps)
unfolding roots_of
count-roots-le k [] = omega arith
count-roots-le k ((j, []) ∷ deps) = ground (arith, count-roots-le k deps)
count-roots-le k ((j, d ∷ ds) ∷ deps) = ground (arith, count-roots-le k deps)

roots_of_iff :
    (k : String) (deps : Deps)
    → IsMap deps
    → (0 < count k (roots_of deps)) ↔ (lookup k deps ≡ some [])
unfolding roots_of
roots_of_iff k [] m = (λ h. absurd (omega arith), λ h. cc)
roots_of_iff k ((j, []) ∷ deps) m =
    let ih = roots_of_iff k deps (IsMap-tail j [] deps m) in
    (λ h. ground (arith, ih.0), λ h. ground (arith, ih.1))
roots_of_iff k ((j, d ∷ ds) ∷ deps) m =
    let ih = roots_of_iff k deps (IsMap-tail j (d ∷ ds) deps m) in
    (λ h. ground (arith, ih.0, count-roots-le k deps, m k), λ h. ground (arith, ih.1))

-- The roots of a graph with distinct job names are the jobs without dependencies, each of them once.
pub roots_iff :
    (dag : Dag) (k : String)
    → IsMap dag.deps
    → ((0 < count k (roots dag)) ↔ (lookup k dag.deps ≡ some [])) × (count k (roots dag) ≤ 1)
unfolding roots
roots_iff dag k m = (roots_of_iff k dag.deps m, omega (arith, count-roots-le k dag.deps, m k))
