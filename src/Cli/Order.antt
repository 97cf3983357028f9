-- ===== src/Cli/Order.antt =====
-- run --dry-run and dot of crates/fluxion-cli/src/main.rs: the jobs of a workflow in order.
use fluxion.Prelude.{
  ℕ, suc, ◌+◌, String, List, [], ◌∷◌, ◌++◌, Map, map, none, some, length, lookup, decimal,
  replace_char, ◌≡◌, refl, sym, ap, subst, ◌∙◌, arith, All, ◌<◌, count, keys, contains_key,
  lookup-of_key, eq_iff, true, IsMap, length-le_of_count,
}
use fluxion.Outcome.{Outcome, ok, panic, missing_key, Returns, Returns-bind, ◌>>=◌}
use fluxion.Workflow.Types.{JobDefinition, Workflow}
use fluxion.Workflow.Validate.{◌<>◌, join, ValidationReport, is_ok, validate}
use fluxion.Dag.Kahn.{Deps, DagError}
use fluxion.Dag.Build.{Dag, build, deps_of_jobs}
use fluxion.Dag.Correct.{build-of_valid, build-IsConsistent}

unfoldable pub dot_id : String → String
unfolding replace_char
dot_id s = "\"" <> replace_char 0x22 "\\\"" s <> "\""

-- The lines behind the number of a job.
abbrev pub order_line : ℕ → String → List String → String
order_line i job_id [] = "  " <> decimal i <> ". " <> job_id <> "  (no deps)"
order_line i job_id (d ∷ deps) =
    "  " <> decimal i <> ". " <> job_id <> "  (depends: " <> join ", " (d ∷ deps) <> ")"

-- dag.deps[job_id] panics if the key is missing.
abbrev pub deps_at : Deps → String → Outcome DagError (List String)
deps_at deps job_id = elim (lookup job_id deps) [ none ↦ panic missing_key | some d ↦ ok d ]

abbrev pub order_lines : Deps → ℕ → List String → Outcome DagError (List String)
order_lines deps i [] = ok []
order_lines deps i (job_id ∷ order) = do
  d ← deps_at deps job_id
  rest ← order_lines deps (suc i) order
  ok (order_line i job_id d ∷ rest)

unfoldable pub order_table : String → Dag → Outcome DagError (List String)
unfolding decimal
order_table name dag = do
  rest ← order_lines dag.deps 1 dag.topo_order
  ok (
      ("Workflow: " <> name <> " (" <> decimal (length dag.topo_order) <> " jobs)")
      ∷ ""
      ∷ "Execution order:"
      ∷ rest)

unfoldable pub cmd_dry_run : Workflow → Outcome DagError (List String)
unfolding build order_table
cmd_dry_run wf = do dag ← build wf; order_table wf.name dag

abbrev pub edges_from : String → List String → List String
edges_from job_id [] = []
edges_from job_id (dep ∷ deps) =
    ("  " <> dot_id dep <> " -> " <> dot_id job_id <> ";") ∷ edges_from job_id deps

abbrev pub edges : Deps → List String
edges [] = []
edges ((job_id, deps) ∷ rest) = edges_from job_id deps ++ edges rest

-- cmd_dot, once the workflow is loaded.
unfoldable pub dot_lines : Workflow → Outcome DagError (List String)
unfolding build dot_id
dot_lines wf = do
  dag ← build wf
  ok (
      ("digraph " <> dot_id wf.name <> " {")
      ∷ (map (λ id. "  " <> dot_id id <> ";") dag.topo_order ++ (edges dag.deps ++ "}" ∷ [])))

-- Every job of the order is a key, so that no lookup of its dependencies panics.
order_lines-Returns :
    (deps : Deps) (i : ℕ) (order : List String)
    → All (λ k. contains_key k deps ≡ true) order
    → Returns (λ lines. length lines ≡ length order) (order_lines deps i order)
order_lines-Returns deps i [] a = refl
order_lines-Returns deps i (k ∷ order) a =
    let (d, found) = lookup-of_key k deps a.0 in
    let at : deps_at deps k ≡ ok d =
      ap (λ o. elim o [ none ↦ panic missing_key | some d ↦ ok d ]) found in
    let rest = order_lines-Returns deps (suc i) order a.1 in
    subst
      (λ o.
        Returns (λ lines. length lines ≡ suc (length order))
          (o >>= λ d'. order_lines deps (suc i) order >>= λ r. ok (order_line i k d' ∷ r)))
      (sym at)
      (Returns-bind (λ lines. length lines ≡ length order)
        (λ lines. length lines ≡ suc (length order)) (order_lines deps (suc i) order)
        (λ r. ok (order_line i k d ∷ r)) rest (λ r e. ap suc e))

contains_key-of_count :
    (k : String) (deps : Deps) → 0 < count k (keys deps) → contains_key k deps ≡ true
contains_key-of_count k [] h = absurd (omega arith)
contains_key-of_count k ((j, v) ∷ deps) h = ground (arith, contains_key-of_count k deps)

All-of_count :
    (deps : Deps) (order : List String)
    → ((k : String) → 0 < count k order → 0 < count k (keys deps))
    → All (λ k. contains_key k deps ≡ true) order
All-of_count deps [] h = tt
All-of_count deps (k ∷ order) h = (
  contains_key-of_count k deps (h k (ground (arith, eq_iff k k))),
  All-of_count deps order (λ j p. h j (omega arith)),
)

length-deps_of_jobs : (jobs : Map JobDefinition) → length (keys (deps_of_jobs jobs)) ≡ length jobs
length-deps_of_jobs [] = refl
length-deps_of_jobs ((id, def) ∷ jobs) = ap suc (length-deps_of_jobs jobs)

-- For a workflow with distinct job names that validation accepts, the dry run prints a line for each
-- job and three before them: it neither reports a circular dependency nor panics.
pub cmd_dry_run-of_valid :
    (wf : Workflow) (r : ValidationReport)
    → IsMap wf.jobs
    → validate wf ≡ ok r
    → is_ok r ≡ true
    → Returns (λ lines. length lines ≡ length wf.jobs + 3) (cmd_dry_run wf)
unfolding cmd_dry_run order_table
cmd_dry_run-of_valid wf r m v good =
    let (dag, built, consistent, named) = build-of_valid wf r m v good in
    let (_, deps) = build-IsConsistent wf dag m built in
    let complete = consistent.topo.complete in
    let order =
      order_lines-Returns dag.deps 1 dag.topo_order
        (All-of_count dag.deps dag.topo_order (λ k p. omega (arith, complete k))) in
    let shorter =
      length-le_of_count dag.topo_order (keys dag.deps) (λ k. omega (arith, complete k)) in
    let longer =
      length-le_of_count (keys dag.deps) dag.topo_order (λ k. omega (arith, complete k)) in
    let jobs : length (keys dag.deps) ≡ length wf.jobs =
      ap (λ (d : Deps). length (keys d)) deps ∙ length-deps_of_jobs wf.jobs in
    subst (λ o. Returns (λ lines. length lines ≡ length wf.jobs + 3) (o >>= order_table wf.name))
      (sym built)
      (Returns-bind (λ lines. length lines ≡ length dag.topo_order)
        (λ lines. length lines ≡ length wf.jobs + 3) (order_lines dag.deps 1 dag.topo_order) _ order
        (λ rest e. omega (arith, shorter, longer, jobs)))
