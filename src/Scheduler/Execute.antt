-- ===== src/Scheduler/Execute.antt =====
-- `execute` as a whole and what calls it, run_inner and retry_inner, in
-- crates/fluxion-host/src/scheduler.rs. The run's name and its path are left out.
use fluxion.Prelude.{
  ℕ, zero, suc, ◌+◌, String, List, [], ◌∷◌, ◌++◌, Map, Option, none, some, Bool, true, false, not,
  ◌==◌, ◌&&◌, length, contains, if◌then◌else◌,
}
use fluxion.Outcome.{Outcome, ok, err, panic, out_of_fuel, ◌>>=◌, ◌>>◌}
use fluxion.State.{JobStatus, succeeded, JobResult, RunResult, as_millis}
use fluxion.Workflow.Types.{Workflow}
use fluxion.Dag.Kahn.{Deps, DagError, entries_of}
use fluxion.Dag.Build.{Dag, build}
use fluxion.Expand.Defs.{Json, ExpandError, ExpandedWorkflow, expand_foreach}
use fluxion.Scheduler.FanIn.{Reducer}
use fluxion.Scheduler.Workers.{LbStrategy, Health, WorkerInfo}
use fluxion.Scheduler.Run.{World, Exec, JobEvent, ExecError}
use fluxion.Scheduler.Loop.{finished, waits}
use fluxion.Scheduler.Start.{run_events}
use fluxion.Scheduler.Pool.{Directory, effective_workers_info}

-- The options of `execute`, with the answers of what is outside.
pub record ExecOpts : Type 1 where
  pub json : Json
  pub reducer : Reducer
  pub accepts : ℕ → Bool
  pub health : ℕ → Health
  pub pre_succeeded : Map JobStatus
  pub strategy : LbStrategy
  pub workers : List WorkerInfo

pub data RunError : Type 0 where
  not_expanded : ExpandError → RunError
  no_graph : DagError → RunError
  not_executed : ExecError → RunError
  store_not_opened run_not_created run_not_completed run_not_found : RunError

abbrev pub as_run_error {ℓ} :
    {E : Type 0} {A : Type ℓ} → (E → RunError) → Outcome E A → Outcome RunError A
as_run_error f (ok a) = ok a
as_run_error f (err e) = err (f e)
as_run_error f (panic p) = panic p

abbrev pub world_of : ExecOpts → ExpandedWorkflow → Dag → World
world_of o expanded dag = record {
  wf = expanded.workflow;
  dag = dag;
  foreach_map = expanded.foreach_map;
  pre_succeeded = o.pre_succeeded;
  workers = o.workers;
  strategy = o.strategy;
  reducer = o.reducer;
  accepts = o.accepts;
  health = o.health;
}

-- How many results say "succeeded".
unfoldable pub count_succeeded : List JobResult → ℕ
count_succeeded [] = 0
count_succeeded (r ∷ rs) =
    let rest = count_succeeded rs in if r.status == "succeeded" then suc rest else rest

unfoldable pub finish : World → String → ℕ → Exec → RunResult
unfolding count_succeeded
finish w run_id elapsed x = record {
  run_id = run_id;
  workflow_name = w.wf.name;
  jobs = x.job_results;
  total_elapsed_ms = as_millis elapsed;
  succeeded = count_succeeded x.job_results;
  total = length w.dag.topo_order;
  success = x.overall_success;
}

-- The run on the events of a list; nothing is returned while it waits for another event.
unfoldable pub execute :
    Workflow → ExecOpts → String → ℕ → List JobEvent → Outcome RunError (Option RunResult)
unfolding finish
execute wf o run_id elapsed events = do
  expanded ← as_run_error not_expanded (expand_foreach o.json wf none)
  dag ← as_run_error no_graph (build expanded.workflow)
  g ← as_run_error not_executed (run_events (world_of o expanded dag) events)
  ok (elim g [
    | finished x ↦ some (finish (world_of o expanded dag) run_id elapsed x)
    | waits x ↦ none
  ])

-- The queue of downstream_inclusive; `visited` is its set.
unfoldable pub downstream_loop : ℕ → Deps → List String → List String → Outcome ⊥ (List String)
downstream_loop zero dependents queue visited = panic out_of_fuel
downstream_loop (suc fuel) dependents [] visited = ok visited
downstream_loop (suc fuel) dependents (node ∷ queue) visited = elim (contains node visited) [
  | true ↦ downstream_loop fuel dependents queue visited
  | false ↦ downstream_loop fuel dependents (queue ++ entries_of node dependents) (node ∷ visited)
]

-- The number of entries of the lists of a map.
abbrev pub edges : Deps → ℕ
edges [] = 0
edges ((k, waiters) ∷ m) = length waiters + edges m

-- A job's dependents are queued once, when the job is visited first.
unfoldable pub downstream_inclusive : Dag → String → Outcome ⊥ (List String)
unfolding downstream_loop
downstream_inclusive dag start =
    downstream_loop (edges dag.dependents + 2) dag.dependents (start ∷ []) []

abbrev pub has_succeeded : JobStatus → Bool
has_succeeded (succeeded elapsed) = true
has_succeeded _ = false

-- The jobs of the previous run that are taken over.
unfoldable pub taken_over : List String → Map JobStatus → Map JobStatus
taken_over replay_set [] = []
taken_over replay_set ((id, status) ∷ states) =
    let rest = taken_over replay_set states in
    if has_succeeded status && not (contains id replay_set) then (id, status) ∷ rest else rest

abbrev lift_run {ℓ} : {A : Type ℓ} → Outcome ⊥ A → Outcome RunError A
lift_run (ok a) = ok a
lift_run (err e) = absurd e
lift_run (panic p) = panic p

-- What retry_inner computes before it starts the new run.
unfoldable pub retry_states : Workflow → Map JobStatus → String → Outcome RunError (Map JobStatus)
unfolding downstream_inclusive taken_over
retry_states wf prev_states from_job = do
  dag ← as_run_error no_graph (build wf)
  replay_set ← lift_run (downstream_inclusive dag from_job)
  ok (taken_over replay_set prev_states)

abbrev pub with_workers : Directory → Workflow → ExecOpts → ExecOpts
with_workers d wf o = record o { workers = effective_workers_info d wf }

-- What the store answers about the run's own row.
pub record RunRow : Type 0 where
  pub opens : Bool
  pub creates : Bool
  pub completes : (success : Bool) → Bool
  pub load_run : Option (Map JobStatus)

abbrev check : Bool → RunError → Outcome RunError (Unit {0})
check true e = ok tt
check false e = err e

-- store.complete_run(&run_id, result.success)?
abbrev complete_run : RunRow → Option RunResult → Outcome RunError (Option RunResult)
complete_run row none = ok none
complete_run row (some r) = do check (row.completes r.success) run_not_completed; ok (some r)

unfoldable pub run_inner :
    RunRow
    → Directory
    → Workflow
    → ExecOpts
    → String
    → ℕ
    → List JobEvent
    → Outcome RunError (Option RunResult)
unfolding execute
run_inner row d wf o run_id elapsed events = do
  check row.opens store_not_opened
  check row.creates run_not_created
  r ← execute wf (with_workers d wf o) run_id elapsed events
  complete_run row r

abbrev loaded : Option (Map JobStatus) → Outcome RunError (Map JobStatus)
loaded none = err run_not_found
loaded (some states) = ok states

unfoldable pub retry_inner :
    RunRow
    → Directory
    → Workflow
    → ExecOpts
    → String
    → String
    → ℕ
    → List JobEvent
    → Outcome RunError (Option RunResult)
unfolding retry_states execute
retry_inner row d wf o from_job run_id elapsed events = do
  check row.opens store_not_opened
  prev_states ← loaded row.load_run
  pre_succeeded ← retry_states wf prev_states from_job
  check row.creates run_not_created
  r ←
      execute wf (record (with_workers d wf o) { pre_succeeded = pre_succeeded }) run_id elapsed
        events
  complete_run row r
