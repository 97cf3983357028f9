-- ===== src/Tests/Runs.antt =====
-- Tests of the scheduler.
use fluxion.Prelude.{
  IsMap, lookup, contains, ◌↔◌, ◌++◌, ◌==◌, All, if◌then◌else◌, ℕ, String, List, [], ◌∷◌, Map, none,
  some, true, false, not, ◌≡◌, refl,
}
use fluxion.Outcome.{ok}
use fluxion.State.{
  cancelled, pending, JobStatus, succeeded, failed, running, from_succeeded_with_metrics,
  from_failed,
}
use fluxion.Dag.Build.{Dag, roots, build}
use fluxion.Dag.Kahn.{kahn_sort}
use fluxion.Scheduler.Execute.{downstream_inclusive, retry_states, has_succeeded}
use fluxion.Scheduler.Downstream.{Downstream, downstream_inclusive_iff}
use fluxion.Scheduler.Retry.{retry_states_iff}
use fluxion.Scheduler.When.{eval_when}
use fluxion.Scheduler.FanIn.{Reducer, build_fanin_input}
use fluxion.Scheduler.Workers.{round_robin, resolve_workers, WorkerInfo}
use fluxion.Scheduler.Failover.{
  Reply, answered, refused, IsUnreachable, Stops, run_with_failover, run_with_failover-cases,
}
use fluxion.Scheduler.Run.{World, JobEvent, Launch}
use fluxion.Scheduler.Loop.{Progress, finished, on_failed, find_parent}
use fluxion.Scheduler.Start.{run_events, initial}
use fluxion.Scheduler.History.{IsDependencyOrdered, has_failed}
use fluxion.Scheduler.Safe.{IsPrepared, run_events-IsDependencyOrdered, run_events-verdict}
use fluxion.Scheduler.Siblings.{on_failed-expanded}
use fluxion.Workflow.Types.{Workflow}
use fluxion.Tests.Samples.{chain, chain_dag, job, json, pair-IsMap}
use fluxion.Tests.Expansions.{each, fan_out, expanded, fan_out-expand}

abbrev reducer : Reducer
reducer = record {
  Value = ℕ;
  null = 0;
  from_slice = λ b. none;
  as_object = λ v. none;
  array_to_vec = λ vs. some [];
  object_to_vec = λ m. some [];
  run_component = λ c b p. none;
}

abbrev world : Workflow → Dag → Map (List String) → World
world wf dag groups = record {
  wf = wf;
  dag = dag;
  foreach_map = groups;
  pre_succeeded = [];
  workers = [];
  strategy = round_robin;
  reducer = reducer;
  accepts = λ n. true;
  health = λ n url. none;
}

abbrev pub chain_world : World
chain_world = world chain chain_dag []

abbrev reports : String → JobStatus → JobEvent
reports id status = record {
  job_id = id;
  status = status;
  output = none;
  compile_us = 0;
  instantiate_us = 0;
  execute_us = 0;
}

-- The first job succeeds, and the second one fails.
abbrev story : List JobEvent
story = reports "a" (succeeded 5) ∷ reports "b" (failed 6 "trap") ∷ []

abbrev chain_history : List (String × JobStatus)
chain_history = ("b", failed 6 "trap") ∷ ("b", running) ∷ ("a", succeeded 5) ∷ ("a", running) ∷ []

abbrev launch : String → Launch
launch id = record { job = id; targets = []; input = none }

abbrev chain_end : Progress
chain_end = finished (record {
  statuses = ("b", failed 6 "trap") ∷ ("a", succeeded 5) ∷ [];
  job_results = from_succeeded_with_metrics "a" 5 0 0 0 ∷ from_failed "b" 6 "trap" ∷ [];
  job_outputs = [];
  in_flight = 0;
  overall_success = false;
  rr = 0;
  upserts = chain_history;
  launches = launch "b" ∷ launch "a" ∷ [];
})

chain-run : run_events chain_world story ≡ ok chain_end
unfolding run_events roots resolve_workers build_fanin_input
chain-run = refl

pub chain-IsPrepared : IsPrepared chain_world
chain-IsPrepared = record {
  jobs = pair-IsMap "b" "a" (job ("a" ∷ [])) (job []) refl;
  deps = refl;
  previous = refl;
}

run_events-IsDependencyOrdered_example : IsDependencyOrdered chain_dag.deps chain_history
run_events-IsDependencyOrdered_example =
    run_events-IsDependencyOrdered chain_world story chain_end chain-IsPrepared refl chain-run

run_events-verdict_example : false ≡ not (has_failed chain_history)
run_events-verdict_example =
    run_events-verdict chain_world story chain_end chain-IsPrepared refl chain-run

abbrev fan_out_dag : Dag
fan_out_dag = record { topo_order = []; deps = []; dependents = [] }

on_failed-expanded_example :
    on_failed
      (world expanded.workflow fan_out_dag expanded.foreach_map)
      "p.0"
      (initial expanded.workflow.jobs)
    ≡ ok (initial expanded.workflow.jobs, false)
unfolding find_parent
on_failed-expanded_example =
    on_failed-expanded json none fan_out expanded (pair-IsMap "p" "q" each (job ("p" ∷ [])) refl)
      fan_out-expand (world expanded.workflow fan_out_dag expanded.foreach_map) refl refl "p.0"
      (initial expanded.workflow.jobs)

when_succeeded : eval_when "a.b.status == 'SUCCESS'" (("a.b", succeeded 5) ∷ []) ≡ true
unfolding eval_when
when_succeeded = refl

when_not : eval_when "a.status != 'SUCCESS'" (("a", succeeded 5) ∷ []) ≡ false
unfolding eval_when
when_not = refl

when_unknown : eval_when "a.status == 'CANCELLED'" (("a", cancelled) ∷ ("b", pending) ∷ []) ≡ false
unfolding eval_when
when_unknown = refl

-- The first worker is down, and the second one answers.
abbrev replies : WorkerInfo → Reply ℕ
replies w = if w.url == "http://up" then answered 7 else refused "connection refused" true

abbrev down : WorkerInfo
down = record { url = "http://down"; tls = none }

abbrev up : WorkerInfo
up = record { url = "http://up"; tls = none }

run_with_failover-cases_example :
    (pre : List WorkerInfo) × (w : WorkerInfo) × (post : List WorkerInfo) × (down ∷ up ∷ []
      ≡ pre ++ w ∷ post)
    × All (IsUnreachable replies) pre
    × Stops replies pre w post [] (run_with_failover replies (down ∷ up ∷ []))
run_with_failover-cases_example = run_with_failover-cases replies down (up ∷ [])

downstream_inclusive_iff_example :
    (found : List String) × (downstream_inclusive chain_dag "a" ≡ ok found)
    × ((x : String) → (contains x found ≡ true) ↔ Downstream chain_dag.dependents "a" x)
downstream_inclusive_iff_example = downstream_inclusive_iff chain_dag "a"

abbrev previous : Map JobStatus
previous = ("a", succeeded 5) ∷ ("b", failed 6 "trap") ∷ []

previous-IsMap : IsMap previous
previous-IsMap = pair-IsMap "a" "b" (succeeded 5) (failed 6 "trap") refl

chain-build_ok : build chain ≡ ok chain_dag
unfolding build kahn_sort
chain-build_ok = refl

retry_states_iff_example :
    (pre : Map JobStatus) × (retry_states chain previous "b" ≡ ok pre)
    × ((id : String) (s : JobStatus)
        → (lookup id pre ≡ some s) ↔ (
            (lookup id previous ≡ some s)
            × (has_succeeded s ≡ true)
            × ¬ Downstream chain_dag.dependents "b" id))
retry_states_iff_example =
    retry_states_iff chain chain_dag previous "b" chain-build_ok previous-IsMap
