-- ===== src/Scheduler/Start.antt =====
-- The start of `execute` in crates/fluxion-host/src/scheduler.rs, and the whole of it.
use fluxion.Prelude.{
  String, List, [], ◌∷◌, ◌++◌, Map, Bool, true, false, not, ◌&&◌, ◌||◌, all, contains, contains_key,
  if◌then◌else◌,
}
use fluxion.Outcome.{Outcome, ok, err, ◌>>=◌}
use fluxion.State.{JobStatus, pending, succeeded, from_succeeded}
use fluxion.Workflow.Types.{JobDefinition, ExecutorKind, remote, local}
use fluxion.Dag.Build.{roots}
use fluxion.Expand.Defs.{is_some}
use fluxion.Scheduler.Run.{
  World, Exec, Step, JobEvent, ExecError, remote_without_workers, upsert_job, set_status, start_job,
}
use fluxion.Scheduler.Loop.{Progress, event_loop}

abbrev pub is_remote : ExecutorKind → Bool
is_remote remote = true
is_remote local = false

abbrev pub all_pending : Map JobDefinition → Map JobStatus
all_pending [] = []
all_pending ((id, def) ∷ jobs) = (id, pending) ∷ all_pending jobs

abbrev pub initial : Map JobDefinition → Exec
initial jobs = record {
  statuses = all_pending jobs;
  job_results = [];
  job_outputs = [];
  in_flight = 0;
  overall_success = true;
  rr = 0;
  upserts = [];
  launches = [];
}

abbrev pub add_previous : String → JobStatus → Exec → Exec
add_previous id (succeeded elapsed) x = record x {
  job_results = x.job_results ++ from_succeeded id elapsed true ∷ [];
}
add_previous id status x = x

module _ (w : World) where
  -- A remote job needs a worker of its own, or some worker.
  unfoldable pub check_remote : Map JobDefinition → Exec → Step
  check_remote [] x = ok x
  check_remote ((id, def) ∷ jobs) x =
      let rest = check_remote jobs x in
      if is_remote def.executor
        && not (is_some def.worker)
        && (elim w.workers [ [] ↦ true | _ ↦ false ])
      then err (remote_without_workers id)
      else rest

  -- The jobs that succeeded in a previous run.
  unfoldable pub seed : Map JobStatus → Exec → Step
  unfolding upsert_job
  seed [] x = ok x
  seed ((id, status) ∷ rest) x = do
    x' ← upsert_job w id status x
    seed rest (add_previous id status (set_status w id status x'))

  unfoldable pub start_roots : List String → Exec → Step
  unfolding start_job
  start_roots [] x = ok x
  start_roots (id ∷ ids) x = do
    x' ← elim (contains_key id w.pre_succeeded) [ true ↦ ok x | false ↦ start_job w false id x ]
    start_roots ids x'

  -- Neither done before nor a root, and all its dependencies were done before.
  abbrev pub resumes : String → JobDefinition → Bool
  resumes id def =
      not (contains_key id w.pre_succeeded || contains id (roots w.dag))
      && all (λ d. contains_key d w.pre_succeeded) def.depends_on

  unfoldable pub start_resumed : Map JobDefinition → Exec → Step
  unfolding start_job
  start_resumed [] x = ok x
  start_resumed ((id, def) ∷ jobs) x = do
    x' ← elim (resumes id def) [ true ↦ start_job w true id x | false ↦ ok x ]
    start_resumed jobs x'

  unfoldable pub start : Step
  unfolding check_remote seed start_roots start_resumed
  start = do
    x0 ← check_remote w.wf.jobs (initial w.wf.jobs)
    x1 ← seed w.pre_succeeded x0
    x2 ← start_roots (roots w.dag) x1
    start_resumed w.wf.jobs x2

  -- The run as far as the events of the list take it.
  unfoldable pub run_events : List JobEvent → Outcome ExecError Progress
  unfolding start event_loop
  run_events events = do x ← start; event_loop w events x
