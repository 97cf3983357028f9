-- ===== src/Scheduler/Run.antt =====
-- The loop of `execute` in crates/fluxion-host/src/scheduler.rs: what a finished job makes of the
-- state of the run. What is printed and measured is left out.
use fluxion.Prelude.{
  ℕ, ◌+◌, String, List, [], ◌∷◌, ◌++◌, Map, Option, none, some, Bool, true, false, not, length,
  lookup, insert, if◌then◌else◌,
}
use fluxion.Outcome.{Outcome, ok, err, panic, missing_key, ◌>>=◌}
use fluxion.State.{
  JobStatus, pending, ready, running, succeeded, failed, cancelled, skipped, JobResult,
  from_skipped,
}
use fluxion.Workflow.Types.{JobDefinition, Workflow}
use fluxion.Dag.Build.{Dag}
use fluxion.Scheduler.When.{eval_when}
use fluxion.Scheduler.Workers.{WorkerInfo, LbStrategy, Health, resolve_workers}
use fluxion.Scheduler.FanIn.{Bytes, Reducer, build_fanin_input}

pub data ExecError : Type 0 where
  store_failed remote_without_workers : (job : String) → ExecError

-- A call of `launch`: the job, the workers to try, and the input that replaces its own.
pub record Launch : Type 0 where
  pub job : String
  pub targets : List WorkerInfo
  pub input : Option Bytes

pub record JobEvent : Type 0 where
  pub job_id : String
  pub status : JobStatus
  pub output : Option Bytes
  pub compile_us : ℕ
  pub instantiate_us : ℕ
  pub execute_us : ℕ

-- The variables of `execute`. `upserts` are the calls of `store.upsert_job` and `launches` those of
-- `launch`, the latest first.
pub record Exec : Type 0 where
  pub statuses : Map JobStatus
  pub job_results : List JobResult
  pub job_outputs : Map Bytes
  pub in_flight : ℕ
  pub overall_success : Bool
  pub rr : ℕ
  pub upserts : List (String × JobStatus)
  pub launches : List Launch

-- What stays the same during a run. `accepts n` tells whether the store takes the n-th write, and
-- `health n` what the workers answer when the n-th job is launched.
pub record World : Type 1 where
  pub wf : Workflow
  pub dag : Dag
  pub foreach_map : Map (List String)
  pub pre_succeeded : Map JobStatus
  pub workers : List WorkerInfo
  pub strategy : LbStrategy
  pub reducer : Reducer
  pub accepts : ℕ → Bool
  pub health : ℕ → Health

abbrev pub Step : Type 0
Step = Outcome ExecError Exec

-- matches!(s, Succeeded | Skipped | Cancelled)
abbrev pub is_done : JobStatus → Bool
is_done (succeeded elapsed) = true
is_done skipped = true
is_done cancelled = true
is_done _ = false

abbrev pub is_pending : JobStatus → Bool
is_pending pending = true
is_pending _ = false

abbrev pub is_waiting : Option JobStatus → Bool
is_waiting (some pending) = true
is_waiting (some ready) = true
is_waiting _ = false

abbrev pub is_skipped : JobStatus → Bool
is_skipped skipped = true
is_skipped _ = false

abbrev pub is_failed : Option JobStatus → Bool
is_failed (some (failed elapsed reason)) = true
is_failed _ = false

-- statuses[id], dag.deps[id], wf.jobs[id]: a missing key panics.
abbrev pub index {ℓ} : {V : Type ℓ} → String → Map V → Outcome ExecError V
index k m = elim (lookup k m) [ none ↦ panic missing_key | some v ↦ ok v ]

-- deps.iter().all(|d| matches!(statuses[d], ..)): it stops at the first that is not.
unfoldable pub all_done : Map JobStatus → List String → Outcome ExecError Bool
all_done statuses [] = ok true
all_done statuses (d ∷ ds) = do
  s ← index d statuses
  elim (is_done s) [ true ↦ all_done statuses ds | false ↦ ok false ]

unfoldable pub any_skipped : Map JobStatus → List String → Outcome ExecError Bool
any_skipped statuses [] = ok false
any_skipped statuses (d ∷ ds) = do
  s ← index d statuses
  elim (is_skipped s) [ true ↦ ok true | false ↦ any_skipped statuses ds ]

-- A function that can only panic, among those that can fail.
abbrev pub lift {ℓ} : {A : Type ℓ} → Outcome ⊥ A → Outcome ExecError A
lift (ok a) = ok a
lift (err e) = absurd e
lift (panic p) = panic p

module _ (w : World) where
  -- store.upsert_job(run_id, id, status)?
  unfoldable pub upsert_job : String → JobStatus → Exec → Step
  upsert_job id status x =
      if w.accepts (length x.upserts)
      then ok (record x { upserts = (id, status) ∷ x.upserts })
      else err (store_failed id)

  abbrev pub set_status : String → JobStatus → Exec → Exec
  set_status id status x = record x { statuses = insert id status x.statuses }

  -- The upsert of a new status, and then the status.
  unfoldable pub mark : String → JobStatus → Exec → Step
  unfolding upsert_job
  mark id status x = do x' ← upsert_job id status x; ok (set_status id status x')

  -- From the upsert of `Running` to `in_flight += 1`. `fan_in` tells whether the input is built.
  unfoldable pub start_job : Bool → String → Exec → Step
  unfolding upsert_job
  start_job fan_in id x = do
    x' ← upsert_job id running x
    (targets, rr) ←
        lift (resolve_workers (w.health (length x.launches)) id w.wf w.workers x'.rr w.strategy)
    let input =
        if fan_in then build_fanin_input w.reducer id w.wf w.foreach_map x'.job_outputs else none
    def ← index id w.wf.jobs
    ok (record x' {
      statuses = insert id running x'.statuses;
      in_flight = x'.in_flight + 1;
      rr = rr;
      launches = record { job = id; targets = targets; input = input } ∷ x'.launches;
    })

  unfoldable pub skip_job : String → Exec → Step
  unfolding mark
  skip_job id x = do
    x' ← mark id skipped x
    ok (record x' { job_results = x'.job_results ++ from_skipped id ∷ [] })

  -- Whether the condition of a job, or without one the default, says to skip it.
  abbrev pub skips : JobDefinition → Bool → Map JobStatus → Bool
  skips def default statuses = elim def.when [
    | none ↦ default
    | some expr ↦ not (eval_when expr statuses)
  ]
