-- ===== src/Scheduler/Launch.antt =====
-- launch of crates/fluxion-host/src/scheduler.rs, with run_with_failover_async: how a job is carried
-- out, and the event that its task sends. What the host, a registry and the workers answer, files and
-- the clock are parameters. An event is sent, the task panics, or it waits for ever.
use fluxion.Prelude.{
  ℕ, ◌*◌, ◌/◌, ◌%◌, ◌^◌, String, List, [], ◌∷◌, ◌++◌, Map, Option, none, some, Bool, true, false,
  not, ◌&&◌, ltb, nat_eq, length, lookup, decimal, if◌then◌else◌,
}
use fluxion.Outcome.{Outcome, ok, err, panic, missing_key, unreachable_code, blocked, ◌>>=◌}
use fluxion.State.{JobStatus, succeeded, failed}
use fluxion.Workflow.Types.{Workflow, JobDefinition, PermissionSet, ExecutorKind, local, remote}
use fluxion.Workflow.Validate.{◌<>◌, join}
use fluxion.Expand.Defs.{or_error, get_or_else, with_context}
use fluxion.Host.{JobMetrics, Ran, verify_component_digest}
use fluxion.Scheduler.FanIn.{Bytes}
use fluxion.Scheduler.Workers.{WorkerInfo}
use fluxion.Scheduler.Failover.{Reply, answered, refused, attempt, is_last, run_with_failover}
use fluxion.Scheduler.Run.{JobEvent}

-- What a call under `timeout` gives.
pub data Timed {ℓ} (A : Type ℓ) : Type ℓ where
  in_time : A → Timed A
  timed_out : Timed A

-- What one worker answers to one job.
abbrev pub Worker : Type 0
Worker = WorkerInfo → String → Bytes → PermissionSet → Map String → Reply (Bytes × JobMetrics)

-- The same for run_remote_async, which can panic.
abbrev pub AsyncWorker : Type 0
AsyncWorker =
    WorkerInfo
    → String
    → Bytes
    → PermissionSet
    → Map String
    → Outcome ⊥ (Reply (Bytes × JobMetrics))

-- `permits` is how many jobs may run at once; each of them ends.
pub record Machinery : Type 0 where
  pub permits : ℕ
  pub resolve_network_allow : List String → List String
  pub pull : String → Option Bytes
  pub write_tmp : Bytes → Option String
  pub read : String → Option Bytes
  pub sha256 : Bytes → String
  pub run_component : String → Bytes → PermissionSet → Map String → Timed Ran
  pub run_remote : Worker
  pub run_remote_async : AsyncWorker
  pub failover_in_time : Bool
  pub into_bytes : String → Bytes
  pub elapsed : ℕ

abbrev async_dispatch_failed : List String → String
async_dispatch_failed tried = "async job dispatch failed [" <> join "; " tried <> "]"

module _ {ℓ} {A : Type ℓ} (run_remote : WorkerInfo → Outcome ⊥ (Reply A)) where
  unfoldable pub failover_async_from : List String → List WorkerInfo → Outcome String A
  failover_async_from tried [] = panic unreachable_code
  failover_async_from tried (w ∷ ws) = elim (run_remote w) [
    | panic f ↦ panic f
    | err e ↦ elim e [ ]
    | ok (answered r) ↦ ok r
    | ok (refused message is_failover) ↦ elim (is_failover && not (is_last ws)) [
      | true ↦ failover_async_from (tried ++ attempt w message ∷ []) ws
      | false ↦ err (async_dispatch_failed (tried ++ attempt w message ∷ []))
    ]
  ]

  unfoldable pub run_with_failover_async : List WorkerInfo → Outcome String A
  unfolding failover_async_from
  run_with_failover_async workers = failover_async_from [] workers

-- unwrap_or(64) * 1024 * 1024, on u64
abbrev pub output_size_limit : JobDefinition → ℕ
output_size_limit job = get_or_else 64 job.output_size_limit_mb * 1024 * 1024 % 2 ^ 64

-- as_micros() as u64
abbrev as_micros : ℕ → ℕ
as_micros t = t / 1000 % 2 ^ 64

abbrev pub event : String → JobStatus → Option Bytes → JobMetrics → JobEvent
event id status output t = record {
  job_id = id;
  status = status;
  output = output;
  compile_us = as_micros t.compile;
  instantiate_us = as_micros t.instantiate;
  execute_us = as_micros t.execute;
}

abbrev no_metrics : JobMetrics
no_metrics = record { compile = 0; instantiate = 0; execute = 0 }

-- The event, and how often the task itself decrements ACTIVE_JOBS.
pub record Sent : Type 0 where
  pub event : JobEvent
  pub decremented : ℕ

module _ (h : Machinery) where
  abbrev pub failed_event : String → String → JobEvent
  failed_event id reason = event id (failed h.elapsed reason) none no_metrics

  abbrev pub resolved : PermissionSet → PermissionSet
  resolved perms = elim perms.network.allow [
    | [] ↦ perms
    | _ ↦ record perms { network = record { allow = h.resolve_network_allow perms.network.allow } }
  ]

  -- The path of the component: its own, or that of the file into which it is pulled.
  abbrev pub component_path : Option String → String → Outcome String String
  component_path none component = ok component
  component_path (some r) component = do
    bytes ← or_error ("OCI pull failed for '" <> r <> "'") (h.pull r)
    or_error "OCI tmp write failed" (h.write_tmp bytes)

  -- What has to hold before the job is run.
  unfoldable pub prepare : JobDefinition → Outcome String String
  unfolding verify_component_digest
  prepare job = do
    path ← component_path job.oci_ref job.component
    verified ←
        with_context (λ e. "digest verification failed: " <> e)
          (verify_component_digest h.read h.sha256 path job.component_sha256)
    ok path

  abbrev pub timeout_error : ℕ → String
  timeout_error secs = "Timeout after " <> decimal secs <> "s"

  abbrev pub local_result : ℕ → Timed Ran → Outcome String (Bytes × JobMetrics)
  local_result secs timed_out = err (timeout_error secs)
  local_result secs (in_time (Ran.returned output t)) = ok (output, t)
  local_result secs (in_time (Ran.failed e)) = err e
  local_result secs (in_time (Ran.joined e)) = err e

  -- The match on the executor, and on whether the job is dispatched asynchronously.
  unfoldable pub run_job :
      ExecutorKind
      → Bool
      → List WorkerInfo
      → String
      → Bytes
      → PermissionSet
      → Map String
      → Outcome String (Bytes × JobMetrics)
  unfolding decimal run_with_failover run_with_failover_async
  run_job remote true workers path input perms env =
      run_with_failover_async (λ w. h.run_remote_async w path input perms env) workers
  run_job remote false workers path input perms env = elim h.failover_in_time [
    | true ↦ run_with_failover (λ w. h.run_remote w path input perms env) workers
    | false ↦ err (timeout_error perms.limits.timeout_secs)
  ]
  run_job local async workers path input perms env =
      local_result perms.limits.timeout_secs (h.run_component path input perms env)

  -- The event of a job that was run.
  unfoldable pub finished : String → ℕ → Outcome String (Bytes × JobMetrics) → Outcome ⊥ Sent
  unfolding decimal
  finished id limit (ok (output, t)) = ok (record {
    event =
        if ltb limit (length output)
        then event id
            (failed h.elapsed (
              "output size "
              <> decimal (length output)
              <> " bytes exceeds limit of "
              <> decimal (limit / (1024 * 1024))
              <> " MB"))
            none t
        else event id (succeeded h.elapsed) (some output) t;
    decremented = 0;
  })
  finished id limit (err e) = ok (record { event = failed_event id e; decremented = 0 })
  finished id limit (panic f) = panic f

  abbrev pub run_prepared :
      String → JobDefinition → List WorkerInfo → Bytes → Outcome String String → Outcome ⊥ Sent
  run_prepared id job workers input (ok path) = finished id (output_size_limit job) (
      run_job job.executor job.async_dispatch workers path input (resolved job.permissions) job.env)
  run_prepared id job workers input (err e) =
      ok (record { event = failed_event id e; decremented = 1 })
  run_prepared id job workers input (panic f) = panic f

  abbrev pub launch_job :
      String → List WorkerInfo → Option Bytes → Option JobDefinition → Outcome ⊥ Sent
  launch_job id workers input none = panic missing_key
  launch_job id workers input (some job) =
      if nat_eq h.permits 0
      then panic blocked
      else run_prepared id job workers (get_or_else (h.into_bytes (get_or_else "" job.input)) input)
          (prepare job)

  unfoldable pub launch : String → Workflow → List WorkerInfo → Option Bytes → Outcome ⊥ Sent
  unfolding prepare run_job finished
  launch id wf workers input_override = launch_job id workers input_override (lookup id wf.jobs)
