-- ===== src/Remote/Async.antt =====
-- run_remote_async of crates/fluxion-host/src/remote.rs: a job is submitted, and asked for until it has
-- ended or the deadline is reached.
use fluxion.Prelude.{
  ℕ, zero, suc, ◌+◌, ◌*◌, ◌%◌, ◌^◌, String, Map, Option, none, some, true, false, decimal, trim_end,
  leb, ◌==◌, if◌then◌else◌,
}
use fluxion.Outcome.{Outcome, ok, err, panic, out_of_fuel, overflow, ◌>>=◌}
use fluxion.Workflow.Types.{PermissionSet, TlsConfig}
use fluxion.Workflow.Validate.{◌<>◌}
use fluxion.Expand.Defs.{get_or_else, or_error}
use fluxion.Host.{JobMetrics}
use fluxion.Scheduler.FanIn.{Bytes}
use fluxion.Oci.Client.{is_success}
use fluxion.Remote.Client.{
  Http, RemoteError, unreachable, execution, StatusBody, Answer, cas_upload_ok, body_of,
}

-- What an answer to GET /jobs/:id means: the end of the loop, or one more round.
pub data Verdict : Type 0 where
  done : Outcome RemoteError (Bytes × JobMetrics) → Verdict
  again : Verdict

abbrev pub default_metrics : JobMetrics
default_metrics = record { compile = 0; instantiate = 0; execute = 0 }

-- In seconds. The sum wraps around in a release build.
abbrev pub async_timeout : PermissionSet → ℕ
async_timeout perms = (perms.limits.timeout_secs + 30) % 2 ^ 64

-- tokio::time::sleep(Duration::from_secs(1)), in nanoseconds
abbrev pub second : ℕ
second = 1_000_000_000

module _ (h : Http) where
  open h use {Net, read, decode, get_job, now, sleep}

  abbrev pub output_or_error : Option String → Outcome RemoteError (Bytes × JobMetrics)
  output_or_error output = do
    bytes ← or_error (execution "invalid base64") (decode (get_or_else "" output))
    ok (bytes, default_metrics)

  abbrev pub status_verdict : String → StatusBody → Verdict
  status_verdict job_id b =
      let status = get_or_else "running" b.status in
      if status == "succeeded"
      then done (output_or_error b.output)
      else if status == "failed"
      then done (
          err (
            execution
              ("async job " <> job_id <> " failed: " <> get_or_else "unknown error" b.error)))
      else again

  abbrev pub body_verdict : String → Option StatusBody → Verdict
  body_verdict job_id none = done (err (execution "the answer is not JSON"))
  body_verdict job_id (some b) = status_verdict job_id b

  abbrev pub verdict : String → Answer StatusBody → Verdict
  verdict job_id none = done (err (unreachable ("poll " <> job_id)))
  verdict job_id (some (status, body)) =
      if is_success status
      then body_verdict job_id body
      else done (err (execution ("GET /jobs/" <> job_id <> " returned " <> decimal status)))

  -- The loop.
  unfoldable pub poll :
      ℕ
      → Option TlsConfig
      → String
      → String
      → ℕ
      → Net
      → Outcome RemoteError (Bytes × JobMetrics) × Net
  unfolding decimal
  poll zero tls url job_id deadline s = (panic out_of_fuel, s)
  poll (suc fuel) tls url job_id deadline s = elim (leb deadline (now s)) [
    | true ↦ (err (execution ("async job " <> job_id <> " timed out")), s)
    | false ↦
        let (s1, a) = get_job tls url s in
        elim (verdict job_id a) [
          | done r ↦ (r, s1)
          | again ↦ poll fuel tls url job_id deadline (sleep s1)
        ]
  ]

  -- The id of the submitted job.
  abbrev pub job_id_of : String → Answer (Option String) → Outcome RemoteError String
  job_id_of worker_url none = err (unreachable ("worker " <> worker_url))
  job_id_of worker_url (some (status, body)) =
      if is_success status
      then (do
        id ← or_error (execution "the answer is not JSON") body
        or_error (execution "missing job_id in submit response") id)
      else err (execution ("worker " <> worker_url <> " POST /jobs returned " <> decimal status))

-- `latest` is the last point in time that an Instant can hold.
module _ (h : Http) (latest : ℕ) where
  open h use {Net, read, sha256, client, post_jobs, now}

  -- A round for each second until the deadline, and one that finds it reached. A deadline that an
  -- Instant cannot hold is a panic.
  abbrev pub poll_submitted :
      ℕ
      → Option TlsConfig
      → String
      → Outcome RemoteError String
      → Net
      → Outcome RemoteError (Bytes × JobMetrics) × Net
  poll_submitted timeout tls base_url (ok id) s =
      if leb (now s + timeout * second) latest
      then poll h (suc timeout) tls (base_url <> "/jobs/" <> id) id (now s + timeout * second) s
      else (panic overflow, s)
  poll_submitted timeout tls base_url (err e) s = (err e, s)
  poll_submitted timeout tls base_url (panic f) s = (panic f, s)

  -- The requests for the component, and the one that submits the job.
  abbrev pub submit :
      String
      → Bytes
      → Bytes
      → PermissionSet
      → Map String
      → Option TlsConfig
      → Net
      → Net × Answer (Option String)
  submit base_url bytes input perms env tls s =
      let (sent, s1) = cas_upload_ok h tls (base_url <> "/components/" <> sha256 bytes) bytes s in
      post_jobs tls (base_url <> "/jobs") (body_of h sent bytes input perms env) s1

  abbrev pub run_bytes_async :
      String
      → Option Bytes
      → Bytes
      → PermissionSet
      → Map String
      → Option TlsConfig
      → Net
      → Outcome RemoteError (Bytes × JobMetrics) × Net
  run_bytes_async worker_url none input perms env tls s =
      (err (execution "cannot read the component"), s)
  run_bytes_async worker_url (some bytes) input perms env tls s =
      let base_url = trim_end 0x2f worker_url in
      let (s2, a) = submit base_url bytes input perms env tls s in
      if client tls
      then poll_submitted (async_timeout perms) tls base_url (job_id_of h worker_url a) s2
      else (err (execution "no client for the TLS configuration"), s)

  unfoldable pub run_remote_async :
      String
      → String
      → Bytes
      → PermissionSet
      → Map String
      → Option TlsConfig
      → Net
      → Outcome RemoteError (Bytes × JobMetrics) × Net
  unfolding cas_upload_ok trim_end decimal poll
  run_remote_async worker_url wasm_path input perms env tls s =
      run_bytes_async worker_url (read wasm_path) input perms env tls s
