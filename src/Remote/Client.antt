-- ===== src/Remote/Client.antt =====
-- run_remote of crates/fluxion-host/src/remote.rs. HTTP, the JSON of an answer as far as it is read,
-- files, base64, SHA-256 and the clock are parameters; a request leaves the network and the workers
-- in a new state. The JSON object of a request is a RunRequest of the worker.
use fluxion.Prelude.{
  ℕ, ◌*◌, String, Map, Option, none, some, Bool, true, false, decimal, trim_end, if◌then◌else◌,
}
use fluxion.Outcome.{Outcome, ok, err, ◌>>=◌}
use fluxion.Workflow.Types.{PermissionSet, TlsConfig}
use fluxion.Workflow.Validate.{◌<>◌}
use fluxion.Expand.Defs.{get_or_else, or_error}
use fluxion.Host.{JobMetrics}
use fluxion.Scheduler.FanIn.{Bytes}
use fluxion.Oci.Client.{is_success}
use fluxion.Worker.Handlers.{RunRequest}

pub data RemoteError : Type 0 where
  unreachable execution : (message : String) → RemoteError

unfoldable pub is_failover : RemoteError → Bool
is_failover (unreachable message) = true
is_failover (execution message) = false

unfoldable pub describe : RemoteError → String
describe (unreachable message) = "unreachable: " <> message
describe (execution message) = "execution failed: " <> message

-- The fields of the answer of POST /run that are read, as far as they are of the type that is asked for.
pub record RunBody : Type 0 where
  pub output : Option String
  pub compile_ms : Option ℕ
  pub instantiate_ms : Option ℕ
  pub execute_ms : Option ℕ

-- The same for GET /jobs/:id.
pub record StatusBody : Type 0 where
  pub status : Option String
  pub output : Option String
  pub error : Option String

-- An answer has a status and a body, or there is none. A body is JSON, or none.
abbrev pub Answer : Type 0 → Type 0
Answer A = Option (ℕ × Option A)

-- `client` is whether the files of a TLS configuration make a client. Times are in nanoseconds.
pub record Http : Type 1 where
  pub Net : Type 0
  pub read : String → Option Bytes
  pub sha256 : Bytes → String
  pub encode : Bytes → String
  pub decode : String → Option Bytes
  pub client : Option TlsConfig → Bool
  pub head : Option TlsConfig → String → Net → Net × Option ℕ
  pub put : Option TlsConfig → String → Bytes → Net → Net × Option ℕ
  pub post_run : Option TlsConfig → String → RunRequest → Net → Net × Answer RunBody
  pub post_jobs : Option TlsConfig → String → RunRequest → Net → Net × Answer (Option String)
  pub get_job : Option TlsConfig → String → Net → Net × Answer StatusBody
  pub now : Net → ℕ
  pub sleep : Net → Net

-- .map(|r| r.status().is_success()).unwrap_or(false)
abbrev pub succeeds : Option ℕ → Bool
succeeds none = false
succeeds (some status) = is_success status

module _ (h : Http) where
  open h use {Net, read, sha256, encode, decode, client, head, put, post_run}

  -- Whether the worker has the component now, as it had it or takes it.
  unfoldable pub cas_upload_ok : Option TlsConfig → String → Bytes → Net → Bool × Net
  cas_upload_ok tls url bytes s =
      let (s1, a) = head tls url s in
      let (s2, b) = put tls url bytes s1 in if succeeds a then (true, s1) else (succeeds b, s2)

  abbrev pub body_of : Bool → Bytes → Bytes → PermissionSet → Map String → RunRequest
  body_of true bytes input perms env = record {
    component = none;
    component_sha256 = some (sha256 bytes);
    input = encode input;
    permissions = perms;
    env = env;
  }
  body_of false bytes input perms env = record {
    component = some (encode bytes);
    component_sha256 = none;
    input = encode input;
    permissions = perms;
    env = env;
  }

  -- Duration::from_millis
  abbrev pub duration_of : Option ℕ → ℕ
  duration_of ms = get_or_else 0 ms * 1_000_000

  abbrev pub run_output : Option RunBody → Outcome RemoteError (Bytes × JobMetrics)
  run_output none = err (execution "the answer is not JSON")
  run_output (some b) = do
    text ← or_error (execution "missing output field in worker response") b.output
    output ← or_error (execution "invalid base64") (decode text)
    ok (
      output,
      record {
        compile = duration_of b.compile_ms;
        instantiate = duration_of b.instantiate_ms;
        execute = duration_of b.execute_ms;
      },
    )

  abbrev pub run_answer : String → Answer RunBody → Outcome RemoteError (Bytes × JobMetrics)
  run_answer worker_url none = err (unreachable ("worker " <> worker_url))
  run_answer worker_url (some (status, body)) =
      if is_success status
      then run_output body
      else err (execution ("worker " <> worker_url <> " returned " <> decimal status))

  -- From the point where the component is read. The requests for the component are made by a client
  -- without TLS.
  abbrev pub run_bytes :
      String
      → Option Bytes
      → Bytes
      → PermissionSet
      → Map String
      → Option TlsConfig
      → Net
      → Outcome RemoteError (Bytes × JobMetrics) × Net
  run_bytes worker_url none input perms env tls s = (err (execution "cannot read the component"), s)
  run_bytes worker_url (some bytes) input perms env tls s =
      let base_url = trim_end 0x2f worker_url in
      let (sent, s1) = cas_upload_ok none (base_url <> "/components/" <> sha256 bytes) bytes s in
      let (s2, a) = post_run tls (base_url <> "/run") (body_of sent bytes input perms env) s1 in
      if client tls
      then (run_answer worker_url a, s2)
      else (err (execution "no client for the TLS configuration"), s1)

  unfoldable pub run_remote :
      String
      → String
      → Bytes
      → PermissionSet
      → Map String
      → Option TlsConfig
      → Net
      → Outcome RemoteError (Bytes × JobMetrics) × Net
  unfolding cas_upload_ok trim_end decimal
  run_remote worker_url wasm_path input perms env tls s =
      run_bytes worker_url (read wasm_path) input perms env tls s
