-- ===== src/Worker/Handlers.antt =====
-- The handlers of crates/fluxion-worker/src/lib.rs, as functions on the state of the worker. Base64,
-- SHA-256, the paths of the store of components, files and the Wasm host are parameters. A handler
-- is one step; a job that was submitted is another step, when its task ends.
use fluxion.Prelude.{
  ℕ, ◌+◌, ◌-◌, ◌%◌, ◌^◌, ◌/◌, String, Map, Option, none, some, Bool, not, lookup, insert,
  eq_ignore_ascii_case, contains_key, remove, if◌then◌else◌,
}
use fluxion.Outcome.{Outcome, ok, err, panic, ◌>>=◌}
use fluxion.Workflow.Types.{PermissionSet}
use fluxion.Expand.Defs.{get_or_else, or_error}
use fluxion.Scheduler.FanIn.{Bytes}
use fluxion.Host.{JobMetrics, Ran, returned, failed, joined}

pub record RunRequest : Type 0 where
  pub component : Option String
  pub component_sha256 : Option String
  pub input : String
  pub permissions : PermissionSet
  pub env : Map String

pub record RunResponse : Type 0 where
  pub output : String
  pub compile_ms : ℕ
  pub instantiate_ms : ℕ
  pub execute_ms : ℕ

pub record JobEntry : Type 0 where
  pub status : String
  pub output : Option String
  pub error : Option String

-- The status of an error answer, and its text.
pub record Refusal : Type 0 where
  pub code : ℕ
  pub error : String

-- `partial` is what a write that fails leaves in the file, if it leaves anything; `json_length` is the
-- length of a request in JSON, in bytes, and `body_limit` the longest body of a request that axum takes.
pub record Machine : Type 0 where
  pub decode : String → Option Bytes
  pub encode : Bytes → String
  pub sha256 : Bytes → String
  pub cas_path : String → String
  pub can_read : String → Bool
  pub can_write : String → Bool
  pub partial : String → Bytes → Option Bytes
  pub can_write_tmp : Bool
  pub run_component : Bytes → Bytes → PermissionSet → Map String → Ran
  pub json_length : RunRequest → ℕ
  pub body_limit : ℕ

-- `files` are those of the component store, and `tasks` the submitted jobs that have not ended.
pub record WorkerState : Type 0 where
  pub files : Map Bytes
  pub jobs : Map JobEntry
  pub tasks : Map RunRequest
  pub active : ℕ
  pub cas_hits : ℕ
  pub cas_misses : ℕ

abbrev pub internal : String → Refusal
internal error = record { code = 500; error = error }

abbrev pub bad_request : String → Refusal
bad_request error = record { code = 400; error = error }

abbrev pub not_found : String → Refusal
not_found error = record { code = 404; error = error }

abbrev pub hit : WorkerState → WorkerState
hit w = record w { cas_hits = (w.cas_hits + 1) % 2 ^ 64 }

abbrev pub miss : WorkerState → WorkerState
miss w = record w { cas_misses = (w.cas_misses + 1) % 2 ^ 64 }

-- ACTIVE_JOBS.fetch_add and fetch_sub
abbrev pub enter : WorkerState → WorkerState
enter w = record w { active = (w.active + 1) % 2 ^ 64 }

abbrev pub leave : WorkerState → WorkerState
leave w = record w { active = (w.active + (2 ^ 64 - 1)) % 2 ^ 64 }

abbrev pub running_entry : JobEntry
running_entry = record { status = "running"; output = none; error = none }

abbrev pub entry_of : Outcome String String → JobEntry
entry_of (ok output) = record { status = "succeeded"; output = some output; error = none }
entry_of (err e) = record { status = "failed"; output = none; error = some e }
entry_of (panic p) = running_entry

module _ (m : Machine) where
  unfoldable pub handle_cas_head : String → WorkerState → ℕ
  handle_cas_head sha256 w = if contains_key (m.cas_path sha256) w.files then 200 else 404

  abbrev pub after_failure : String → Bytes → WorkerState → WorkerState
  after_failure path body w = elim (m.partial path body) [
    | none ↦ w
    | some left ↦ record w { files = insert path left w.files }
  ]

  -- The answer, and the state after it. The body is one that axum takes.
  unfoldable pub handle_cas_put : String → Bytes → WorkerState → Outcome Refusal ℕ × WorkerState
  unfolding eq_ignore_ascii_case
  handle_cas_put sha256 body w =
      if not (eq_ignore_ascii_case (m.sha256 body) sha256)
      then (err (bad_request "SHA-256 mismatch"), w)
      else if not (m.can_write (m.cas_path sha256))
      then (err (internal "write failed"), after_failure (m.cas_path sha256) body w)
      else (ok 201, record w { files = insert (m.cas_path sha256) body w.files })

  -- The bytes that are sent along, where they are needed.
  abbrev inline : Option String → Outcome Refusal Bytes
  inline none = err (not_found "component not in CAS")
  inline (some b64) = or_error (bad_request "invalid component base64") (m.decode b64)

  abbrev stored : String → Bytes → Outcome Refusal Bytes
  stored path bytes = if m.can_read path then ok bytes else err (internal "read failed")

  -- A component that is named by its digest: what the store has, or else the bytes that are sent.
  abbrev pub by_digest :
      String → Option Bytes → Option String → WorkerState → Outcome Refusal Bytes × WorkerState
  by_digest sha256 (some bytes) sent w = (stored (m.cas_path sha256) bytes, hit w)
  by_digest sha256 none sent w = (inline sent, miss w)

  abbrev pub component_of :
      Option String → Option String → WorkerState → Outcome Refusal Bytes × WorkerState
  component_of (some sha256) sent w = by_digest sha256 (lookup (m.cas_path sha256) w.files) sent w
  component_of none sent w =
      (or_error (bad_request "invalid component base64") (m.decode (get_or_else "" sent)), miss w)

  unfoldable pub component_bytes : RunRequest → WorkerState → Outcome Refusal Bytes × WorkerState
  component_bytes req w = component_of req.component_sha256 req.component w

  -- What both ways of running a job check before they run it: the component and the input.
  unfoldable pub prepared : RunRequest → WorkerState → Outcome Refusal (Bytes × Bytes) × WorkerState
  unfolding component_bytes
  prepared req w =
      let (bytes, w') = component_bytes req w in
      (
        (do
          component ← bytes
          input ← or_error (bad_request "invalid input base64") (m.decode req.input)
          (if m.can_write_tmp then ok (component, input) else err (internal "no temporary file"))),
        w',
      )

  abbrev pub response_of : Bytes → JobMetrics → RunResponse
  response_of output t = record {
    output = m.encode output;
    compile_ms = t.compile / 1_000_000;
    instantiate_ms = t.instantiate / 1_000_000;
    execute_ms = t.execute / 1_000_000;
  }

  -- POST /run from the point where the job is run: the job is active for as long.
  abbrev pub run_result : Ran → WorkerState → Outcome Refusal RunResponse × WorkerState
  run_result (returned output t) w = (ok (response_of output t), leave (enter w))
  run_result (failed e) w = (err (internal e), leave (enter w))
  run_result (joined e) w = (err (internal e), leave (enter w))

  abbrev pub ran : RunRequest → Bytes → Bytes → Ran
  ran req component input = m.run_component component input req.permissions req.env

  abbrev pub run_found :
      RunRequest
      → Outcome Refusal (Bytes × Bytes)
      → WorkerState
      → Outcome Refusal RunResponse × WorkerState
  run_found req (ok (component, input)) w = run_result (ran req component input) w
  run_found req (err e) w = (err e, w)
  run_found req (panic f) w = (panic f, w)

  unfoldable pub handle_run : RunRequest → WorkerState → Outcome Refusal RunResponse × WorkerState
  unfolding prepared
  handle_run req w = run_found req (prepared req w).0 (prepared req w).1

  -- The same for a submitted job. The error of a task that panicked returns before fetch_sub.
  abbrev pub inner_result : Ran → WorkerState → Outcome String String × WorkerState
  inner_result (returned output t) w = (ok (m.encode output), leave (enter w))
  inner_result (failed e) w = (err e, leave (enter w))
  inner_result (joined e) w = (err e, enter w)

  abbrev pub inner_found :
      RunRequest
      → Outcome Refusal (Bytes × Bytes)
      → WorkerState
      → Outcome String String × WorkerState
  inner_found req (ok (component, input)) w = inner_result (ran req component input) w
  inner_found req (err e) w = (err e.error, w)
  inner_found req (panic f) w = (panic f, w)

  unfoldable pub run_request_inner : RunRequest → WorkerState → Outcome String String × WorkerState
  unfolding prepared
  run_request_inner req w = inner_found req (prepared req w).0 (prepared req w).1

  -- POST /jobs, with the id that the job gets: the entry, and the task.
  unfoldable pub handle_submit_job : String → RunRequest → WorkerState → WorkerState
  handle_submit_job job_id req w = record w {
    jobs = insert job_id running_entry w.jobs;
    tasks = insert job_id req w.tasks;
  }

  -- The task of a job, from its start to its end.
  unfoldable pub run_task : String → RunRequest → WorkerState → WorkerState
  unfolding run_request_inner
  run_task job_id req w =
      let (result, w') = run_request_inner req w in
      record w' { jobs = insert job_id (entry_of result) w'.jobs; tasks = remove job_id w'.tasks }

  -- GET /jobs/:id
  unfoldable pub handle_get_job : String → WorkerState → Outcome Refusal JobEntry
  handle_get_job id w = or_error (not_found "job not found") (lookup id w.jobs)

  -- GET /health: the active jobs, the hits and the misses.
  unfoldable pub handle_health : WorkerState → ℕ × ℕ × ℕ
  handle_health w = (w.active, w.cas_hits, w.cas_misses)
