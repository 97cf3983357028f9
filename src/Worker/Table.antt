-- ===== src/Worker/Table.antt =====
-- What the handlers leave of the table of jobs, and that they have no panic of their own.
use fluxion.Prelude.{String, Map, Option, none, some, lookup, ◌≡◌, refl, ◌∙◌, arith}
use fluxion.Outcome.{Outcome, ok, err, panic}
use fluxion.Expand.Defs.{or_error, get_or_else}
use fluxion.Answers.{IsAnswer, IsAnswer-bind, IsAnswer-or_error, IsAnswer-if}
use fluxion.Host.{Ran}
use fluxion.Scheduler.FanIn.{Bytes}
use fluxion.Worker.Handlers.{
  Machine, WorkerState, RunRequest, JobEntry, Refusal, handle_cas_put, component_of, by_digest,
  component_bytes, prepared, run_found, run_result, ran, handle_run, inner_found, inner_result,
  run_request_inner, bad_request, internal,
}

-- The entries and the tasks, which most steps leave alone.
abbrev pub Table : Type 0
Table = Map JobEntry × Map RunRequest

abbrev pub table : WorkerState → Table
table w = (w.jobs, w.tasks)

module _ (m : Machine) where
  pub put-table :
      (sha256 : String) (body : Bytes) (w : WorkerState)
      → table (handle_cas_put m sha256 body w).1 ≡ table w
  unfolding handle_cas_put
  put-table sha256 body w = ground arith

  component_of-table :
      (d sent : Option String) (w : WorkerState) → table (component_of m d sent w).1 ≡ table w
  component_of-table none sent w = refl
  component_of-table (some d) sent w = by (lookup (m.cas_path d) w.files)
    where
      by : (found : Option Bytes) → table (by_digest m d found sent w).1 ≡ table w
      by (some bytes) = refl
      by none = refl

  pub handle_run-table :
      (req : RunRequest) (w : WorkerState) → table (handle_run m req w).1 ≡ table w
  unfolding handle_run prepared component_bytes
  handle_run-table req w =
      run (prepared m req w).0 (prepared m req w).1
      ∙ component_of-table req.component_sha256 req.component w
    where
      ended_with : (r : Ran) (v : WorkerState) → table (run_result m r v).1 ≡ table v
      ended_with (Ran.returned output t) v = refl
      ended_with (Ran.failed error) v = refl
      ended_with (Ran.joined error) v = refl

      run :
          (found : Outcome Refusal (Bytes × Bytes)) (v : WorkerState)
          → table (run_found m req found v).1 ≡ table v
      run (ok (component, input)) v = ended_with (ran m req component input) v
      run (err error) v = refl
      run (panic f) v = refl

  pub inner-table :
      (req : RunRequest) (w : WorkerState) → table (run_request_inner m req w).1 ≡ table w
  unfolding run_request_inner prepared component_bytes
  inner-table req w =
      run (prepared m req w).0 (prepared m req w).1
      ∙ component_of-table req.component_sha256 req.component w
    where
      ended_with : (r : Ran) (v : WorkerState) → table (inner_result m r v).1 ≡ table v
      ended_with (Ran.returned output t) v = refl
      ended_with (Ran.failed error) v = refl
      ended_with (Ran.joined error) v = refl

      run :
          (found : Outcome Refusal (Bytes × Bytes)) (v : WorkerState)
          → table (inner_found m req found v).1 ≡ table v
      run (ok (component, input)) v = ended_with (ran m req component input) v
      run (err error) v = refl
      run (panic f) v = refl

  IsAnswer-component_of :
      (d sent : Option String) (w : WorkerState) → IsAnswer (component_of m d sent w).0
  IsAnswer-component_of none sent w =
      IsAnswer-or_error (bad_request "invalid component base64") (m.decode (get_or_else "" sent))
  IsAnswer-component_of (some d) sent w = by (lookup (m.cas_path d) w.files) sent
    where
      by : (found : Option Bytes) (b64 : Option String) → IsAnswer (by_digest m d found b64 w).0
      by (some bytes) b64 = IsAnswer-if (m.can_read (m.cas_path d)) bytes (internal "read failed")
      by none none = tt
      by none (some b64) = IsAnswer-or_error (bad_request "invalid component base64") (m.decode b64)

  IsAnswer-prepared : (req : RunRequest) (w : WorkerState) → IsAnswer (prepared m req w).0
  unfolding prepared component_bytes
  IsAnswer-prepared req w =
      IsAnswer-bind (component_of m req.component_sha256 req.component w).0 _
        (IsAnswer-component_of req.component_sha256 req.component w)
        (λ component.
          IsAnswer-bind (or_error (bad_request "invalid input base64") (m.decode req.input)) _
            (IsAnswer-or_error (bad_request "invalid input base64") (m.decode req.input))
            (λ input.
              IsAnswer-if m.can_write_tmp (component, input) (internal "no temporary file")))

  pub IsAnswer-inner : (req : RunRequest) (w : WorkerState) → IsAnswer (run_request_inner m req w).0
  unfolding run_request_inner
  IsAnswer-inner req w = run (prepared m req w).0 (prepared m req w).1 (IsAnswer-prepared req w)
    where
      ended_with : (r : Ran) (v : WorkerState) → IsAnswer (inner_result m r v).0
      ended_with (Ran.returned output t) v = tt
      ended_with (Ran.failed error) v = tt
      ended_with (Ran.joined error) v = tt

      run :
          (found : Outcome Refusal (Bytes × Bytes)) (v : WorkerState)
          → IsAnswer found
          → IsAnswer (inner_found m req found v).0
      run (ok (component, input)) v h = ended_with (ran m req component input) v
      run (err error) v h = tt
      run (panic f) v h = h
