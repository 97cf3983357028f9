-- ===== src/Scheduler/Launched.antt =====
-- The event that a launched job sends.
use fluxion.Prelude.{
  ℕ, ◌<◌, nat_eq, String, List, [], ◌∷◌, ◌++◌, Option, none, some, Bool, true, false, ◌&&◌, ltb,
  length, lookup, Map, ◌≡◌, ◌⊎◌, refl, inl, inr, arith, Bool-cases, eq_ignore_ascii_case,
}
use fluxion.Outcome.{Outcome, ok, err, panic}
use fluxion.Answers.{IsAnswer, IsAnswer-bind, IsAnswer-or_error, IsAnswer-if}
use fluxion.State.{succeeded, failed}
use fluxion.Workflow.Types.{Workflow, JobDefinition, PermissionSet, ExecutorKind, local, remote}
use fluxion.Expand.Defs.{or_error, get_or_else, with_context, is_some}
use fluxion.Host.{JobMetrics, Ran, verify_component_digest}
use fluxion.Scheduler.FanIn.{Bytes}
use fluxion.Scheduler.Workers.{WorkerInfo}
use fluxion.Scheduler.Failover.{Reply, answered, refused, attempt, failover_from, run_with_failover}
use fluxion.Scheduler.Run.{JobEvent}
use fluxion.Scheduler.Ordered.{is_report}
use fluxion.Scheduler.Launch.{
  Timed, in_time, timed_out, Machinery, failover_async_from, run_with_failover_async, Sent,
  component_path, prepare, local_result, run_job, finished, run_prepared, launch, resolved,
}

-- One round of the search: the result is an answer if that of the next round is.
IsAnswer-round :
    {A : Type 0} (r : Reply A) (more : Bool) (again : String → Outcome String A)
    (stop : String → String)
    → (more ≡ true → (m : String) → IsAnswer (again m))
    → IsAnswer (elim r [
      | answered a ↦ ok a
      | refused m f ↦ elim (f && more) [ true ↦ again m | false ↦ err (stop m) ]
    ])
IsAnswer-round (answered a) more again stop k = tt
IsAnswer-round (refused m true) true again stop k = k refl m
IsAnswer-round (refused m true) false again stop k = tt
IsAnswer-round (refused m false) more again stop k = tt

-- With a worker to try, the search for one ends without a panic.
module _ {A : Type 0} (run_remote : WorkerInfo → Reply A) where
  IsAnswer-failover_from :
      (tried : List String) (w : WorkerInfo) (ws : List WorkerInfo)
      → IsAnswer (failover_from run_remote tried (w ∷ ws))
  unfolding failover_from
  IsAnswer-failover_from tried w [] = IsAnswer-round (run_remote w) false _ _ (λ e. cc)
  IsAnswer-failover_from tried w (v ∷ ws) =
      IsAnswer-round (run_remote w) true _ _
        (λ e m. IsAnswer-failover_from (tried ++ attempt w m ∷ []) v ws)

-- The same for the asynchronous search, if no worker's call panics.
module _ {A : Type 0} (run_remote : WorkerInfo → Outcome ⊥ (Reply A))
    (calls : (w : WorkerInfo) → IsAnswer (run_remote w)) where
  IsAnswer-round_async :
      (r : Outcome ⊥ (Reply A)) (more : Bool) (again : String → Outcome String A)
      (stop : String → String)
      → IsAnswer r
      → (more ≡ true → (m : String) → IsAnswer (again m))
      → IsAnswer (elim r [
        | panic f ↦ panic f
        | err e ↦ elim e [ ]
        | ok (answered a) ↦ ok a
        | ok (refused m f) ↦ elim (f && more) [ true ↦ again m | false ↦ err (stop m) ]
      ])
  IsAnswer-round_async (ok r) more again stop h k = IsAnswer-round r more again stop k
  IsAnswer-round_async (err e) more again stop h k = elim e [ ]
  IsAnswer-round_async (panic f) more again stop h k = absurd h

  IsAnswer-failover_async_from :
      (tried : List String) (w : WorkerInfo) (ws : List WorkerInfo)
      → IsAnswer (failover_async_from run_remote tried (w ∷ ws))
  unfolding failover_async_from
  IsAnswer-failover_async_from tried w [] =
      IsAnswer-round_async (run_remote w) false _ _ (calls w) (λ e. cc)
  IsAnswer-failover_async_from tried w (v ∷ ws) =
      IsAnswer-round_async (run_remote w) true _ _ (calls w)
        (λ e m. IsAnswer-failover_async_from (tried ++ attempt w m ∷ []) v ws)

-- A remote job has workers to try.
abbrev pub HasWorkers : JobDefinition → List WorkerInfo → Type 0
HasWorkers job workers =
    (job.executor ≡ local) ⊎ ((w : WorkerInfo) × (ws : List WorkerInfo) × (workers ≡ w ∷ ws))

-- What an event of a job says.
abbrev pub IsReport : String → JobEvent → Type 0
IsReport id ev =
    (ev.job_id ≡ id)
    × (is_report ev.status ≡ true)
    × (((t : ℕ) × (ev.status ≡ succeeded t) × (is_some ev.output ≡ true))
        ⊎ ((t : ℕ) × (r : String) × (ev.status ≡ failed t r) × (ev.output ≡ none)))

IsAnswer-with_context :
    {E A : Type 0} (f : E → E) (o : Outcome E A) → IsAnswer o → IsAnswer (with_context f o)
IsAnswer-with_context f (ok a) h = tt
IsAnswer-with_context f (err e) h = tt
IsAnswer-with_context f (panic p) h = h

module _ (h : Machinery) where
  IsAnswer-component_path :
      (r : Option String) (component : String) → IsAnswer (component_path h r component)
  IsAnswer-component_path none component = tt
  IsAnswer-component_path (some r) component =
      IsAnswer-bind (or_error _ (h.pull r)) _ (IsAnswer-or_error _ (h.pull r))
        (λ bytes. IsAnswer-or_error _ (h.write_tmp bytes))

  IsAnswer-verify :
      (path : String) (expected : Option String)
      → IsAnswer (verify_component_digest h.read h.sha256 path expected)
  unfolding verify_component_digest
  IsAnswer-verify path none = tt
  IsAnswer-verify path (some d) =
      IsAnswer-bind (or_error _ (h.read path)) _ (IsAnswer-or_error _ (h.read path))
        (λ bytes. IsAnswer-if (eq_ignore_ascii_case (h.sha256 bytes) d) tt "SHA-256 mismatch")

  IsAnswer-local_result : (secs : ℕ) (r : Timed Ran) → IsAnswer (local_result h secs r)
  IsAnswer-local_result secs timed_out = tt
  IsAnswer-local_result secs (in_time (Ran.returned output t)) = tt
  IsAnswer-local_result secs (in_time (Ran.failed e)) = tt
  IsAnswer-local_result secs (in_time (Ran.joined e)) = tt

  IsAnswer-prepare : (job : JobDefinition) → IsAnswer (prepare h job)
  unfolding prepare verify_component_digest
  IsAnswer-prepare job =
      IsAnswer-bind (component_path h job.oci_ref job.component) _
        (IsAnswer-component_path job.oci_ref job.component)
        (λ path.
          IsAnswer-bind
            (with_context _ (verify_component_digest h.read h.sha256 path job.component_sha256)) _
            (IsAnswer-with_context _ _ (IsAnswer-verify path job.component_sha256)) (λ v. tt))

  IsAnswer-run_job :
      (kind : ExecutorKind) (async : Bool) (workers : List WorkerInfo) (path : String)
      (input : Bytes) (perms : PermissionSet) (env : Map String)
      → (kind ≡ local) ⊎ ((w : WorkerInfo) × (ws : List WorkerInfo) × (workers ≡ w ∷ ws))
      → ((w : WorkerInfo) → IsAnswer (h.run_remote_async w path input perms env))
      → IsAnswer (run_job h kind async workers path input perms env)
  unfolding run_job run_with_failover run_with_failover_async
  IsAnswer-run_job local async workers path input perms env has calls =
      IsAnswer-local_result perms.limits.timeout_secs (h.run_component path input perms env)
  IsAnswer-run_job remote async [] path input perms env (inl e) calls = cc
  IsAnswer-run_job remote async [] path input perms env (inr (w, ws, e)) calls = cc
  IsAnswer-run_job remote true (w ∷ ws) path input perms env has calls =
      IsAnswer-failover_async_from (λ v. h.run_remote_async v path input perms env) calls [] w ws
  IsAnswer-run_job remote false (w ∷ ws) path input perms env has calls =
      elim (Bool-cases h.failover_in_time) [
        | inl e ↦ rw e (IsAnswer-failover_from (λ v. h.run_remote v path input perms env) [] w ws)
        | inr e ↦ rw e tt
      ]

  finished-IsReport :
      (id : String) (limit : ℕ) (o : Outcome String (Bytes × JobMetrics))
      → IsAnswer o
      → (s : Sent) × (finished h id limit o ≡ ok s) × IsReport id s.event
  unfolding finished
  finished-IsReport id limit (ok (output, t)) a = elim (Bool-cases (ltb limit (length output))) [
    | inl e ↦ (_, refl, rw e (refl, refl, inr (_, _, refl, refl)))
    | inr e ↦ (_, refl, rw e (refl, refl, inl (_, refl, refl)))
  ]
  finished-IsReport id limit (err e) a = (_, refl, (refl, refl, inr (_, _, refl, refl)))
  finished-IsReport id limit (panic f) a = absurd a

  -- No call of a worker for an asynchronous job panics, with the permissions and the environment of
  -- the job.
  abbrev pub IsCalm : JobDefinition → Type 0
  IsCalm job =
      (w : WorkerInfo) (path : String) (input : Bytes)
      → IsAnswer (h.run_remote_async w path input (resolved h job.permissions) job.env)

  pub launch-IsReport :
      (id : String) (wf : Workflow) (job : JobDefinition) (workers : List WorkerInfo)
      (input_override : Option Bytes)
      → lookup id wf.jobs ≡ some job
      → HasWorkers job workers
      → 0 < h.permits
      → IsCalm job
      → (s : Sent) × (launch h id wf workers input_override ≡ ok s) × IsReport id s.event
  unfolding launch
  launch-IsReport id wf job workers input_override found has some_permit calm =
      let open_permit : nat_eq h.permits 0 ≡ false = ground arith in
      rw (found, open_permit) (by (prepare h job) (IsAnswer-prepare job))
    where
      by :
          (p : Outcome String String)
          → IsAnswer p
          → (s : Sent) × (run_prepared h id job workers
                (get_or_else (h.into_bytes (get_or_else "" job.input)) input_override)
                p
              ≡ ok s)
            × IsReport id s.event
      by (ok path) a = finished-IsReport id _ _ (
          IsAnswer-run_job job.executor job.async_dispatch workers path _
            (resolved h job.permissions) job.env has (λ w. calm w path _))
      by (err e) a = (_, refl, (refl, refl, inr (_, _, refl, refl)))
      by (panic f) a = absurd a
