-- ===== src/Scheduler/Outputs.antt =====
-- What is known of the output that a launched job reports.
use fluxion.Prelude.{
  ℕ, ◌*◌, ◌^◌, ◌<◌, ◌≤◌, String, List, [], Map, Bool, Option, none, some, true, false, ltb, nat_eq,
  length, lookup, ◌≡◌, refl, sym, ap, ◌∙◌, inl, inr, arith, Bool-cases, Option-cases,
  eq_ignore_ascii_case,
}
use fluxion.Outcome.{Outcome, ok, err, panic, blocked, ◌>>=◌}
use fluxion.Workflow.Types.{Workflow, JobDefinition, PermissionSet, ExecutorKind, local, remote}
use fluxion.Expand.Defs.{get_or_else, with_context}
use fluxion.Workflow.Validate.{◌<>◌}
use fluxion.Host.{JobMetrics, Ran, verify_component_digest}
use fluxion.Scheduler.FanIn.{Bytes}
use fluxion.Scheduler.Workers.{WorkerInfo}
use fluxion.Scheduler.Launch.{
  Machinery, Timed, in_time, timed_out, local_result, output_size_limit, Sent, component_path,
  prepare, run_job, finished, run_prepared, launch, resolved,
}

abbrev output_of : Outcome ⊥ Sent → Option Bytes
output_of (ok s) = s.event.output
output_of _ = none

module _ (h : Machinery) where
  finished-output :
      (id : String) (limit : ℕ) (o : Outcome String (Bytes × JobMetrics)) (out : Bytes)
      → output_of (finished h id limit o) ≡ some out
      → (t : JobMetrics) × (o ≡ ok (out, t)) × (ltb limit (length out) ≡ false)
  unfolding finished
  finished-output id limit (ok (output, t)) out q = elim (Bool-cases (ltb limit (length output))) [
    | inl e ↦ let no : none ≡ some out = rw e at q in absurd (ground arith)
    | inr e ↦
        let yes : some output ≡ some out = rw e at q in
        let p : output ≡ out = ap (get_or_else []) yes in
        (t, ap (λ b. ok (b, t)) p, ap (λ b. ltb limit (length b)) (sym p) ∙ e)
  ]
  finished-output id limit (err e) out q = cc
  finished-output id limit (panic f) out q = cc

  verified-digest :
      (path d : String) (u : Unit {0})
      → verify_component_digest h.read h.sha256 path (some d) ≡ ok u
      → (bytes : Bytes) × (h.read path ≡ some bytes)
        × (eq_ignore_ascii_case (h.sha256 bytes) d ≡ true)
  unfolding verify_component_digest
  verified-digest path d u q = elim (Option-cases (h.read path)) [
    | inl e ↦ absurd (ground arith)
    | inr (bytes, e) ↦ elim (Bool-cases (eq_ignore_ascii_case (h.sha256 bytes) d)) [
      | inl f ↦ (bytes, e, f)
      | inr f ↦ absurd (ground arith)
    ]
  ]

  abbrev message : String → String
  message e = "digest verification failed: " <> e

  -- What was prepared is the component's path, and the check has passed.
  prepare-verified :
      (job : JobDefinition) (path : String)
      → prepare h job ≡ ok path
      → (component_path h job.oci_ref job.component ≡ ok path)
        × ((u : Unit {0}) × (verify_component_digest h.read h.sha256 path job.component_sha256
              ≡ ok u))
  unfolding prepare
  prepare-verified job path q = by (component_path h job.oci_ref job.component) q
    where
      inner :
          (p : String) (v : Outcome String (Unit {0}))
          → (with_context message v >>= (λ _. ok p)) ≡ ok path
          → (p ≡ path) × ((u : Unit {0}) × (v ≡ ok u))
      inner p (ok u) e = (ground arith, (u, refl))
      inner p (err m) e = cc
      inner p (panic f) e = cc

      by :
          (o : Outcome String String)
          → (o >>= λ p.
              with_context message (verify_component_digest h.read h.sha256 p job.component_sha256)
              >>= (λ _. ok p))
            ≡ ok path
          → (o ≡ ok path)
            × ((u : Unit {0}) × (verify_component_digest h.read h.sha256 path job.component_sha256
                  ≡ ok u))
      by (ok p) e =
          let (same, (u, v)) =
            inner p (verify_component_digest h.read h.sha256 p job.component_sha256) e in
          (
            ap ok same,
            (
              u,
              ap (λ x. verify_component_digest h.read h.sha256 x job.component_sha256) (sym same)
                  ∙ v,
            ),
          )
      by (err m) e = cc
      by (panic f) e = cc

  -- How the output came about.
  abbrev pub IsOutput : JobDefinition → List WorkerInfo → Bytes → Bytes → Type 0
  IsOutput job workers input out =
      (path : String) × (t : JobMetrics) × (prepare h job ≡ ok path)
      × (run_job h job.executor job.async_dispatch workers path input (resolved h job.permissions)
            job.env
          ≡ ok (out, t))
      × (ltb (output_size_limit job) (length out) ≡ false)

  abbrev pub input_of : JobDefinition → Option Bytes → Bytes
  input_of job input_override = get_or_else (h.into_bytes (get_or_else "" job.input)) input_override

  launch-IsOutput :
      (id : String) (wf : Workflow) (job : JobDefinition) (workers : List WorkerInfo)
      (input_override : Option Bytes) (s : Sent) (out : Bytes)
      → lookup id wf.jobs ≡ some job
      → launch h id wf workers input_override ≡ ok s
      → s.event.output ≡ some out
      → IsOutput job workers (input_of job input_override) out
  unfolding launch
  launch-IsOutput id wf job workers input_override s out found q o =
      elim (Bool-cases (nat_eq h.permits 0)) [
        | inl e ↦ let no : panic blocked ≡ ok s = rw (found, e) at q in absurd (cc no)
        | inr e ↦ by (prepare h job) refl (ap output_of (rw (found, e) at q) ∙ o)
      ]
    where
      by :
          (p : Outcome String String)
          → prepare h job ≡ p
          → output_of (run_prepared h id job workers (input_of job input_override) p) ≡ some out
          → IsOutput job workers (input_of job input_override) out
      by (ok path) e r =
          let (t, ran, small) = finished-output id (output_size_limit job) _ out r in
          (path, t, e, ran, small)
      by (err m) e r = cc
      by (panic f) e r = cc

  -- What a local job returns, the host has returned for the path.
  run_job-local :
      (kind : ExecutorKind) (async : Bool) (workers : List WorkerInfo) (path : String)
      (input : Bytes) (perms : PermissionSet) (env : Map String) (out : Bytes) (t : JobMetrics)
      → kind ≡ local
      → run_job h kind async workers path input perms env ≡ ok (out, t)
      → h.run_component path input perms env ≡ in_time (Ran.returned out t)
  unfolding run_job
  run_job-local remote async workers path input perms env out t k q = cc
  run_job-local local async workers path input perms env out t k q =
      by (h.run_component path input perms env) q
    where
      by :
          (r : Timed Ran)
          → local_result h perms.limits.timeout_secs r ≡ ok (out, t)
          → r ≡ in_time (Ran.returned out t)
      by timed_out q = cc
      by (in_time (Ran.returned o s)) q = cc
      by (in_time (Ran.failed e)) q = cc
      by (in_time (Ran.joined e)) q = cc

  -- If a job reports an output and names a digest, the file that was checked, which is the component's
  -- own or the one that was pulled, has this digest, upper and lower case apart, and the output is what
  -- the run of this file returned: for a local job, what the host returned for its path.
  pub launch-IsVerified :
      (id : String) (wf : Workflow) (job : JobDefinition) (workers : List WorkerInfo)
      (input_override : Option Bytes) (s : Sent) (out : Bytes) (d : String)
      → lookup id wf.jobs ≡ some job
      → launch h id wf workers input_override ≡ ok s
      → s.event.output ≡ some out
      → job.component_sha256 ≡ some d
      → (path : String) × (bytes : Bytes) × (t : JobMetrics) × (component_path h job.oci_ref
            job.component
          ≡ ok path)
        × (h.read path ≡ some bytes)
        × (eq_ignore_ascii_case (h.sha256 bytes) d ≡ true)
        × (run_job h job.executor job.async_dispatch workers path
              (input_of job input_override)
              (resolved h job.permissions)
              job.env
            ≡ ok (out, t))
        × (job.executor ≡ local
            → h.run_component path
                (input_of job input_override)
                (resolved h job.permissions)
                job.env
              ≡ in_time (Ran.returned out t))
  launch-IsVerified id wf job workers input_override s out d found q o named =
      let (path, t, p, ran, small) =
        launch-IsOutput id wf job workers input_override s out found q o in
      let (here, (u, v)) = prepare-verified job path p in
      let (bytes, b, e) =
        verified-digest path d u
          (ap (λ x. verify_component_digest h.read h.sha256 path x) (sym named) ∙ v) in
      (
        path,
        bytes,
        t,
        here,
        b,
        e,
        ran,
        λ k. run_job-local job.executor job.async_dispatch workers path _ _ job.env out t k ran,
      )

  -- If the limit of a job's output in bytes fits into 64 bits, an output that the job reports is not
  -- larger: the limit is 64 MB where the job gives none.
  pub launch-output_size_limit :
      (id : String) (wf : Workflow) (job : JobDefinition) (workers : List WorkerInfo)
      (input_override : Option Bytes) (s : Sent) (out : Bytes)
      → lookup id wf.jobs ≡ some job
      → launch h id wf workers input_override ≡ ok s
      → s.event.output ≡ some out
      → get_or_else 64 job.output_size_limit_mb * 1024 * 1024 < 2 ^ 64
      → length out ≤ get_or_else 64 job.output_size_limit_mb * 1024 * 1024
  launch-output_size_limit id wf job workers input_override s out found q o fits =
      let (path, t, p, ran, small) =
        launch-IsOutput id wf job workers input_override s out found q o in
      ground arith
