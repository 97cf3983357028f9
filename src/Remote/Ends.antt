-- ===== src/Remote/Ends.antt =====
-- Waiting for a submitted job ends.
use fluxion.Prelude.{
  ℕ, zero, suc, ◌+◌, ◌*◌, ◌≤◌, String, Map, Option, none, some, true, leb, trim_end, ◌==◌, ◌≡◌, inl,
  inr, arith, Bool-cases,
}
use fluxion.Outcome.{Outcome, ok, err, panic}
use fluxion.Answers.{IsAnswer, IsAnswer-bind, IsAnswer-or_error}
use fluxion.Workflow.Types.{PermissionSet, TlsConfig}
use fluxion.Workflow.Validate.{◌<>◌}
use fluxion.Expand.Defs.{get_or_else, or_error}
use fluxion.Host.{JobMetrics}
use fluxion.Scheduler.FanIn.{Bytes}
use fluxion.Oci.Client.{is_success}
use fluxion.Remote.Client.{Http, RemoteError, StatusBody, Answer}
use fluxion.Remote.Async.{
  Verdict, done, again, second, output_or_error, status_verdict, body_verdict, verdict, poll,
  job_id_of, poll_submitted, submit, async_timeout, run_bytes_async, run_remote_async,
}

-- Time does not run backwards, and to sleep for a second takes a second at least.
pub record IsClock (h : Http) : Type 0 where
  pub asked :
      (tls : Option TlsConfig) (url : String) (s : h.Net) → h.now s ≤ h.now (h.get_job tls url s).0
  pub slept : (s : h.Net) → h.now s + second ≤ h.now (h.sleep s)

abbrev Settles : Verdict → Type 0
Settles (done r) = IsAnswer r
Settles again = Unit

module _ (h : Http) where
  output-IsAnswer : (output : Option String) → IsAnswer (output_or_error h output)
  output-IsAnswer output =
      IsAnswer-bind (or_error _ (h.decode (get_or_else "" output))) _
        (IsAnswer-or_error _ (h.decode (get_or_else "" output))) (λ bytes. tt)

  status_verdict-Settles : (job_id : String) (b : StatusBody) → Settles (status_verdict h job_id b)
  status_verdict-Settles job_id b =
      elim (Bool-cases (get_or_else "running" b.status == "succeeded")) [
        | inl e ↦ rw e (output-IsAnswer b.output)
        | inr e ↦ rw e (elim (Bool-cases (get_or_else "running" b.status == "failed")) [
          | inl f ↦ rw f tt
          | inr f ↦ rw f tt
        ])
      ]

  verdict-Settles : (job_id : String) (a : Answer StatusBody) → Settles (verdict h job_id a)
  verdict-Settles job_id none = tt
  verdict-Settles job_id (some (status, body)) = elim (Bool-cases (is_success status)) [
    | inl e ↦ rw e (by body)
    | inr e ↦ rw e tt
  ]
    where
      by : (body : Option StatusBody) → Settles (body_verdict h job_id body)
      by none = tt
      by (some b) = status_verdict-Settles job_id b

  round-IsAnswer :
      (v : Verdict) (s : h.Net) (later : Outcome RemoteError (Bytes × JobMetrics) × h.Net)
      → Settles v
      → IsAnswer later.0
      → (let r : Outcome RemoteError (Bytes × JobMetrics) × h.Net = elim v [
        | done r ↦ (r, s)
        | again ↦ later
      ] in
          IsAnswer r.0)
  round-IsAnswer (done r) s later settles a = settles
  round-IsAnswer again s later settles a = a

  -- With a round for each second that is left, and one more, the loop ends.
  poll-IsAnswer :
      (fuel : ℕ) (tls : Option TlsConfig) (url job_id : String) (deadline : ℕ) (s : h.Net)
      → IsClock h
      → deadline ≤ h.now s + fuel * second
      → IsAnswer (poll h (suc fuel) tls url job_id deadline s).0
  unfolding poll
  poll-IsAnswer zero tls url job_id deadline s c enough =
      let reached : leb deadline (h.now s) ≡ true = ground arith in rw (reached, poll) tt
  poll-IsAnswer (suc fuel) tls url job_id deadline s c enough =
      let (s1, a) = h.get_job tls url s in
      let later =
        poll-IsAnswer fuel tls url job_id deadline (h.sleep s1) c
          (omega (arith, c.slept s1, c.asked tls url s)) in
      elim (Bool-cases (leb deadline (h.now s))) [
        | inl e ↦ rw (e, poll) tt
        | inr e ↦
            rw (e, poll) (round-IsAnswer (verdict h job_id a) s1 _ (verdict-Settles job_id a) later)
      ]

  job_id_of-IsAnswer :
      (worker_url : String) (a : Answer (Option String)) → IsAnswer (job_id_of h worker_url a)
  job_id_of-IsAnswer worker_url none = tt
  job_id_of-IsAnswer worker_url (some (status, body)) = elim (Bool-cases (is_success status)) [
    | inl e ↦ rw e (
        IsAnswer-bind (or_error _ body) _ (IsAnswer-or_error _ body) (λ id. IsAnswer-or_error _ id))
    | inr e ↦ rw e tt
  ]

  module _ (latest : ℕ) where
    submitted-IsAnswer :
        (timeout : ℕ) (tls : Option TlsConfig) (base_url : String) (o : Outcome RemoteError String)
        (s : h.Net)
        → IsClock h
        → h.now s + timeout * second ≤ latest
        → IsAnswer o
        → IsAnswer (poll_submitted h latest timeout tls base_url o s).0
    submitted-IsAnswer timeout tls base_url (ok id) s c l a =
        let held : leb (h.now s + timeout * second) latest ≡ true = ground arith in
        rw held (
          poll-IsAnswer timeout tls (base_url <> "/jobs/" <> id) id (h.now s + timeout * second) s c
            (omega arith))
    submitted-IsAnswer timeout tls base_url (err e) s c l a = tt
    submitted-IsAnswer timeout tls base_url (panic f) s c l a = absurd a

    -- Whether the deadline of the job, which is taken after it was submitted, can be held by an Instant.
    abbrev pub IsHeld :
        String
        → Option Bytes
        → Bytes
        → PermissionSet
        → Map String
        → Option TlsConfig
        → h.Net
        → Type 0
    IsHeld worker_url none input perms env tls s = Unit
    IsHeld worker_url (some bytes) input perms env tls s =
        h.now (submit h latest (trim_end 0x2f worker_url) bytes input perms env tls s).0
          + async_timeout perms * second
        ≤ latest

    -- A job that is submitted to a worker comes to an end on the host, whatever the worker answers: with
    -- its output or with an error. The clock does not run backwards, a sleep of a second takes that
    -- long, and an Instant can hold the deadline of the job.
    pub run_remote_async-IsAnswer :
        (worker_url wasm_path : String) (input : Bytes) (perms : PermissionSet) (env : Map String)
        (tls : Option TlsConfig) (s : h.Net)
        → IsClock h
        → IsHeld worker_url (h.read wasm_path) input perms env tls s
        → IsAnswer (run_remote_async h latest worker_url wasm_path input perms env tls s).0
    unfolding run_remote_async
    run_remote_async-IsAnswer worker_url wasm_path input perms env tls s c = by (h.read wasm_path)
      where
        by :
            (file : Option Bytes)
            → IsHeld worker_url file input perms env tls s
            → IsAnswer (run_bytes_async h latest worker_url file input perms env tls s).0
        by none l = tt
        by (some bytes) l =
            let base_url = trim_end 0x2f worker_url in
            let (s2, a) = submit h latest base_url bytes input perms env tls s in
            elim (Bool-cases (h.client tls)) [
              | inl e ↦ rw e (
                  submitted-IsAnswer (async_timeout perms) tls base_url (job_id_of h worker_url a)
                    s2 c l (job_id_of-IsAnswer worker_url a))
              | inr e ↦ rw e tt
            ]
