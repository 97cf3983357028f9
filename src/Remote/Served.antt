-- ===== src/Remote/Served.antt =====
-- A job that is run on a worker.
use fluxion.Prelude.{
  ℕ, ◌*◌, ◌≤◌, ltb, length, not, ◌/◌, String, Map, Option, none, some, Bool, true, false, decimal,
  trim_end, strip_prefix, lookup, insert, contains_key, ◌==◌, eq_ignore_ascii_case, if◌then◌else◌,
  ◌≡◌, refl, sym, ap, subst, ◌∙◌, inl, inr, arith, eq_self, Bool-cases, lookup-of_key,
  lookup-insert, contains_key-of_lookup, eq_ignore_ascii_case_self, strip_prefix-append,
}
use text.Mathlib.TextLemmas.{append_assoc}
use fluxion.Outcome.{Outcome, ok, err, ◌>>=◌}
use fluxion.Workflow.Types.{PermissionSet, TlsConfig}
use fluxion.Workflow.Validate.{◌<>◌}
use fluxion.Expand.Defs.{or_error}
use fluxion.Host.{JobMetrics, Ran, returned, failed, joined}
use fluxion.Scheduler.FanIn.{Bytes}
use fluxion.Worker.Handlers.{
  Machine, WorkerState, RunRequest, RunResponse, Refusal, handle_cas_head, handle_cas_put,
  handle_run, internal, bad_request, response_of, component_bytes, component_of, by_digest,
  prepared, run_found, run_result, ran,
}
use fluxion.Worker.Steps.{Steps, fresh_worker, and_then, uploaded}
use fluxion.Worker.Cas.{IsSound, HasDigests, component_bytes-digest}
use fluxion.Remote.Client.{
  Http, RemoteError, execution, Answer, RunBody, succeeds, cas_upload_ok, body_of, run_answer,
  run_bytes, run_remote,
}
use fluxion.Remote.Worker.{served, head_at, put_at, run_reply, status_of}

-- Base64 is read back, no two components have the same digest, and the worker's disk works.
pub record IsWorking (m : Machine) : Type 0 where
  pub sound : IsSound m
  pub codec : (b : Bytes) → m.decode (m.encode b) ≡ some b
  pub collision_free : (a b : Bytes) → eq_ignore_ascii_case (m.sha256 a) (m.sha256 b) ≡ true → a ≡ b
  pub readable : (path : String) → m.can_read path ≡ true
  pub temporary : m.can_write_tmp ≡ true

-- The worker's times are in milliseconds.
abbrev pub rounded : JobMetrics → JobMetrics
rounded t = record {
  compile = t.compile / 1_000_000 * 1_000_000;
  instantiate = t.instantiate / 1_000_000 * 1_000_000;
  execute = t.execute / 1_000_000 * 1_000_000;
}

-- What the host gets for what the worker's host gives.
abbrev pub result_of : String → Ran → Outcome RemoteError (Bytes × JobMetrics)
result_of worker_url (returned output t) = ok (output, rounded t)
result_of worker_url (failed e) = err (execution ("worker " <> worker_url <> " returned 500"))
result_of worker_url (joined e) = err (execution ("worker " <> worker_url <> " returned 500"))

-- The worker takes the request for the job, whether it names the component or has it with it.
abbrev pub IsShort : Machine → Option Bytes → Bytes → PermissionSet → Map String → Type 0
IsShort m none input perms env = Unit
IsShort m (some wasm) input perms env =
    (m.json_length (record {
      component = none;
      component_sha256 = some (m.sha256 wasm);
      input = m.encode input;
      permissions = perms;
      env = env;
    })
      ≤ m.body_limit)
    × (m.json_length (record {
      component = some (m.encode wasm);
      component_sha256 = none;
      input = m.encode input;
      permissions = perms;
      env = env;
    })
        ≤ m.body_limit)

module _ (m : Machine) (v : IsWorking m) (files : Map Bytes)
    (start : HasDigests m (fresh_worker files)) where
  abbrev answer_of : Ran → Outcome Refusal RunResponse
  answer_of (returned output t) = ok (response_of m output t)
  answer_of (failed e) = err (internal e)
  answer_of (joined e) = err (internal e)

  -- A component that the worker has is found under its digest.
  component_bytes-known :
      (w : WorkerState) (req : RunRequest) (wasm : Bytes)
      → Steps m (fresh_worker files) w
      → req.component_sha256 ≡ some (m.sha256 wasm)
      → contains_key (m.cas_path (m.sha256 wasm)) w.files ≡ true
      → (component_bytes m req w).0 ≡ ok wasm
  unfolding component_bytes
  component_bytes-known w req wasm steps named known =
      let (b, found) = lookup-of_key (m.cas_path (m.sha256 wasm)) w.files known in
      let out : (component_bytes m req w).0 ≡ ok b =
        ap (λ o. (component_of m o req.component w).0) named
        ∙ (ap (λ o. (by_digest m (m.sha256 wasm) o req.component w).0) found
            ∙ ap (λ r. if r then ok b else err (internal "read failed"))
                (v.readable (m.cas_path (m.sha256 wasm)))) in
      let same =
        component_bytes-digest m files w req (m.sha256 wasm) b v.sound start steps named
          (v.sound.hex wasm) known out in
      out ∙ ap ok (v.collision_free b wasm same)

  component_bytes-inline :
      (w : WorkerState) (req : RunRequest) (wasm : Bytes)
      → req.component_sha256 ≡ none
      → req.component ≡ some (m.encode wasm)
      → (component_bytes m req w).0 ≡ ok wasm
  unfolding component_bytes
  component_bytes-inline w req wasm none_named sent =
      ap (λ o. (component_of m o req.component w).0) none_named
      ∙ (ap (λ c. (component_of m none c w).0) sent
          ∙ ap (or_error (bad_request "invalid component base64")) (v.codec wasm))

  abbrev gather :
      Outcome Refusal Bytes → Outcome Refusal Bytes → Bool → Outcome Refusal (Bytes × Bytes)
  gather component input temporary = do
    c ← component
    i ← input
    (if temporary then ok (c, i) else err (internal "no temporary file"))

  run_result-answer_of : (r : Ran) (w : WorkerState) → (run_result m r w).0 ≡ answer_of r
  run_result-answer_of (returned output t) w = refl
  run_result-answer_of (failed e) w = refl
  run_result-answer_of (joined e) w = refl

  handle_run-of_bytes :
      (w : WorkerState) (req : RunRequest) (wasm input : Bytes)
      → (component_bytes m req w).0 ≡ ok wasm
      → req.input ≡ m.encode input
      → (handle_run m req w).0 ≡ answer_of (m.run_component wasm input req.permissions req.env)
  unfolding handle_run prepared
  handle_run-of_bytes w req wasm input bytes sent =
      let read : or_error (bad_request "invalid input base64") (m.decode req.input) ≡ ok input =
        ap (λ s. or_error (bad_request "invalid input base64") (m.decode s)) sent
        ∙ ap (or_error (bad_request "invalid input base64")) (v.codec input) in
      let both : (prepared m req w).0 ≡ ok (wasm, input) =
        ap
          (λ c.
            gather c (or_error (bad_request "invalid input base64") (m.decode req.input))
              m.can_write_tmp)
          bytes
        ∙ (ap (λ i. gather (ok wasm) i m.can_write_tmp) read
            ∙ ap (λ t. gather (ok wasm) (ok input) t) v.temporary) in
      ap (λ p. (run_found m req p (prepared m req w).1).0) both
      ∙ run_result-answer_of (ran m req wasm input) (prepared m req w).1

  run_answer-of_ran :
      (h : Http) (worker_url : String) (r : Ran)
      → ((b : Bytes) → h.decode (m.encode b) ≡ some b)
      → run_answer h worker_url (run_reply (answer_of r)) ≡ result_of worker_url r
  unfolding decimal
  run_answer-of_ran h worker_url (returned output t) c =
      ap (λ o. or_error (execution "invalid base64") o >>= λ b. ok (b, rounded t)) (c output)
  run_answer-of_ran h worker_url (failed e) c = refl
  run_answer-of_ran h worker_url (joined e) c = refl

  -- An upload that succeeds leaves the component on the worker.
  handle_cas_put-known :
      (w : WorkerState) (wasm : Bytes)
      → succeeds (status_of (handle_cas_put m (m.sha256 wasm) wasm w).0) ≡ true
      → contains_key (m.cas_path (m.sha256 wasm)) (handle_cas_put m (m.sha256 wasm) wasm w).1.files
        ≡ true
  unfolding handle_cas_put
  handle_cas_put-known w wasm h = elim (Bool-cases (m.can_write (m.cas_path (m.sha256 wasm)))) [
    | inl e ↦
        let path = m.cas_path (m.sha256 wasm) in
        rw (eq_ignore_ascii_case_self (m.sha256 wasm), e)
          (contains_key-of_lookup path (insert path wasm w.files) wasm (
            lookup-insert path path wasm w.files
            ∙ ap (λ b. if b then some wasm else lookup path w.files) (eq_self path)))
    | inr e ↦
        let no : false ≡ true = rw (eq_ignore_ascii_case_self (m.sha256 wasm), e) at h in
        absurd (ground arith)
  ]

  module _ (routed : Bool) (read : String → Option Bytes) (new_id : WorkerState → String)
      (now : WorkerState → ℕ) (sleep : WorkerState → WorkerState) (worker_url : String) where
    abbrev http : Http
    http = served m (trim_end 0x2f worker_url) routed read new_id now sleep

    abbrev uploads : Bytes → WorkerState → Option String → Bool × WorkerState
    uploads wasm w found =
        if succeeds (head_at m routed found w)
        then (true, w)
        else (succeeds (put_at m routed found wasm w).1, (put_at m routed found wasm w).0)

    abbrev Known : Bytes → Bool × WorkerState → Type 0
    Known wasm r =
        Steps m (fresh_worker files) r.1
        × (r.0 ≡ true → contains_key (m.cas_path (m.sha256 wasm)) r.1.files ≡ true)

    uploads-Known :
        (w : WorkerState) (wasm : Bytes)
        → Steps m (fresh_worker files) w
        → Known wasm (uploads wasm w (some (m.sha256 wasm)))
    unfolding handle_cas_head
    uploads-Known w wasm steps = elim (Bool-cases routed) [
      | inr e ↦ rw e (steps, λ h. cc)
      | inl e ↦ rw e (elim (Bool-cases (contains_key (m.cas_path (m.sha256 wasm)) w.files)) [
        | inl k ↦ rw (k, handle_cas_head) (steps, λ h. k)
        | inr k ↦
            rw (k, handle_cas_head)
              (elim (Bool-cases (ltb m.body_limit (length wasm))) [
                | inl l ↦ rw l (steps, λ h. cc)
                | inr l ↦
                    rw l
                      (and_then steps (uploaded (m.sha256 wasm) wasm), handle_cas_put-known w wasm)
              ])
      ])
    ]

    -- After the requests for the component, it is on the worker if the host believes so.
    cas_upload_ok-Known :
        (tls : Option TlsConfig) (w : WorkerState) (wasm : Bytes)
        → Steps m (fresh_worker files) w
        → Known wasm (
            cas_upload_ok http tls
              (trim_end 0x2f worker_url <> "/components/" <> m.sha256 wasm)
              wasm
              w)
    unfolding cas_upload_ok
    cas_upload_ok-Known tls w wasm steps =
        let stripped : strip_prefix (trim_end 0x2f worker_url <> "/components/")
              (trim_end 0x2f worker_url <> "/components/" <> m.sha256 wasm)
            ≡ some (m.sha256 wasm) =
          ap (strip_prefix (trim_end 0x2f worker_url <> "/components/"))
            (sym (append_assoc (trim_end 0x2f worker_url) "/components/" (m.sha256 wasm)))
          ∙ strip_prefix-append (trim_end 0x2f worker_url <> "/components/") (m.sha256 wasm) in
        subst (λ found. Known wasm (uploads wasm w found)) (sym stripped)
          (uploads-Known w wasm steps)

    body_of-bytes :
        (wasm input : Bytes) (perms : PermissionSet) (env : Map String) (r : Bool × WorkerState)
        → Known wasm r
        → (component_bytes m (body_of http r.0 wasm input perms env) r.1).0 ≡ ok wasm
    body_of-bytes wasm input perms env (true, w) (steps, known) =
        component_bytes-known w (body_of http true wasm input perms env) wasm steps refl
          (known refl)
    body_of-bytes wasm input perms env (false, w) (steps, known) =
        component_bytes-inline w (body_of http false wasm input perms env) wasm refl refl

    body_of-call :
        (wasm input : Bytes) (perms : PermissionSet) (env : Map String) (r : Bool × WorkerState)
        → Known wasm r
        → (handle_run m (body_of http r.0 wasm input perms env) r.1).0
          ≡ answer_of (m.run_component wasm input perms env)
    body_of-call wasm input perms env (true, w) k =
        handle_run-of_bytes w (body_of http true wasm input perms env) wasm input
          (body_of-bytes wasm input perms env (true, w) k) refl
    body_of-call wasm input perms env (false, w) k =
        handle_run-of_bytes w (body_of http false wasm input perms env) wasm input
          (body_of-bytes wasm input perms env (false, w) k) refl

    abbrev reply :
        Bool
        → Bool
        → Outcome Refusal RunResponse × WorkerState
        → WorkerState
        → WorkerState × Answer RunBody
    reply is_run long r w =
        if not is_run
        then (w, some (404, none))
        else if long
        then (w, some (413, none))
        else (r.1, run_reply r.0)

    reply-result :
        (req : RunRequest) (w : WorkerState) (r : Ran)
        → (handle_run m req w).0 ≡ answer_of r
        → m.json_length req ≤ m.body_limit
        → run_answer http worker_url
            (reply
              (trim_end 0x2f worker_url <> "/run" == trim_end 0x2f worker_url <> "/run")
              (ltb m.body_limit (m.json_length req))
              (handle_run m req w)
              w).1
          ≡ result_of worker_url r
    reply-result req w r e short =
        let fits : ltb m.body_limit (m.json_length req) ≡ false = ground arith in
        ap
          (λ b.
            run_answer http worker_url
              (reply b (ltb m.body_limit (m.json_length req)) (handle_run m req w) w).1)
          (eq_self (trim_end 0x2f worker_url <> "/run"))
        ∙ (ap (λ l. run_answer http worker_url (reply true l (handle_run m req w) w).1) fits
            ∙ (ap (λ a. run_answer http worker_url (run_reply a)) e
                ∙ run_answer-of_ran http worker_url r v.codec))

    abbrev expected :
        Option Bytes → Bytes → PermissionSet → Map String → Outcome RemoteError (Bytes × JobMetrics)
    expected none input perms env = err (execution "cannot read the component")
    expected (some wasm) input perms env =
        result_of worker_url (m.run_component wasm input perms env)

    fitting :
        (wasm input : Bytes) (perms : PermissionSet) (env : Map String)
        → IsShort m (some wasm) input perms env
        → (sent : Bool) → m.json_length (body_of http sent wasm input perms env) ≤ m.body_limit
    fitting wasm input perms env short true = short.0
    fitting wasm input perms env short false = short.1

    run_bytes-result :
        (file : Option Bytes) (input : Bytes) (perms : PermissionSet) (env : Map String)
        (tls : Option TlsConfig) (w : WorkerState)
        → Steps m (fresh_worker files) w
        → IsShort m file input perms env
        → (run_bytes http worker_url file input perms env tls w).0 ≡ expected file input perms env
    run_bytes-result none input perms env tls w steps short = refl
    run_bytes-result (some wasm) input perms env tls w steps short =
        let r =
          cas_upload_ok http none (trim_end 0x2f worker_url <> "/components/" <> m.sha256 wasm) wasm
            w in
        reply-result (body_of http r.0 wasm input perms env) r.1
          (m.run_component wasm input perms env)
          (body_of-call wasm input perms env r (cas_upload_ok-Known none w wasm steps))
          (fitting wasm input perms env short r.0)

pub run_remote-result :
    (m : Machine) (routed : Bool) (read : String → Option Bytes) (new_id : WorkerState → String)
    (now : WorkerState → ℕ) (sleep : WorkerState → WorkerState) (worker_url wasm_path : String)
    (input : Bytes) (perms : PermissionSet) (env : Map String) (tls : Option TlsConfig)
    (files : Map Bytes) (w : WorkerState)
    → IsWorking m
    → HasDigests m (fresh_worker files)
    → Steps m (fresh_worker files) w
    → IsShort m (read wasm_path) input perms env
    → (run_remote
        (served m (trim_end 0x2f worker_url) routed read new_id now sleep)
        worker_url
        wasm_path
        input
        perms
        env
        tls
        w).0
      ≡ elim (read wasm_path) [
        | none ↦ err (execution "cannot read the component")
        | some wasm ↦ result_of worker_url (m.run_component wasm input perms env)
      ]
unfolding run_remote
run_remote-result m routed read new_id now sleep worker_url wasm_path input perms env tls files w v
      start steps =
    by (read wasm_path)
  where
    by :
        (file : Option Bytes)
        → IsShort m file input perms env
        → (run_bytes
            (served m (trim_end 0x2f worker_url) routed read new_id now sleep)
            worker_url
            file
            input
            perms
            env
            tls
            w).0
          ≡ elim file [
            | none ↦ err (execution "cannot read the component")
            | some wasm ↦ result_of worker_url (m.run_component wasm input perms env)
          ]
    by none short = refl
    by (some wasm) short =
        run_bytes-result m v files start routed read new_id now sleep worker_url (some wasm) input
          perms env tls w steps short
