-- ===== src/Remote/Worker.antt =====
-- A worker as the host sees it: requests that reach its handlers.
use fluxion.Prelude.{
  ℕ, length, ltb, not, String, Option, none, some, Bool, true, strip_prefix, ◌==◌, if◌then◌else◌,
}
use fluxion.Outcome.{Outcome, ok, err, panic}
use fluxion.Workflow.Validate.{◌<>◌}
use fluxion.Scheduler.FanIn.{Bytes}
use fluxion.Worker.Handlers.{
  Machine, WorkerState, RunResponse, JobEntry, Refusal, handle_cas_head, handle_cas_put, handle_run,
  handle_submit_job, handle_get_job,
}
use fluxion.Remote.Client.{Http, RunBody, StatusBody, Answer}

-- What a handler's answer is on the wire.
abbrev pub status_of : Outcome Refusal ℕ → Option ℕ
status_of (ok status) = some status
status_of (err r) = some r.code
status_of (panic f) = none

abbrev pub run_body : RunResponse → RunBody
run_body r = record {
  output = some r.output;
  compile_ms = some r.compile_ms;
  instantiate_ms = some r.instantiate_ms;
  execute_ms = some r.execute_ms;
}

abbrev pub run_reply : Outcome Refusal RunResponse → Answer RunBody
run_reply (ok r) = some (200, some (run_body r))
run_reply (err r) = some (r.code, none)
run_reply (panic f) = none

abbrev pub status_body : JobEntry → StatusBody
status_body e = record { status = some e.status; output = e.output; error = e.error }

abbrev pub job_reply : Outcome Refusal JobEntry → Answer StatusBody
job_reply (ok e) = some (200, some (status_body e))
job_reply (err r) = some (r.code, none)
job_reply (panic f) = none

module _ (m : Machine) (routed : Bool) where
  -- HEAD and PUT /components/{sha256}, if the path is one of these.
  abbrev pub head_at : Option String → WorkerState → Option ℕ
  head_at none w = some 404
  head_at (some d) w = if routed then some (handle_cas_head m d w) else some 404

  abbrev pub put_at : Option String → Bytes → WorkerState → WorkerState × Option ℕ
  put_at none body w = (w, some 404)
  put_at (some d) body w =
      let (answer, w') = handle_cas_put m d body w in
      if not routed
      then (w, some 404)
      else if ltb m.body_limit (length body)
      then (w, some 413)
      else (w', status_of answer)

  abbrev pub job_at : Option String → WorkerState → Answer StatusBody
  job_at none w = some (404, none)
  job_at (some id) w = job_reply (handle_get_job m id w)

-- Requests that reach one worker and no other, whose base URL is given. `routed` is whether the routes
-- of the component store are reached; a body that is too long is answered by axum, with 413. While the host sleeps, the worker may do anything.
abbrev pub served :
    Machine
    → String
    → Bool
    → (String → Option Bytes)
    → (WorkerState → String)
    → (WorkerState → ℕ)
    → (WorkerState → WorkerState)
    → Http
served m base routed read new_id now sleep = record {
  Net = WorkerState;
  read = read;
  sha256 = m.sha256;
  encode = m.encode;
  decode = m.decode;
  client = λ tls. true;
  head = λ tls url w. (w, head_at m routed (strip_prefix (base <> "/components/") url) w);
  put = λ tls url body w. put_at m routed (strip_prefix (base <> "/components/") url) body w;
  post_run = λ tls url req w.
      let (answer, w') = handle_run m req w in
      if not (url == base <> "/run")
      then (w, some (404, none))
      else if ltb m.body_limit (m.json_length req)
      then (w, some (413, none))
      else (w', run_reply answer);
  post_jobs = λ tls url req w.
      if not (url == base <> "/jobs")
      then (w, some (404, none))
      else if ltb m.body_limit (m.json_length req)
      then (w, some (413, none))
      else (handle_submit_job m (new_id w) req w, some (202, some (some (new_id w))));
  get_job = λ tls url w. (w, job_at m routed (strip_prefix (base <> "/jobs/") url) w);
  now = now;
  sleep = sleep;
}
