-- ===== src/Tests/Workers.antt =====
-- Tests of the worker process.
use fluxion.Prelude.{to_lower, eq_ignore_ascii_case, [], ◌∷◌, none, some, true, ◌≡◌, refl, arith}
use fluxion.Outcome.{ok}
use fluxion.Workflow.Types.{default_permissions}
use fluxion.Host.{Ran, returned, joined}
use fluxion.Worker.Handlers.{
  Machine, WorkerState, RunRequest, JobEntry, handle_cas_put, component_bytes, prepared, handle_run,
  run_request_inner, handle_submit_job, run_task, handle_get_job,
}
use fluxion.Worker.Active.{run_request_inner-active}
use fluxion.Worker.Steps.{
  fresh_worker, Step, Steps, still, and_then, uploaded, called, submitted, ended,
}
use fluxion.Worker.Cas.{IsSound, is_hex, component_bytes-digest}
use fluxion.Worker.Jobs.{is_final, handle_get_job-final, handle_get_job-ends}

-- All texts decode to one byte, a digest is its path, and an input panics if it is "7".
abbrev machine : Ran → Machine
machine r = record {
  decode = λ s. some (7 ∷ []);
  encode = λ b. "out";
  sha256 = λ b. "ab";
  cas_path = λ d. d;
  can_read = λ p. true;
  can_write = λ p. true;
  partial = λ p b. none;
  can_write_tmp = true;
  run_component = λ c i p e. r;
  json_length = λ req. 100;
  body_limit = 2_097_152;
}

abbrev good : Machine
good = machine (returned [] (record { compile = 1; instantiate = 1; execute = 1 }))

abbrev bad : Machine
bad = machine (joined "panicked")

abbrev call : RunRequest
call = record {
  component = some "AA==";
  component_sha256 = some "ab";
  input = "";
  permissions = default_permissions;
  env = [];
}

-- After a job that panicked the worker still counts it.
run_request_inner-active_example : (run_request_inner bad call (fresh_worker [])).1.active ≡ 1
unfolding prepared component_bytes
run_request_inner-active_example = run_request_inner-active bad call (fresh_worker []) (omega arith)

abbrev stocked : WorkerState
stocked = record (fresh_worker []) { files = ("ab", 7 ∷ []) ∷ [] }

uploads : Steps good (fresh_worker []) stocked
unfolding handle_cas_put eq_ignore_ascii_case to_lower
uploads = and_then still (uploaded "ab" (7 ∷ []))

good-IsSound : IsSound good
unfolding is_hex
good-IsSound = record { hex = λ b. refl; apart = λ a b h k e. e; atomic = λ p b e. refl }

component_bytes-digest_example : eq_ignore_ascii_case "ab" "ab" ≡ true
unfolding is_hex component_bytes
component_bytes-digest_example =
    component_bytes-digest good [] stocked call "ab" (7 ∷ []) good-IsSound (λ p q h. cc) uploads
      refl refl refl refl

abbrev waiting : WorkerState
waiting = handle_submit_job good "j" call stocked

submits : Steps good (fresh_worker []) waiting
submits = and_then uploads (submitted "j" call refl)

done : Steps good (fresh_worker []) (run_task good "j" call waiting)
unfolding handle_submit_job
done = and_then submits (ended "j" call refl)

abbrev succeeded_entry : JobEntry
succeeded_entry = record { status = "succeeded"; output = some "out"; error = none }

succeeded : handle_get_job good "j" (run_task good "j" call waiting) ≡ ok succeeded_entry
unfolding handle_get_job run_task handle_submit_job run_request_inner prepared component_bytes
succeeded = refl

-- Another call leaves the entry alone.
handle_get_job-final_example :
    handle_get_job good "j" (handle_run good call (run_task good "j" call waiting)).1
    ≡ ok succeeded_entry
handle_get_job-final_example =
    handle_get_job-final good [] "j" succeeded_entry done (and_then still (called call)) succeeded
      refl

abbrev running_job : JobEntry
running_job = record { status = "running"; output = none; error = none }

is_waiting : handle_get_job good "j" waiting ≡ ok running_job
unfolding handle_get_job handle_submit_job
is_waiting = refl

handle_get_job-ends_example :
    (x : WorkerState) × Step good waiting x
    × ((a : JobEntry) × (handle_get_job good "j" x ≡ ok a) × (is_final a ≡ true))
handle_get_job-ends_example = handle_get_job-ends good [] "j" running_job submits is_waiting refl
