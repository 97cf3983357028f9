-- ===== src/State.antt =====
-- crates/fluxion-core/src/state.rs and runner.rs: the status of a job, and the results of a run. A
-- duration is its number of nanoseconds.
use fluxion.Prelude.{ℕ, ◌/◌, ◌%◌, ◌^◌, String, List, Option, none, some, Bool, true, false}

pub data JobStatus : Type 0 where
  pending ready running : JobStatus
  succeeded : (elapsed : ℕ) → JobStatus
  failed : (elapsed : ℕ) (reason : String) → JobStatus
  cancelled skipped : JobStatus

unfoldable pub is_terminal : JobStatus → Bool
is_terminal (succeeded elapsed) = true
is_terminal (failed elapsed reason) = true
is_terminal cancelled = true
is_terminal skipped = true
is_terminal _ = false

unfoldable pub label : JobStatus → String
label pending = "PENDING"
label ready = "READY"
label running = "RUNNING"
label (succeeded elapsed) = "SUCCESS"
label (failed elapsed reason) = "FAILED"
label cancelled = "CANCELLED"
label skipped = "SKIPPED"

-- elapsed.as_millis() as u64
abbrev pub as_millis : ℕ → ℕ
as_millis elapsed = elapsed / 1_000_000 % 2 ^ 64

pub record JobResult : Type 0 where
  pub job_id : String
  pub status : String
  pub elapsed_ms : ℕ
  pub reason : Option String
  pub skipped : Bool
  pub compile_us : ℕ
  pub instantiate_us : ℕ
  pub execute_us : ℕ

abbrev pub from_succeeded : String → ℕ → Bool → JobResult
from_succeeded job_id elapsed was_skipped = record {
  job_id = job_id;
  status = "succeeded";
  elapsed_ms = as_millis elapsed;
  reason = none;
  skipped = was_skipped;
  compile_us = 0;
  instantiate_us = 0;
  execute_us = 0;
}

abbrev pub from_succeeded_with_metrics : String → ℕ → ℕ → ℕ → ℕ → JobResult
from_succeeded_with_metrics job_id elapsed compile_us instantiate_us execute_us = record {
  job_id = job_id;
  status = "succeeded";
  elapsed_ms = as_millis elapsed;
  reason = none;
  skipped = false;
  compile_us = compile_us;
  instantiate_us = instantiate_us;
  execute_us = execute_us;
}

abbrev pub from_skipped : String → JobResult
from_skipped job_id = record {
  job_id = job_id;
  status = "skipped";
  elapsed_ms = 0;
  reason = none;
  skipped = true;
  compile_us = 0;
  instantiate_us = 0;
  execute_us = 0;
}

abbrev pub from_failed : String → ℕ → String → JobResult
from_failed job_id elapsed reason = record {
  job_id = job_id;
  status = "failed";
  elapsed_ms = as_millis elapsed;
  reason = some reason;
  skipped = false;
  compile_us = 0;
  instantiate_us = 0;
  execute_us = 0;
}

pub record RunResult : Type 0 where
  pub run_id : String
  pub workflow_name : String
  pub jobs : List JobResult
  pub total_elapsed_ms : ℕ
  pub succeeded : ℕ
  pub total : ℕ
  pub success : Bool
