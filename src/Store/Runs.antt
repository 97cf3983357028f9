-- ===== src/Store/Runs.antt =====
-- The runs and the states of their jobs in crates/fluxion-core/src/store.rs. The time is an argument.
use fluxion.Prelude.{
  ℕ, ◌-◌, ◌*◌, ◌%◌, ◌^◌, String, List, [], ◌∷◌, ◌++◌, Map, map, none, some, Bool, ◌==◌, ◌&&◌, any,
  ltb, if◌then◌else◌,
}
use fluxion.Outcome.{Outcome, ok, err, ◌>>=◌}
use fluxion.State.{JobStatus, pending, running, succeeded, failed, cancelled, skipped, as_millis}
use fluxion.Expand.Defs.{get_or_else}
use fluxion.Store.Tables.{
  RunDetail, RunSummary, JobDetail, JobRow, RunStore, StoreError, constraint_failed, run_not_found,
  select, delete, update, affected, upsert, order_by_desc, limit,
}

abbrev pub is_run : String → RunDetail → Bool
is_run run_id r = r.id == run_id

abbrev pub is_job : String → String → JobRow → Bool
is_job run_id job_id r = r.0 == run_id && r.1.job_id == job_id

unfoldable pub create_run : ℕ → String → String → String → RunStore → Outcome StoreError RunStore
create_run now run_id workflow_name workflow_path db =
    if any (is_run run_id) db.runs
    then err (constraint_failed run_id)
    else ok (record db {
      runs =
          db.runs
          ++ record {
            id = run_id;
            workflow_name = workflow_name;
            workflow_path = workflow_path;
            started_at = now;
            completed_at = none;
            status = "running";
          }
            ∷ [];
    })

-- serialize_status, as the row of the job.
unfoldable pub serialize_status : String → JobStatus → JobDetail
serialize_status job_id (succeeded elapsed) = record {
  job_id = job_id;
  status = "succeeded";
  elapsed_ms = some (as_millis elapsed);
  reason = none;
}
serialize_status job_id (failed elapsed reason) = record {
  job_id = job_id;
  status = "failed";
  elapsed_ms = some (as_millis elapsed);
  reason = some reason;
}
serialize_status job_id cancelled = record {
  job_id = job_id;
  status = "cancelled";
  elapsed_ms = none;
  reason = none;
}
serialize_status job_id running = record {
  job_id = job_id;
  status = "running";
  elapsed_ms = none;
  reason = none;
}
serialize_status job_id skipped = record {
  job_id = job_id;
  status = "skipped";
  elapsed_ms = none;
  reason = none;
}
serialize_status job_id _ = record {
  job_id = job_id;
  status = "pending";
  elapsed_ms = none;
  reason = none;
}

unfoldable pub upsert_job : String → String → JobStatus → RunStore → RunStore
unfolding serialize_status
upsert_job run_id job_id status db = record db {
  job_states = upsert (is_job run_id job_id) (run_id, serialize_status job_id status) db.job_states;
}

unfoldable pub complete_run : ℕ → String → Bool → RunStore → RunStore
complete_run now run_id success db = record db {
  runs =
      update (is_run run_id)
        (λ r. record r {
          status = if success then "succeeded" else "failed";
          completed_at = some now;
        })
        db.runs;
}

-- Duration::from_millis
abbrev pub from_millis : ℕ → ℕ
from_millis ms = ms * 1_000_000

-- What a row says about its job.
unfoldable pub status_of : JobDetail → JobStatus
status_of r =
    if r.status == "succeeded"
    then succeeded (from_millis (get_or_else 0 r.elapsed_ms))
    else if r.status == "failed"
    then failed (from_millis (get_or_else 0 r.elapsed_ms)) (get_or_else "" r.reason)
    else if r.status == "cancelled"
    then cancelled
    else if r.status == "skipped"
    then skipped
    else pending

-- The rows of a run, collected as a map.
unfoldable pub jobs_of : String → List JobRow → Map JobStatus
unfolding status_of
jobs_of run_id [] = []
jobs_of run_id ((r, j) ∷ rows) =
    let rest = jobs_of run_id rows in if r == run_id then (j.job_id, status_of j) ∷ rest else rest

-- The row with a key, if there is one.
abbrev pub first_or {ℓ} : {A : Type ℓ} → StoreError → List A → Outcome StoreError A
first_or e [] = err e
first_or e (x ∷ xs) = ok x

unfoldable pub load_run : String → RunStore → Outcome StoreError (String × Map JobStatus)
unfolding jobs_of
load_run run_id db = do
  r ← first_or (run_not_found run_id) (select (is_run run_id) db.runs)
  ok (r.workflow_path, jobs_of run_id db.job_states)

unfoldable pub get_run : String → RunStore → Outcome StoreError RunDetail
get_run run_id db = first_or (run_not_found run_id) (select (is_run run_id) db.runs)

unfoldable pub get_run_jobs : String → RunStore → List JobDetail
get_run_jobs run_id db = map (λ (r : JobRow). r.1) (select (λ r. r.0 == run_id) db.job_states)

-- now_secs().saturating_sub(before_days * 86400), with the product in 64 bits.
abbrev pub cutoff : ℕ → ℕ → ℕ
cutoff now before_days = now - before_days * 86400 % 2 ^ 64

abbrev pub is_older : ℕ → RunDetail → Bool
is_older time r = ltb r.started_at time

-- The jobs of the runs that are older, and then these runs; the number of the runs.
unfoldable pub prune : ℕ → ℕ → RunStore → RunStore × ℕ
prune now before_days db =
    let old = select (is_older (cutoff now before_days)) db.runs in
    (
      record db {
        job_states = delete (λ j. any (is_run j.0) old) db.job_states;
        runs = delete (is_older (cutoff now before_days)) db.runs;
      },
      affected (is_older (cutoff now before_days)) db.runs,
    )

abbrev pub summary_of : RunDetail → RunSummary
summary_of r = record {
  id = r.id;
  workflow_name = r.workflow_name;
  started_at = r.started_at;
  status = r.status;
}

-- A limit that is negative as an i64 is none.
unfoldable pub list_runs : ℕ → RunStore → List RunSummary
list_runs n db =
    let all = order_by_desc (λ (r : RunDetail). r.started_at) db.runs in
    map summary_of (if ltb n (2 ^ 63) then limit n all else all)
