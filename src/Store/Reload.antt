-- ===== src/Store/Reload.antt =====
-- A run that is created, written to and loaded again.
use fluxion.Prelude.{
  ℕ, String, List, [], ◌∷◌, ◌++◌, Map, none, some, false, ◌==◌, any, lookup, ◌≡◌, refl, ◌∙◌, inl,
  inr, arith, eq_iff, Bool-cases,
}
use fluxion.Outcome.{ok}
use fluxion.State.{JobStatus}
use fluxion.Store.Tables.{RunDetail, JobRow, RunStore, select}
use fluxion.Store.Runs.{is_run, create_run, upsert_job, jobs_of, load_run}
use fluxion.Store.Status.{persisted, replay, job_status-replay}

runs-replay :
    (run_id : String) (history : List (String × JobStatus)) (db : RunStore)
    → (replay run_id history db).runs ≡ db.runs
unfolding upsert_job
runs-replay run_id [] db = refl
runs-replay run_id ((id, s) ∷ older) db = runs-replay run_id older db

jobs_of-none :
    (run_id j : String) (rows : List JobRow)
    → any (λ r. r.0 == run_id) rows ≡ false
    → lookup j (jobs_of run_id rows) ≡ none
unfolding jobs_of
jobs_of-none run_id j [] h = refl
jobs_of-none run_id j ((r, d) ∷ rows) h = ground (arith, jobs_of-none run_id j rows)

-- Only the row that is appended has the name.
select-appended :
    (run_id : String) (runs : List RunDetail) (r : RunDetail)
    → any (is_run run_id) runs ≡ false
    → r.id ≡ run_id
    → select (is_run run_id) (runs ++ r ∷ []) ≡ r ∷ []
select-appended run_id [] r h e = rw ((eq_iff r.id run_id).1 e) refl
select-appended run_id (x ∷ runs) r h e = ground (arith, select-appended run_id runs r, e)

-- A run that was created, with a name that the job table does not know yet, is loaded with its path
-- and for each job the last status that was written, as far as the store keeps it.
pub load_run-replay :
    (now : ℕ) (run_id name path : String) (history : List (String × JobStatus)) (db db' : RunStore)
    → create_run now run_id name path db ≡ ok db'
    → any (λ r. r.0 == run_id) db.job_states ≡ false
    → (jobs : Map JobStatus) × (load_run run_id (replay run_id history db') ≡ ok (path, jobs))
      × ((j : String)
          → lookup j jobs ≡ elim (lookup j history) [ none ↦ none | some s ↦ some (persisted s) ])
unfolding load_run create_run
load_run-replay now run_id name path history db db' h fresh =
    elim (Bool-cases (any (is_run run_id) db.runs)) [
      | inl e ↦ absurd (ground arith)
      | inr e ↦
          let created : RunStore = record db { runs = db.runs ++ row ∷ [] } in
          let same : db' ≡ created = ground arith in
          rw same (
            jobs_of run_id (replay run_id history created).job_states,
            rw (runs-replay run_id history created)
                (rw (select-appended run_id db.runs row e refl) refl),
            λ j. job_status-replay run_id j history created ∙ rest created j,
          )
    ]
  where
    row : RunDetail
    row = record {
      id = run_id;
      workflow_name = name;
      workflow_path = path;
      started_at = now;
      completed_at = none;
      status = "running";
    }

    rest :
        (created : RunStore) (j : String)
        → elim (lookup j history) [
          | none ↦ lookup j (jobs_of run_id db.job_states)
          | some s ↦ some (persisted s)
        ]
          ≡ elim (lookup j history) [ none ↦ none | some s ↦ some (persisted s) ]
    rest created j = ground (arith, jobs_of-none run_id j db.job_states fresh)
