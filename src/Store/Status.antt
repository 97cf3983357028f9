-- ===== src/Store/Status.antt =====
-- What a run reads back from the store: the last status of each job, as far as a row keeps it.
use fluxion.Prelude.{
  String, List, [], ◌∷◌, Option, none, some, ◌==◌, ◌&&◌, lookup, if◌then◌else◌, ◌≡◌, refl, ap, ◌∙◌,
  inl, inr, arith, eq_iff, Bool-cases,
}
use fluxion.State.{JobStatus, pending, succeeded, failed, cancelled, skipped, as_millis}
use fluxion.Store.Tables.{JobDetail, JobRow, RunStore, upsert}
use fluxion.Store.Runs.{is_job, serialize_status, upsert_job, from_millis, status_of, jobs_of}

-- Times are kept in milliseconds, and a job that is not done is pending.
abbrev pub persisted : JobStatus → JobStatus
persisted (succeeded elapsed) = succeeded (from_millis (as_millis elapsed))
persisted (failed elapsed reason) = failed (from_millis (as_millis elapsed)) reason
persisted cancelled = cancelled
persisted skipped = skipped
persisted _ = pending

abbrev pub job_status : String → String → RunStore → Option JobStatus
job_status run_id job_id db = lookup job_id (jobs_of run_id db.job_states)

status_of-serialize_status :
    (id : String) (s : JobStatus) → status_of (serialize_status id s) ≡ persisted s
unfolding status_of serialize_status
status_of-serialize_status id (succeeded elapsed) = refl
status_of-serialize_status id (failed elapsed reason) = refl
status_of-serialize_status id cancelled = refl
status_of-serialize_status id skipped = refl
status_of-serialize_status id pending = refl
status_of-serialize_status id JobStatus.ready = refl
status_of-serialize_status id JobStatus.running = refl

job_id-serialize_status : (id : String) (s : JobStatus) → (serialize_status id s).job_id ≡ id
unfolding serialize_status
job_id-serialize_status id (succeeded elapsed) = refl
job_id-serialize_status id (failed elapsed reason) = refl
job_id-serialize_status id cancelled = refl
job_id-serialize_status id skipped = refl
job_id-serialize_status id pending = refl
job_id-serialize_status id JobStatus.ready = refl
job_id-serialize_status id JobStatus.running = refl

lookup-jobs_of-upsert :
    (run_id id r j : String) (d : JobDetail) (rows : List JobRow)
    → d.job_id ≡ id
    → lookup j (jobs_of r (upsert (is_job run_id id) (run_id, d) rows))
      ≡ (if run_id == r && id == j then some (status_of d) else lookup j (jobs_of r rows))
unfolding jobs_of
lookup-jobs_of-upsert run_id id r j d [] e = ground (arith, ap (λ x. x == j) e)
lookup-jobs_of-upsert run_id id r j d ((q, row) ∷ rows) e = ground (
  arith,
  ap (λ x. x == j) e,
  lookup-jobs_of-upsert run_id id r j d rows e,
  eq_iff q run_id,
  eq_iff row.job_id id,
  eq_iff q r,
  eq_iff run_id r,
  eq_iff row.job_id j,
  eq_iff id j,
)

-- An upsert changes the status of its job, and of no other.
job_status-upsert_job :
    (run_id id r j : String) (s : JobStatus) (db : RunStore)
    → job_status r j (upsert_job run_id id s db)
      ≡ (if run_id == r && id == j then some (persisted s) else job_status r j db)
unfolding upsert_job
job_status-upsert_job run_id id r j s db =
    lookup-jobs_of-upsert run_id id r j (serialize_status id s) db.job_states
      (job_id-serialize_status id s)
    ∙ ap (λ x. if run_id == r && id == j then some x else job_status r j db)
        (status_of-serialize_status id s)

-- The upserts of a run, the latest first.
abbrev pub replay : String → List (String × JobStatus) → RunStore → RunStore
replay run_id [] db = db
replay run_id ((id, s) ∷ older) db = upsert_job run_id id s (replay run_id older db)

pub job_status-replay :
    (run_id j : String) (history : List (String × JobStatus)) (db : RunStore)
    → job_status run_id j (replay run_id history db)
      ≡ elim (lookup j history) [ none ↦ job_status run_id j db | some s ↦ some (persisted s) ]
job_status-replay run_id j [] db = refl
job_status-replay run_id j ((id, s) ∷ older) db =
    job_status-upsert_job run_id id run_id j s (replay run_id older db)
    ∙ elim (Bool-cases (id == j)) [
      | inl e ↦ ground (arith, eq_iff run_id run_id)
      | inr e ↦ ground (arith, eq_iff run_id run_id, job_status-replay run_id j older db)
    ]
