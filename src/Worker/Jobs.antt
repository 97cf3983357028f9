-- ===== src/Worker/Jobs.antt =====
-- Submitted jobs: each ends, and then its result stays.
use fluxion.Prelude.{
  String, Map, Option, none, some, Bool, true, false, not, ◌==◌, lookup, insert, contains_key,
  remove, lookup-remove, ◌≡◌, refl, sym, ap, subst, ◌∙◌, inl, inr, arith, Bool-cases, String-cases,
  eq_self, lookup-insert, contains_key-of_lookup,
}
use fluxion.Outcome.{Outcome, ok, err, panic}
use fluxion.Expand.Defs.{or_error, get_or_else}
use fluxion.Scheduler.FanIn.{Bytes}
use fluxion.Worker.Handlers.{
  Machine, WorkerState, RunRequest, JobEntry, Refusal, run_request_inner, handle_submit_job,
  run_task, running_entry, entry_of, not_found, handle_get_job,
}
use fluxion.Worker.Steps.{
  fresh_worker, Step, uploaded, called, submitted, ended, Steps, Steps-preserve,
}
use fluxion.Answers.{IsAnswer}
use fluxion.Worker.Table.{Table, table, put-table, handle_run-table, inner-table, IsAnswer-inner}

-- GET /jobs/:id no longer says that the job is running.
abbrev pub is_final : JobEntry → Bool
is_final e = not (e.status == "running")

-- What the table says of a job, and whether its task is still to end.
data IsMatched : Option JobEntry → Option RunRequest → Type 0 where
  unknown : IsMatched none none
  pending : {req : RunRequest} → IsMatched (some running_entry) (some req)
  final : {e : JobEntry} → is_final e ≡ true → IsMatched (some e) none

pub Matched : Table → Type 0
Matched t = (id : String) → IsMatched (lookup id t.0) (lookup id t.1)

Matched-submitted :
    (id : String) (req : RunRequest) (t : Table)
    → Matched t
    → Matched (insert id running_entry t.0, insert id req t.1)
unfolding Matched
Matched-submitted id req t p j = rw (lookup-insert id j running_entry t.0) (
    rw (lookup-insert id j req t.1)
      (elim (Bool-cases (id == j)) [ inl e ↦ rw e pending | inr e ↦ rw e (p j) ]))

Matched-ended :
    (id : String) (e : JobEntry) (t : Table)
    → is_final e ≡ true
    → Matched t
    → Matched (insert id e t.0, remove id t.1)
unfolding Matched
Matched-ended id e t f p j =
    rw lookup-insert (
      rw lookup-remove
        (elim (Bool-cases (id == j)) [ inl q ↦ rw q (final f) | inr q ↦ rw q (p j) ]))

lookup-inserted :
    (id : String) (e : JobEntry) (jobs : Map JobEntry) → lookup id (insert id e jobs) ≡ some e
lookup-inserted id e jobs = rw lookup-insert (rw eq_self refl)

clash : true ≡ false → ⊥
clash p = cc

is_final-entry_of : (o : Outcome String String) → IsAnswer o → is_final (entry_of o) ≡ true
is_final-entry_of (ok output) h = ground arith
is_final-entry_of (err e) h = ground arith
is_final-entry_of (panic p) h = absurd h

module _ (m : Machine) where
  run_task-table :
      (id : String) (req : RunRequest) (w : WorkerState)
      → table (run_task m id req w)
        ≡ (insert id (entry_of (run_request_inner m req w).0) w.jobs, remove id w.tasks)
  unfolding run_task
  run_task-table id req w =
      ap (λ t. (insert id (entry_of (run_request_inner m req w).0) t.0, remove id t.1))
        (inner-table m req w)

  Step-Matched : (w x : WorkerState) → Step m w x → Matched (table w) → Matched (table x)
  unfolding handle_submit_job
  Step-Matched w x (uploaded sha256 body) p = subst Matched (sym (put-table m sha256 body w)) p
  Step-Matched w x (called req) p = subst Matched (sym (handle_run-table m req w)) p
  Step-Matched w x (submitted id req fresh) p = Matched-submitted id req (table w) p
  Step-Matched w x (ended id req e) p = subst Matched (sym (run_task-table id req w)) (
      Matched-ended id (entry_of (run_request_inner m req w).0) (table w)
        (is_final-entry_of (run_request_inner m req w).0 (IsAnswer-inner m req w)) p)

  fresh-Matched : (files : Map Bytes) → Matched (table (fresh_worker files))
  unfolding Matched
  fresh-Matched files id = unknown

  Steps-Matched :
      (files : Map Bytes) {w : WorkerState} → Steps m (fresh_worker files) w → Matched (table w)
  Steps-Matched files {w} steps =
      Steps-preserve m (λ v. Matched (table v)) Step-Matched (fresh_worker files) steps
        (fresh-Matched files)

  -- A job that has ended has no task.
  no_task :
      (e : JobEntry) (found : Option JobEntry) (task : Option RunRequest) (req : RunRequest)
      → IsMatched found task
      → found ≡ some e
      → is_final e ≡ true
      → task ≡ some req
      → ⊥
  no_task e _ _ req unknown h f t = cc
  no_task e _ _ req pending h f t =
      absurd (clash (sym f ∙ ap (λ o. is_final (get_or_else running_entry o)) (sym h)))
  no_task e _ _ req (final g) h f t = cc

  Step-final :
      (id : String) (e : JobEntry)
      → is_final e ≡ true
      → (w x : WorkerState) → Step m w x
      → Matched (table w)
      → lookup id w.jobs ≡ some e
      → lookup id x.jobs ≡ some e
  unfolding handle_submit_job Matched
  Step-final id e f w x (uploaded sha256 body) p h =
      ap (λ t. lookup id t.0) (put-table m sha256 body w) ∙ h
  Step-final id e f w x (called req) p h = ap (λ t. lookup id t.0) (handle_run-table m req w) ∙ h
  Step-final id e f w x (submitted j req fresh) p h =
      lookup-insert j id running_entry w.jobs ∙ elim (String-cases j id) [
        | inl (q, b) ↦ absurd (
            clash (
              sym (contains_key-of_lookup id w.jobs e h)
              ∙ ap (λ k. contains_key k w.jobs) (sym q)
              ∙ fresh))
        | inr (q, b) ↦ rw b h
      ]
  Step-final id e f w x (ended j req t) p h =
      ap (λ o. lookup id o.0) (run_task-table j req w)
      ∙ lookup-insert j id (entry_of (run_request_inner m req w).0) w.jobs
      ∙ elim (String-cases j id) [
        | inl (q, b) ↦ absurd (
            no_task e (lookup id w.jobs) (lookup id w.tasks) req (p id) h f
              (ap (λ k. lookup k w.tasks) (sym q) ∙ t))
        | inr (q, b) ↦ rw b h
      ]

  -- Once GET /jobs/:id gives a final entry of a job on a worker, it gives the same entry after any
  -- further steps, if each submitted job has a new id.
  pub handle_get_job-final :
      (files : Map Bytes) (id : String) (e : JobEntry) {w x : WorkerState}
      → Steps m (fresh_worker files) w
      → Steps m w x
      → handle_get_job m id w ≡ ok e
      → is_final e ≡ true
      → handle_get_job m id x ≡ ok e
  unfolding handle_get_job
  handle_get_job-final files id e {w} {x} before after h f = ap (or_error _) (
      (Steps-preserve m (λ v. Matched (table v) × (lookup id v.jobs ≡ some e))
        (λ v y s p. (Step-Matched v y s p.0, Step-final id e f v y s p.0 p.1)) w after
        (Steps-Matched files before, found (lookup id w.jobs) h)).1)
    where
      found : (o : Option JobEntry) → or_error (not_found "job not found") o ≡ ok e → o ≡ some e
      found none q = cc
      found (some a) q = cc

  -- As long as GET /jobs/:id says that a job is running, a task is there whose end is a possible step
  -- of the worker, and after it the job has a final entry.
  pub handle_get_job-ends :
      (files : Map Bytes) (id : String) (e : JobEntry) {w : WorkerState}
      → Steps m (fresh_worker files) w
      → handle_get_job m id w ≡ ok e
      → is_final e ≡ false
      → (x : WorkerState) × Step m w x
        × ((a : JobEntry) × (handle_get_job m id x ≡ ok a) × (is_final a ≡ true))
  unfolding handle_get_job Matched
  handle_get_job-ends files id e {w} steps h f =
      by (lookup id w.jobs) (lookup id w.tasks) (Steps-Matched files steps id) h refl
    where
      ends :
          (req : RunRequest)
          → lookup id w.tasks ≡ some req
          → (x : WorkerState) × Step m w x
            × ((a : JobEntry) × (handle_get_job m id x ≡ ok a) × (is_final a ≡ true))
      ends req t = (
        run_task m id req w,
        ended id req t,
        (
          entry_of (run_request_inner m req w).0,
          ap (or_error _) (
              ap (λ o. lookup id o.0) (run_task-table id req w)
              ∙ lookup-inserted id (entry_of (run_request_inner m req w).0) w.jobs),
          is_final-entry_of (run_request_inner m req w).0 (IsAnswer-inner m req w),
        ),
      )

      by :
          (o : Option JobEntry) (task : Option RunRequest)
          → IsMatched o task
          → or_error (not_found "job not found") o ≡ ok e
          → lookup id w.tasks ≡ task
          → (x : WorkerState) × Step m w x
            × ((a : JobEntry) × (handle_get_job m id x ≡ ok a) × (is_final a ≡ true))
      by _ _ unknown q t = cc
      by _ _ (pending {req}) q t = ends req t
      by _ _ (final {e = a} g) q t = absurd (
          clash (
            sym g
            ∙ ap
                (λ (o : Outcome Refusal JobEntry). elim o [
                  | ok a ↦ is_final a
                  | err e ↦ false
                  | panic p ↦ false
                ])
                q
            ∙ f))
