-- ===== src/Store/Prune.antt =====
-- Which runs are pruned.
use fluxion.Prelude.{
  ℕ, ◌+◌, ◌*◌, ◌^◌, ◌<◌, String, List, [], ◌∷◌, none, Bool, not, ◌&&◌, any, ltb, length, lookup,
  if◌then◌else◌, ◌≡◌, refl, ap, ◌∙◌, arith, eq_iff,
}
use fluxion.Store.Tables.{RunDetail, JobRow, RunStore, select, delete, affected}
use fluxion.Store.Runs.{is_run, is_older, cutoff, jobs_of, prune}
use fluxion.Store.Status.{job_status}

-- Whether a run started more than so many days ago.
abbrev pub is_past : ℕ → ℕ → RunDetail → Bool
is_past now before_days r = ltb (r.started_at + before_days * 86400) now

abbrev pub was_run : (RunDetail → Bool) → String → List RunDetail → Bool
was_run p run_id rows = any (λ r. is_run run_id r && p r) rows

any-select :
    (p : RunDetail → Bool) (run_id : String) (rows : List RunDetail)
    → any (is_run run_id) (select p rows) ≡ was_run p run_id rows
any-select p run_id [] = refl
any-select p run_id (r ∷ rows) = ground (arith, any-select p run_id rows)

any-delete :
    (p : RunDetail → Bool) (run_id : String) (rows : List RunDetail)
    → any (is_run run_id) (delete p rows) ≡ was_run (λ r. not (p r)) run_id rows
any-delete p run_id [] = refl
any-delete p run_id (r ∷ rows) = ground (arith, any-delete p run_id rows)

length-delete :
    (p : RunDetail → Bool) (rows : List RunDetail)
    → length (delete p rows) + affected p rows ≡ length rows
length-delete p [] = refl
length-delete p (r ∷ rows) = ground (arith, length-delete p rows)

lookup-jobs_of-delete :
    (q : String → Bool) (run_id j : String) (rows : List JobRow)
    → lookup j (jobs_of run_id (delete (λ r. q r.0) rows))
      ≡ (if q run_id then none else lookup j (jobs_of run_id rows))
unfolding jobs_of
lookup-jobs_of-delete q run_id j [] = ground arith
lookup-jobs_of-delete q run_id j ((r, d) ∷ rows) = ground (
  arith,
  lookup-jobs_of-delete q run_id j rows,
  eq_iff r run_id,
  eq_iff d.job_id j,
  λ (e : r ≡ run_id). ap q e,
)

is_older-cutoff :
    (now before_days : ℕ) (r : RunDetail)
    → before_days * 86400 < 2 ^ 64
    → is_older (cutoff now before_days) r ≡ is_past now before_days r
is_older-cutoff now before_days r h = ground arith

was_run-cong :
    (p q : RunDetail → Bool) (run_id : String) (rows : List RunDetail)
    → ((r : RunDetail) → p r ≡ q r)
    → was_run p run_id rows ≡ was_run q run_id rows
was_run-cong p q run_id [] h = refl
was_run-cong p q run_id (r ∷ rows) h = ground (arith, was_run-cong p q run_id rows h, h r)

-- If the days in seconds fit into 64 bits, pruning deletes exactly the runs that started more than
-- so many days ago, with the states of their jobs, and no state of another run, and it returns the
-- number of the runs that it deleted.
pub prune-exact :
    (now before_days : ℕ) (db : RunStore)
    → before_days * 86400 < 2 ^ 64
    → ((r : String)
        → any (is_run r) (prune now before_days db).0.runs
          ≡ was_run (λ x. not (is_past now before_days x)) r db.runs)
      × ((r j : String)
          → job_status r j (prune now before_days db).0
            ≡ (if was_run (is_past now before_days) r db.runs then none else job_status r j db))
      × (length (prune now before_days db).0.runs + (prune now before_days db).1 ≡ length db.runs)
unfolding prune
prune-exact now before_days db h = (
  λ r.
      any-delete (is_older (cutoff now before_days)) r db.runs
      ∙ was_run-cong _ _ r db.runs (λ x. ap not (is_older-cutoff now before_days x h)),
  λ r j.
      lookup-jobs_of-delete
        (λ q. any (is_run q) (select (is_older (cutoff now before_days)) db.runs)) r j db.job_states
      ∙ ap (λ b. if b then none else job_status r j db)
          (any-select (is_older (cutoff now before_days)) r db.runs
            ∙ was_run-cong _ _ r db.runs (λ x. is_older-cutoff now before_days x h)),
  length-delete (is_older (cutoff now before_days)) db.runs,
)
