-- ===== src/Tests/Stores.antt =====
-- Tests of the run store.
use fluxion.Prelude.{
  ◌+◌, String, List, [], ◌∷◌, Map, none, some, not, any, length, lookup, if◌then◌else◌, ◌≡◌, refl,
  arith,
}
use fluxion.Outcome.{ok}
use fluxion.State.{JobStatus, succeeded, running}
use fluxion.Store.Tables.{RunDetail, ScheduleEntry, WorkerEntry, RunStore}
use fluxion.Store.Runs.{create_run, load_run, prune, is_run}
use fluxion.Store.Status.{persisted, job_status, replay}
use fluxion.Store.Reload.{load_run-replay}
use fluxion.Store.Claims.{claims, claims-once}
use fluxion.Store.Prune.{is_past, was_run, prune-exact}

abbrev no_rows : RunStore
no_rows = record { runs = []; job_states = []; workers = []; schedules = [] }

abbrev history : List (String × JobStatus)
history = ("a", succeeded 1_500_000) ∷ ("b", running) ∷ ("a", running) ∷ []

abbrev run : RunDetail
run = record {
  id = "r";
  workflow_name = "w";
  workflow_path = "w.yaml";
  started_at = 9;
  completed_at = none;
  status = "running";
}

abbrev one_run : RunStore
one_run = record no_rows { runs = run ∷ [] }

created : create_run 9 "r" "w" "w.yaml" no_rows ≡ ok one_run
unfolding create_run
created = refl

load_run-replay_example :
    (jobs : Map JobStatus) × (load_run "r" (replay "r" history one_run) ≡ ok ("w.yaml", jobs))
    × ((j : String)
        → lookup j jobs ≡ elim (lookup j history) [ none ↦ none | some s ↦ some (persisted s) ])
load_run-replay_example = load_run-replay 9 "r" "w" "w.yaml" history no_rows one_run created refl

abbrev schedule : ScheduleEntry
schedule = record {
  id = "s";
  workflow_path = "w.yaml";
  cron_expr = "* * * * *";
  created_at = 0;
  last_run_at = none;
  next_run_at = 60;
}

claims-once_example :
    (claims "s" 60 (120 ∷ 120 ∷ 180 ∷ []) (record no_rows { schedules = schedule ∷ [] })).0 ≡ 1
claims-once_example =
    claims-once "s" 60 120 (120 ∷ 180 ∷ []) (record no_rows { schedules = schedule ∷ [] })
      (refl, (refl, (refl, tt)))

-- On day 40 the run of day 0 is older than 30 days.
prune-exact_example :
    ((r : String)
      → any (is_run r) (prune 3_456_000 30 one_run).0.runs
        ≡ was_run (λ x. not (is_past 3_456_000 30 x)) r one_run.runs)
    × ((r j : String)
        → job_status r j (prune 3_456_000 30 one_run).0 ≡ (
            if was_run (is_past 3_456_000 30) r one_run.runs then none else job_status r j one_run))
    × (length (prune 3_456_000 30 one_run).0.runs + (prune 3_456_000 30 one_run).1 ≡ 1)
prune-exact_example = prune-exact 3_456_000 30 one_run (omega arith)

abbrev worker : String → WorkerEntry
worker url = record { url = url; registered_at = 1; last_health = none }

abbrev two_workers : RunStore
two_workers = record no_rows { workers = worker "a" ∷ worker "b" ∷ [] }
