-- ===== src/Cli/Schedule.antt =====
-- The schedule commands of crates/fluxion-cli/src/main.rs. Files, the YAML parser, cron expressions,
-- dates, and the run of a workflow are parameters; the store opens, and its statements do not fail.
use fluxion.Prelude.{
  ℕ, String, List, [], ◌∷◌, Option, none, some, Bool, true, false, decimal, nat_eq, if◌then◌else◌,
}
use fluxion.Outcome.{Outcome, ok, err, panic, ◌>>=◌}
use fluxion.Workflow.Types.{Workflow}
use fluxion.Workflow.Validate.{◌<>◌, FileError, from_file}
use fluxion.Expand.Defs.{or_error}
use fluxion.Store.Tables.{ScheduleEntry, RunStore, StoreError}
use fluxion.Store.Schedules.{
  add_schedule, remove_schedule, due_schedules, update_schedule_next, claim_schedule,
}

-- The store and the time in seconds.
pub record World : Type 0 where
  pub store : RunStore
  pub now : ℕ

-- `execute` is a run of a workflow by the scheduler: time passes, and the store changes, by this
-- process and by others.
pub record Env : Type 1 where
  pub Cron : Type 0
  pub from_str : String → Option Cron
  pub upcoming : Cron → ℕ → Option ℕ
  pub read_to_string : String → Option String
  pub from_yaml : String → Option Workflow
  pub canonicalize : String → Option String
  pub to_rfc3339 : ℕ → Option String
  pub execute : Workflow → String → World → World

pub data CommandError : Type 0 where
  invalid_cron no_occurrence cannot_load cannot_resolve : (text : String) → CommandError
  store_error : StoreError → CommandError

-- What an event of the select in the daemon's loop is.
pub data Event : Type 0 where
  terminate interrupt elapsed : Event

module _ (env : Env) where
  open env use {from_str, upcoming, read_to_string, from_yaml, canonicalize, to_rfc3339, execute}

  unfoldable pub next_run_secs : String → ℕ → Outcome CommandError ℕ
  next_run_secs cron_expr now = do
    schedule ← or_error (invalid_cron cron_expr) (from_str cron_expr)
    or_error (no_occurrence cron_expr) (upcoming schedule now)

  abbrev pub loaded : Outcome FileError Workflow → Option Workflow
  loaded (ok wf) = some wf
  loaded (err e) = none
  loaded (panic f) = none

  -- The entry after it was claimed: whether its workflow is run, and the world then.
  abbrev pub run_claimed : ScheduleEntry → ℕ → Option Workflow → World → Bool × World
  run_claimed sched next none w = (false, w)
  run_claimed sched next (some wf) w =
      let w' = execute wf sched.workflow_path w in
      (true, record w' { store = update_schedule_next sched.id w'.now next w'.store })

  abbrev pub fire_next : ScheduleEntry → Outcome CommandError ℕ → World → Bool × World
  fire_next sched (err e) w = (false, w)
  fire_next sched (panic f) w = (false, w)
  fire_next sched (ok next) w =
      let (claimed, store) = claim_schedule sched.id sched.next_run_at next w.store in
      let ran =
        run_claimed sched next (loaded (from_file read_to_string from_yaml sched.workflow_path))
          (record w { store = store }) in
      if claimed then ran else (false, record w { store = store })

  -- The body of the loop over the schedules that are due.
  unfoldable pub fire : ScheduleEntry → World → Bool × World
  unfolding next_run_secs from_file
  fire sched w = fire_next sched (next_run_secs sched.cron_expr w.now) w

  -- Those whose workflow was run, and the world after all of them.
  unfoldable pub fire_all : List ScheduleEntry → World → List ScheduleEntry × World
  unfolding fire
  fire_all [] w = ([], w)
  fire_all (sched ∷ due) w =
      let (ran, w') = fire sched w in
      let (fired, w'') = fire_all due w' in ((if ran then sched ∷ fired else fired), w'')

  unfoldable pub fire_due_schedules : World → List ScheduleEntry × World
  unfolding fire_all
  fire_due_schedules w = fire_all (due_schedules w.now w.store) w

  -- Every 30 seconds, until a signal; `pass` is what happens while the daemon waits.
  unfoldable pub cmd_schedule_daemon : (World → World) → List Event → World → World
  unfolding fire_due_schedules
  cmd_schedule_daemon pass [] w = w
  cmd_schedule_daemon pass (terminate ∷ events) w = w
  cmd_schedule_daemon pass (interrupt ∷ events) w = w
  cmd_schedule_daemon pass (elapsed ∷ events) w =
      cmd_schedule_daemon pass events (fire_due_schedules (pass w)).1

  abbrev pub run_time : ℕ → String
  run_time next = elim (to_rfc3339 next) [ none ↦ decimal next | some text ↦ text ]

  unfoldable pub add_loaded :
      String → String → ℕ → Option Workflow → World → Outcome CommandError (List String × World)
  unfolding decimal next_run_secs
  add_loaded path cron_expr millis none w = err (cannot_load path)
  add_loaded path cron_expr millis (some wf) w = do
    abs_path ← or_error (cannot_resolve path) (canonicalize path)
    next ← next_run_secs cron_expr w.now
    elim (add_schedule w.now ("sched-" <> decimal millis) abs_path cron_expr next w.store) [
      | ok store ↦ ok (
        ("Schedule added: sched-" <> decimal millis)
            ∷ ("  workflow : " <> abs_path)
            ∷ ("  cron     : " <> cron_expr)
            ∷ ("  next run : " <> run_time next)
            ∷ [],
        record w { store = store },
      )
      | err e ↦ err (store_error e)
      | panic f ↦ panic f
    ]

  -- `millis` is the time in milliseconds.
  unfoldable pub cmd_schedule_add :
      String → String → ℕ → World → Outcome CommandError (List String × World)
  unfolding from_file add_schedule
  cmd_schedule_add path cron_expr millis w =
      add_loaded path cron_expr millis (loaded (from_file read_to_string from_yaml path)) w

  unfoldable pub cmd_schedule_remove : String → World → List String × World
  cmd_schedule_remove id w =
      let (store, n) = remove_schedule id w.store in
      (
        ((if nat_eq n 0 then "Not found: " <> id else "Removed: " <> id) ∷ []),
        record w { store = store },
      )
