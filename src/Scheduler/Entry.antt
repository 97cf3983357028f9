-- ===== src/Scheduler/Entry.antt =====
-- The functions of crates/fluxion-host/src/scheduler.rs that other crates call. Those that print and
-- those that do not differ in nothing else.
use fluxion.Prelude.{ℕ, String, List, [], Option}
use fluxion.Outcome.{Outcome}
use fluxion.State.{RunResult}
use fluxion.Workflow.Types.{Workflow}
use fluxion.Scheduler.Workers.{LbStrategy, round_robin}
use fluxion.Scheduler.Run.{JobEvent}
use fluxion.Scheduler.Pool.{Directory}
use fluxion.Scheduler.Execute.{ExecOpts, RunError, RunRow, run_inner, retry_inner}

-- LbStrategy::default()
abbrev pub default_strategy : LbStrategy
default_strategy = round_robin

module _ (row : RunRow) (d : Directory) (wf : Workflow) (o : ExecOpts) (run_id : String)
    (elapsed : ℕ) (events : List JobEvent) where
  unfoldable pub run_with_strategy : LbStrategy → Outcome RunError (Option RunResult)
  unfolding run_inner
  run_with_strategy strategy =
      run_inner row d wf (record o { pre_succeeded = []; strategy = strategy }) run_id elapsed
        events

  unfoldable pub run : Outcome RunError (Option RunResult)
  unfolding run_with_strategy
  run = run_with_strategy default_strategy

  unfoldable pub retry : String → Outcome RunError (Option RunResult)
  unfolding retry_inner
  retry from_job =
      retry_inner row d wf (record o { strategy = default_strategy }) from_job run_id elapsed events
