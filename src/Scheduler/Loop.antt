-- ===== src/Scheduler/Loop.antt =====
-- The event loop of `execute` in crates/fluxion-host/src/scheduler.rs, and `execute` around it.
use fluxion.Prelude.{
  ℕ, zero, suc, ◌+◌, ◌-◌, String, List, [], ◌∷◌, ◌++◌, Map, Option, none, some, Bool, true, false,
  not, ◌==◌, ◌&&◌, length, any, lookup, insert, contains, contains_key, nat_eq, if◌then◌else◌,
}
use fluxion.Outcome.{Outcome, ok, panic, out_of_fuel, ◌>>=◌}
use fluxion.State.{
  JobStatus, succeeded, failed, cancelled, from_succeeded_with_metrics, from_failed,
}
use fluxion.Workflow.Types.{JobDefinition}
use fluxion.Dag.Kahn.{entries_of}
use fluxion.Scheduler.FanIn.{Bytes}
use fluxion.Scheduler.Run.{
  World, Exec, Step, JobEvent, ExecError, index, all_done, any_skipped, is_pending, is_waiting,
  is_failed, upsert_job, mark, start_job, skip_job, skips,
}

-- A state and the queue of the cascade.
abbrev pub Cascade : Type 0
Cascade = Exec × List String

-- After the events of a list: the loop has ended, or it waits for another event.
pub data Progress : Type 0 where
  finished waits : Exec → Progress

module _ (w : World) where
  -- The body of the cascade for a job that is pending and whose dependencies are done.
  unfoldable pub cascade_ready : String → JobDefinition → Cascade → Outcome ExecError Cascade
  unfolding skip_job start_job
  cascade_ready id def (x, q) = elim (skips w def true x.statuses) [
    | true ↦ do x' ← skip_job w id x; ok (x', q ++ id ∷ [])
    | false ↦ do x' ← start_job w true id x; ok (x', q)
  ]

  unfoldable pub cascade_pending : String → Cascade → Outcome ExecError Cascade
  unfolding cascade_ready all_done
  cascade_pending id (x, q) = do
    deps ← index id w.dag.deps
    done ← all_done x.statuses deps
    elim done [
      | true ↦ do def ← index id w.wf.jobs; cascade_ready id def (x, q)
      | false ↦ ok (x, q)
    ]

  unfoldable pub cascade_one : String → Cascade → Outcome ExecError Cascade
  unfolding cascade_pending
  cascade_one id (x, q) = elim (contains_key id w.pre_succeeded) [
    | true ↦ ok (x, q)
    | false ↦ do
      s ← index id x.statuses
      elim (is_pending s) [ true ↦ cascade_pending id (x, q) | false ↦ ok (x, q) ]
  ]

  unfoldable pub cascade_each : List String → Cascade → Outcome ExecError Cascade
  unfolding cascade_one
  cascade_each [] c = ok c
  cascade_each (id ∷ ids) c = do c' ← cascade_one id c; cascade_each ids c'

  -- while let Some(skipped_id) = cascade_queue.pop_front()
  unfoldable pub cascade : ℕ → List String → Exec → Step
  unfolding cascade_each
  cascade zero q x = panic out_of_fuel
  cascade (suc fuel) [] x = ok x
  cascade (suc fuel) (id ∷ q) x = do
    (x', q') ← cascade_each (entries_of id w.dag.dependents) (x, q)
    cascade fuel q' x'

  -- Every job that the cascade queues was pending before.
  abbrev pub cascade_fuel : Exec → ℕ
  cascade_fuel x = length x.statuses + 2

  abbrev pub foreach_child_failed : JobDefinition → Exec → Bool
  foreach_child_failed def x = elim def.input_from [
    | none ↦ false
    | some src ↦ elim (lookup src w.foreach_map) [
      | none ↦ false
      | some children ↦ any (λ c. is_failed (lookup c x.statuses)) children
    ]
  ]

  -- A dependent whose dependencies are all done: it is cancelled, skipped or started.
  unfoldable pub release_ready : String → JobDefinition → List String → Exec → Step
  unfolding mark skip_job start_job cascade any_skipped
  release_ready id def deps x = elim (foreach_child_failed def x) [
    | true ↦ mark w id cancelled x
    | false ↦ do
      skipped_dep ← any_skipped x.statuses deps
      elim (skips w def skipped_dep x.statuses) [
        | true ↦ do x' ← skip_job w id x; cascade (cascade_fuel x') (id ∷ []) x'
        | false ↦ start_job w true id x
      ]
  ]

  unfoldable pub release_dependent : String → Exec → Step
  unfolding release_ready all_done
  release_dependent id x = elim (contains_key id w.pre_succeeded) [
    | true ↦ ok x
    | false ↦ do
      deps ← index id w.dag.deps
      done ← all_done x.statuses deps
      elim done [ true ↦ do def ← index id w.wf.jobs; release_ready id def deps x | false ↦ ok x ]
  ]

  unfoldable pub release_dependents : List String → Exec → Step
  unfolding release_dependent
  release_dependents [] x = ok x
  release_dependents (id ∷ ids) x = do x' ← release_dependent id x; release_dependents ids x'

  -- foreach_map.iter().find(|(_, children)| children.contains(id))
  unfoldable pub find_parent : String → Map (List String) → Option (String × List String)
  find_parent id [] = none
  find_parent id ((parent, children) ∷ groups) =
      let rest = find_parent id groups in
      if contains id children then some (parent, children) else rest

  abbrev pub parent_fails_fast : String → Bool
  parent_fails_fast parent = elim (lookup parent w.wf.jobs) [ none ↦ false | some j ↦ j.fail_fast ]

  -- Siblings that have not been started are cancelled.
  unfoldable pub cancel_siblings : String → List String → Exec → Step
  unfolding mark
  cancel_siblings id [] x = ok x
  cancel_siblings id (s ∷ ss) x = do
    x' ← (if not (s == id) && is_waiting (lookup s x.statuses) then mark w s cancelled x else ok x)
    cancel_siblings id ss x'

  -- A failed job: the new state, and whether the loop stops here.
  unfoldable pub on_failed : String → Exec → Outcome ExecError (Exec × Bool)
  unfolding find_parent cancel_siblings
  on_failed id x = elim (find_parent id w.foreach_map) [
    | none ↦ ok (x, true)
    | some (parent, siblings) ↦ elim (parent_fails_fast parent) [
      | true ↦ do x' ← cancel_siblings id siblings x; ok (x', true)
      | false ↦ ok (x, false)
    ]
  ]

  abbrev pub store_output : String → Option Bytes → Exec → Exec
  store_output id none x = x
  store_output id (some out) x = record x { job_outputs = insert id out x.job_outputs }

  -- The match on the event's status.
  unfoldable pub on_status : JobEvent → JobStatus → Exec → Outcome ExecError (Exec × Bool)
  unfolding on_failed
  on_status ev (succeeded elapsed) x =
      let y = store_output ev.job_id ev.output x in
      ok (
        record y {
          job_results =
              y.job_results
              ++ from_succeeded_with_metrics ev.job_id elapsed ev.compile_us ev.instantiate_us
                  ev.execute_us
                ∷ [];
        },
        false,
      )
  on_status ev (failed elapsed reason) x = on_failed ev.job_id (record x {
    overall_success = false;
    job_results = x.job_results ++ from_failed ev.job_id elapsed reason ∷ [];
  })
  on_status ev other x = ok (x, false)

  -- The event is written down, and the job is no more in flight.
  unfoldable pub record_event : JobEvent → Exec → Step
  unfolding upsert_job mark
  record_event ev x = do
    x' ← mark w ev.job_id ev.status x
    ok (record x' { in_flight = x'.in_flight - 1 })

  -- One round of the loop: the new state, and whether the loop stops.
  unfoldable pub on_event : JobEvent → Exec → Outcome ExecError (Exec × Bool)
  unfolding record_event on_status release_dependents
  on_event ev x = do
    x1 ← record_event ev x
    (x2, stop) ← on_status ev ev.status x1
    elim stop [
      | true ↦ ok (x2, true)
      | false ↦ elim x2.overall_success [
        | true ↦ do
          x3 ← release_dependents (entries_of ev.job_id w.dag.dependents) x2
          ok (x3, false)
        | false ↦ ok (x2, false)
      ]
    ]

  unfoldable pub event_loop : List JobEvent → Exec → Outcome ExecError Progress
  unfolding on_event
  event_loop [] x = ok (if nat_eq x.in_flight 0 then finished x else waits x)
  event_loop (ev ∷ evs) x = elim (nat_eq x.in_flight 0) [
    | true ↦ ok (finished x)
    | false ↦ do
      (x', stop) ← on_event ev x
      elim stop [ true ↦ ok (finished x') | false ↦ event_loop evs x' ]
  ]
