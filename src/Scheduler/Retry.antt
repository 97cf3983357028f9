-- ===== src/Scheduler/Retry.antt =====
-- What retry_inner of crates/fluxion-host/src/scheduler.rs takes over from the previous run.
use fluxion.Prelude.{
  String, List, [], ◌∷◌, Map, true, false, lookup, contains, count, keys, none, some, IsMap, ◌≡◌,
  ◌↔◌, refl, inl, inr, arith, eq_iff, Bool-cases,
}
use fluxion.Outcome.{ok}
use fluxion.State.{JobStatus}
use fluxion.Workflow.Types.{Workflow}
use fluxion.Dag.Build.{Dag, build}
use fluxion.Dag.Notify.{IsMap-tail}
use fluxion.Scheduler.Execute.{has_succeeded, taken_over, retry_states}
use fluxion.Scheduler.Downstream.{Downstream, downstream_inclusive_iff}

count-taken_over :
    (replay_set : List String) (id : String) (states : Map JobStatus)
    → count id (keys states) ≡ 0
    → lookup id (taken_over replay_set states) ≡ none
unfolding taken_over
count-taken_over replay_set id [] h = refl
count-taken_over replay_set id ((k, s) ∷ states) h =
    ground (arith, count-taken_over replay_set id states, eq_iff k id)

taken_over_iff :
    (replay_set : List String) (states : Map JobStatus) (id : String) (s : JobStatus)
    → IsMap states
    → (lookup id (taken_over replay_set states) ≡ some s)
      ↔ ((lookup id states ≡ some s) × (has_succeeded s ≡ true) × (contains id replay_set ≡ false))
unfolding taken_over
taken_over_iff replay_set [] id s m = (λ h. cc, λ h. cc (h.0))
taken_over_iff replay_set ((k, t) ∷ states) id s m =
    let ih = taken_over_iff replay_set states id s (IsMap-tail k t states m) in
    (
      λ h. ground (arith, ih.0, m id, count-taken_over replay_set id states, eq_iff k id),
      λ h. ground (arith, ih.1, m id, count-taken_over replay_set id states, eq_iff k id),
    )

-- When a run is repeated from a job, exactly the jobs are taken over that succeeded in the previous
-- run and are neither that job nor wait for it, at once or through others. It is assumed that the
-- workflow has a graph and that the previous run has one status for each job.
pub retry_states_iff :
    (wf : Workflow) (dag : Dag) (prev_states : Map JobStatus) (from_job : String)
    → build wf ≡ ok dag
    → IsMap prev_states
    → (pre : Map JobStatus) × (retry_states wf prev_states from_job ≡ ok pre)
      × ((id : String) (s : JobStatus)
          → (lookup id pre ≡ some s) ↔ (
              (lookup id prev_states ≡ some s)
              × (has_succeeded s ≡ true)
              × ¬ Downstream dag.dependents from_job id))
unfolding retry_states
retry_states_iff wf dag prev_states from_job b m =
    let (found, e, iff) = downstream_inclusive_iff dag from_job in
    (
      taken_over found prev_states,
      rw (b, e) refl,
      λ id s.
          let t = taken_over_iff found prev_states id s m in
          (
            λ h. ((t.0 h).0, (t.0 h).1, λ d. absurd (cc ((iff id).1 d, (t.0 h).2))),
            λ h. t.1 (h.0, h.1, not_found found id (λ c. h.2 ((iff id).0 c))),
          ),
    )
  where
    not_found :
        (found : List String) (id : String)
        → ¬ (contains id found ≡ true)
        → contains id found ≡ false
    not_found found id h = elim (Bool-cases (contains id found)) [
      | inl t ↦ absurd (h t)
      | inr f ↦ f
    ]
