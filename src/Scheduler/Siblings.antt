-- ===== src/Scheduler/Siblings.antt =====
-- What a failed job does to its siblings in `execute` of crates/fluxion-host/src/scheduler.rs, when the
-- workflow comes from expand_foreach, as it does in run_inner and in retry_inner.
use fluxion.Prelude.{
  String, List, ◌∷◌, [], Map, Option, some, true, false, not, lookup, contains, contains_key, IsMap,
  ◌≡◌, inl, inr, refl, sym, ◌∙◌, ap, arith, eq_iff, Bool-cases, Option-cases,
}
use fluxion.Outcome.{ok}
use fluxion.Workflow.Types.{Workflow}
use fluxion.Expand.Defs.{Json, ExpandedWorkflow, expand_foreach, is_some}
use fluxion.Expand.Correct.{expand_foreach-not_fail_fast}
use fluxion.Scheduler.Run.{World, Exec}
use fluxion.Scheduler.Loop.{find_parent, on_failed, parent_fails_fast}

find_parent-key :
    (w : World) (id : String) (groups : Map (List String)) (p : String × List String)
    → find_parent w id groups ≡ some p
    → contains_key p.0 groups ≡ true
unfolding find_parent
find_parent-key w id [] p h = cc
find_parent-key w id ((parent, children) ∷ groups) p h = elim (Bool-cases (contains id children)) [
  | inl e ↦ ground (arith, eq_iff parent parent, find_parent-key w id groups p)
  | inr e ↦ ground (arith, find_parent-key w id groups p)
]

-- In a run of a workflow that was expanded from one with distinct job names, a failed job never has its siblings cancelled, whatever the
-- `fail_fast` of the foreach job: the state stays as it is. The run stops if the job is no child of
-- a foreach job, and goes on if it is one.
pub on_failed-expanded :
    (json : Json) (over : Option String) (wf : Workflow) (ex : ExpandedWorkflow)
    → IsMap wf.jobs
    → expand_foreach json wf over ≡ ok ex
    → (w : World) → w.wf ≡ ex.workflow
    → w.foreach_map ≡ ex.foreach_map
    → (id : String) (x : Exec)
    → on_failed w id x ≡ ok (x, not (is_some (find_parent w id w.foreach_map)))
unfolding on_failed
on_failed-expanded json over wf ex m e w ew eg id x =
    elim (Option-cases (find_parent w id w.foreach_map)) [
      | inl h ↦ rw (h, on_failed) refl
      | inr ((parent, siblings), h) ↦ rw (h, on_failed) (rw (slow parent siblings h) refl)
    ]
  where
    slow :
        (parent : String) (siblings : List String)
        → find_parent w id w.foreach_map ≡ some (parent, siblings)
        → parent_fails_fast w parent ≡ false
    slow parent siblings h = elim (Option-cases (lookup parent w.wf.jobs)) [
      | inl missing ↦ rw (missing, parent_fails_fast) refl
      | inr (d, found) ↦
          rw (found, parent_fails_fast)
            (expand_foreach-not_fail_fast json over wf ex m e parent d
              (ap (λ (g : Map (List String)). contains_key parent g) (sym eg)
                ∙ find_parent-key w id w.foreach_map (parent, siblings) h)
              (ap (λ (v : Workflow). lookup parent v.jobs) (sym ew) ∙ found))
    ]
