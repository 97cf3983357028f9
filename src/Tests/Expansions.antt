-- ===== src/Tests/Expansions.antt =====
-- Tests of expansion.
use fluxion.Prelude.{
  String, [], ◌∷◌, none, some, true, false, contains_key, All, IsMap, ◌≡◌, refl, inl,
}
use fluxion.Outcome.{ok, err}
use fluxion.Workflow.Types.{JobDefinition, Workflow}
use fluxion.Expand.Defs.{ExpandedWorkflow, expand_foreach, child_id, child_of, source_not_foreach}
use fluxion.Expand.Known.{
  DepsKnown, has_fan_in, expand_foreach-DepsKnown, expand_foreach-of_no_static,
}
use fluxion.Tests.Samples.{chain, job, json, workflow, pair-IsMap}

-- A job over two items, and one that waits for it.
abbrev pub each : JobDefinition
each = record (job []) { foreach = some "$"; input = some "items"; fail_fast = true }

abbrev pub fan_out : Workflow
fan_out = workflow (("p", each) ∷ ("q", job ("p" ∷ [])) ∷ [])

abbrev pub expanded : ExpandedWorkflow
expanded = record {
  workflow = workflow (
      ("p.0", child_of each "x" false)
      ∷ ("p.1", child_of each "y" false)
      ∷ ("q", job ("p.0" ∷ "p.1" ∷ []))
      ∷ []);
  foreach_map = ("p", "p.0" ∷ "p.1" ∷ []) ∷ [];
}

pub fan_out-expand : expand_foreach json fan_out none ≡ ok expanded
unfolding expand_foreach child_id
fan_out-expand = refl

fan_out-known : DepsKnown fan_out.jobs fan_out.jobs
fan_out-known = (tt, ((refl, tt), tt))

expand_foreach-DepsKnown_example :
    All (λ x. contains_key x expanded.workflow.jobs ≡ true) ("p.0" ∷ "p.1" ∷ [])
expand_foreach-DepsKnown_example =
    expand_foreach-DepsKnown json none fan_out expanded fan_out-known fan_out-expand "q"
      (job ("p.0" ∷ "p.1" ∷ [])) refl

fan_out-IsMap : IsMap fan_out.jobs
fan_out-IsMap = pair-IsMap "p" "q" each (job ("p" ∷ [])) refl

expand_foreach-of_no_static_example :
    (has_fan_in chain.jobs ≡ false
      → expand_foreach json chain none ≡ ok (record { workflow = chain; foreach_map = [] }))
    × (has_fan_in chain.jobs ≡ true
        → (id : String) × (src : String) × (expand_foreach json chain none
            ≡ err (source_not_foreach id src)))
expand_foreach-of_no_static_example =
    expand_foreach-of_no_static json none chain (pair-IsMap "b" "a" (job ("a" ∷ [])) (job []) refl)
      (inl refl, (inl refl, tt))

child_runs : child_id "process" 12 ≡ "process.12"
unfolding child_id
child_runs = refl
