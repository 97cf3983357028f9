-- ===== src/Tests/Workflows.antt =====
-- Tests of validation.
use fluxion.Prelude.{[], ◌∷◌, some, none, true, false, ◌≡◌, ◌↔◌, ◌⊎◌, refl}
use fluxion.Outcome.{ok}
use fluxion.Workflow.Types.{custom}
use fluxion.Workflow.Reduce.{mapping, deserialize}
use fluxion.Workflow.Cycle.{has_cycle}
use fluxion.Workflow.Acyclic.{HasCycle}
use fluxion.Workflow.Decides.{has_cycle_decides}
use fluxion.Workflow.Validate.{ValidationReport, validate, is_ok}
use fluxion.Workflow.Valid.{IsWellFormed, validate_iff}
use fluxion.Tests.Samples.{chain, job}

self_loop-has_cycle : has_cycle (("a", job ("a" ∷ [])) ∷ []) ≡ ok true
unfolding has_cycle
self_loop-has_cycle = refl

validate_iff_example :
    (r : ValidationReport) × (validate chain ≡ ok r) × ((is_ok r ≡ true) ↔ IsWellFormed chain)
validate_iff_example = validate_iff chain

has_cycle_decides_example :
    ((has_cycle chain.jobs ≡ ok true) × HasCycle chain.jobs)
    ⊎ ((has_cycle chain.jobs ≡ ok false) × ¬ HasCycle chain.jobs)
has_cycle_decides_example = has_cycle_decides chain.jobs

-- Of a mapping the first key counts.
reads_custom :
    deserialize (mapping (("custom", some "reduce.wasm") ∷ ("sum", none) ∷ []))
    ≡ ok (custom "reduce.wasm")
unfolding deserialize
reads_custom = refl
