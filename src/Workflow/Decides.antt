-- ===== src/Workflow/Decides.antt =====
-- has_cycle answers whether some job depends on itself.
use fluxion.Prelude.{
  ◌<◌, String, Map, true, false, count, keys, ◌≡◌, ◌⊎◌, inl, inr, arith, Bool, Option-cases, lookup,
  count-keys_pos, contains_key-of_lookup,
}
use fluxion.Outcome.{ok, Returns-value}
use fluxion.Workflow.Types.{JobDefinition}
use fluxion.Workflow.Cycle.{depends, has_cycle}
use fluxion.Workflow.Acyclic.{
  Reaches, direct, via, HasCycle, IsCleared, Answer, has_cycle-Answer, entries-deps_of_jobs,
}
use fluxion.Dag.Build.{deps_of_jobs}
use fluxion.Dag.Positions.{pos, dep-placed, All-at}

module _ (jobs : Map JobDefinition) {P : String → Type 0} (c : IsCleared jobs P) where
  step-before :
      (a b : String)
      → 0 < count b (depends a jobs)
      → 0 < count a c.order
      → (0 < count b c.order) × (pos b c.order < pos a c.order)
  step-before a b h p =
      dep-placed (deps_of_jobs jobs) a b (rw (entries-deps_of_jobs a jobs) h) c.order c.ordered p

  Reaches-before :
      (a : String) {b : String}
      → Reaches jobs a b
      → 0 < count a c.order
      → (0 < count b c.order) × (pos b c.order < pos a c.order)
  Reaches-before a (direct h) p = step-before a _ h p
  Reaches-before a (via {b = x} {c = y} r h) p =
      let (px, lx) = Reaches-before a r p in
      let (py, ly) = step-before x y h px in (py, omega arith)

-- A job that depends on something is a key of the map, and so it is in the order.
depends-key :
    (jobs : Map JobDefinition) (a b : String)
    → 0 < count b (depends a jobs)
    → 0 < count a (keys jobs)
depends-key jobs a b h = elim (Option-cases (lookup a jobs)) [
  | inl missing ↦ absurd (ground arith)
  | inr (def, found) ↦ count-keys_pos a jobs (contains_key-of_lookup a jobs def found)
]

first_key :
    (jobs : Map JobDefinition) (a : String) {b : String}
    → Reaches jobs a b
    → 0 < count a (keys jobs)
first_key jobs a (direct {b = b} h) = depends-key jobs a b h
first_key jobs a (via r h) = first_key jobs a r

pub IsCleared-no_cycle :
    (jobs : Map JobDefinition) {P : String → Type 0} → IsCleared jobs P → ¬ HasCycle jobs
IsCleared-no_cycle jobs c (k, r) =
    let (_, less) =
      Reaches-before jobs c k r
        (All-at (λ j. 0 < count j c.order) (keys jobs) k c.covers (first_key jobs k r)) in
    omega arith

-- The search always ends, and it answers `true` if some job depends on itself, at once or through
-- others, and `false` if none does.
pub has_cycle_decides :
    (jobs : Map JobDefinition)
    → ((has_cycle jobs ≡ ok true) × HasCycle jobs) ⊎ ((has_cycle jobs ≡ ok false) × ¬ HasCycle jobs)
has_cycle_decides jobs =
    let (answer, e, a) =
      Returns-value (Answer jobs (λ _. Unit)) (has_cycle jobs)
        (has_cycle-Answer jobs (λ _. Unit) (λ _ _ _ _. tt) (λ _ _. tt)) in
    decided answer e a
  where
    decided :
        (answer : Bool)
        → has_cycle jobs ≡ ok answer
        → Answer jobs (λ _. Unit) answer
        → ((has_cycle jobs ≡ ok true) × HasCycle jobs)
          ⊎ ((has_cycle jobs ≡ ok false) × ¬ HasCycle jobs)
    decided true e a = inl (e, a)
    decided false e a = inr (e, IsCleared-no_cycle jobs a)
