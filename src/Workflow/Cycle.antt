-- ===== src/Workflow/Cycle.antt =====
-- has_cycle of crates/fluxion-core/src/workflow.rs: a depth-first search over the jobs. The two
-- sets that the search mutates are lists, with the newest element first.
use fluxion.Prelude.{
  ℕ, zero, suc, String, List, [], ◌∷◌, Map, none, some, Bool, true, false, not, ◌==◌, length,
  lookup, keys, keep, contains, if◌then◌else◌,
}
use fluxion.Outcome.{Outcome, ok, panic, out_of_fuel, ◌>>=◌}
use fluxion.Workflow.Types.{JobDefinition}

pub record Search : Type 0 where
  pub visited : List String
  pub stack : List String

-- jobs.get(node), and what it depends on: nothing where there is no such job.
abbrev pub depends : String → Map JobDefinition → List String
depends node jobs = elim (lookup node jobs) [ none ↦ [] | some def ↦ def.depends_on ]

abbrev pub Visit : Type 0
Visit = String → Search → Outcome ⊥ (Bool × Search)

-- The loop over the dependencies, and `any` over the keys: they stop at the first `true`.
unfoldable pub dfs_any : Visit → List String → Search → Outcome ⊥ (Bool × Search)
dfs_any visit [] s = ok (false, s)
dfs_any visit (d ∷ ds) s = do
  (found, s') ← visit d s
  if found then ok (true, s') else dfs_any visit ds s'

-- stack.remove(node)
abbrev pub leave : String → Search → Search
leave node s = record s { stack = keep (λ k. not (k == node)) s.stack }

unfoldable pub dfs : ℕ → Map JobDefinition → Visit
unfolding dfs_any
dfs zero jobs node s = panic out_of_fuel
dfs (suc fuel) jobs node s =
    if contains node s.stack
    then ok (true, s)
    else if contains node s.visited
    then ok (false, s)
    else do
      (found, s') ←
          dfs_any (dfs fuel jobs) (depends node jobs)
            (record { visited = node ∷ s.visited; stack = node ∷ s.stack })
      ok (found, (if found then s' else leave node s'))

-- A call that goes deeper has visited one more job.
unfoldable pub has_cycle : Map JobDefinition → Outcome ⊥ Bool
unfolding dfs dfs_any
has_cycle jobs = do
  (found, s) ←
      dfs_any (dfs (suc (length jobs)) jobs) (keys jobs) (record { visited = []; stack = [] })
  ok found
