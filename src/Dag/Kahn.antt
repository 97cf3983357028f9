-- ===== src/Dag/Kahn.antt =====
-- kahn_sort of crates/fluxion-core/src/dag.rs, and the two loops of that file that invert a
-- dependency map.
use fluxion.Prelude.{
  ℕ, zero, suc, String, List, [], ◌∷◌, ◌++◌, Map, Option, none, some, length, lookup, insert,
  nat_eq, if◌then◌else◌,
}
use fluxion.Outcome.{Outcome, ok, err, panic, missing_key, underflow, out_of_fuel, ◌>>=◌}

pub data DagError : Type 0 where
  circular_dependency : DagError

abbrev pub Deps : Type 0
Deps = Map (List String)

-- notify.get(job).into_iter().flatten()
abbrev pub entries_of : String → Deps → List String
entries_of k m = elim (lookup k m) [ none ↦ [] | some l ↦ l ]

-- map.entry(dep).or_default().push(job)
unfoldable pub push_entry : String → String → Deps → Deps
push_entry dep job m = insert dep (entries_of dep m ++ job ∷ []) m

-- for dep in job_deps { map.entry(dep).or_default().push(job) }
unfoldable pub push_all : String → List String → Deps → Deps
unfolding push_entry
push_all job [] m = m
push_all job (dep ∷ deps) m = push_all job deps (push_entry dep job m)

-- for (job, job_deps) in deps { ... }, from a map that may have entries already.
unfoldable pub dependents_of : Deps → Deps → Deps
unfolding push_all
dependents_of [] m = m
dependents_of ((job, deps) ∷ rest) m = dependents_of rest (push_all job deps m)

abbrev pub indegrees : Deps → Map ℕ
indegrees [] = []
indegrees ((k, v) ∷ m) = (k, length v) ∷ indegrees m

-- The keys whose indegree is zero, in the order of the map.
unfoldable pub zero_keys : Map ℕ → List String
zero_keys [] = []
zero_keys ((k, d) ∷ m) = let rest = zero_keys m in if nat_eq d 0 then k ∷ rest else rest

-- The mutable state of the loop, beside the order.
pub record Frontier : Type 0 where
  pub indegree : Map ℕ
  pub queue : List String

-- `*deg -= 1` and the push, for one waiter.
unfoldable pub release_with : String → Option ℕ → Frontier → Outcome DagError Frontier
release_with waiter none s = panic missing_key
release_with waiter (some zero) s = panic underflow
release_with waiter (some (suc d)) s = ok (record {
  indegree = insert waiter d s.indegree;
  queue = if nat_eq d 0 then s.queue ++ waiter ∷ [] else s.queue;
})

unfoldable pub release : String → Frontier → Outcome DagError Frontier
unfolding release_with
release waiter s = release_with waiter (lookup waiter s.indegree) s

unfoldable pub release_all : List String → Frontier → Outcome DagError Frontier
unfolding release
release_all [] s = ok s
release_all (w ∷ ws) s = do s' ← release w s; release_all ws s'

-- while let Some(job) = queue.pop_front() { ... }
unfoldable pub kahn_loop :
    ℕ → Deps → Map ℕ → List String → List String → Outcome DagError (List String)
kahn_loop zero notify indegree queue order = panic out_of_fuel
kahn_loop (suc fuel) notify indegree [] order = ok order
kahn_loop (suc fuel) notify indegree (job ∷ queue) order = do
  s ← release_all (entries_of job notify) (record { indegree = indegree; queue = queue })
  kahn_loop fuel notify s.indegree s.queue (order ++ job ∷ [])

-- The loop has a round for each job and one that finds the queue empty.
unfoldable pub kahn_sort : Deps → Outcome DagError (List String)
unfolding dependents_of zero_keys kahn_loop release_all
kahn_sort deps = do
  order ←
      kahn_loop (suc (length deps)) (dependents_of deps []) (indegrees deps)
        (zero_keys (indegrees deps)) []
  if nat_eq (length order) (length deps) then ok order else err circular_dependency
