-- ===== src/Dag/Notify.antt =====
-- The map of waiting jobs that dag.rs builds holds each job as often as it names the dependency.
use fluxion.Prelude.{
  ℕ, ◌+◌, String, List, [], ◌∷◌, ◌++◌, Map, some, count, count-append, length, keys, lookup,
  lookup-insert, IsMap, nat_eq, if◌then◌else◌, ◌≡◌, refl, ap, arith, eq_iff, inl, inr, String-cases,
  ◌==◌,
}
use fluxion.Dag.Kahn.{Deps, entries_of, push_entry, push_all, dependents_of, indegrees, zero_keys}

pub IsMap-tail {ℓ} : {V : Type ℓ} (k : String) (v : V) (m : Map V) → IsMap ((k, v) ∷ m) → IsMap m
IsMap-tail k v m h j = ground (arith, h j)

pub lookup-head_fresh {ℓ} :
    {V : Type ℓ} (k : String) (v : V) (m : Map V) → IsMap ((k, v) ∷ m) → count k (keys m) ≡ 0
lookup-head_fresh k v m h = ground (arith, h k, eq_iff k k)

entries-push_entry :
    (d dep job : String) (m : Deps)
    → entries_of d (push_entry dep job m)
      ≡ (if dep == d then entries_of dep m ++ job ∷ [] else entries_of d m)
unfolding push_entry
entries-push_entry d dep job m =
    ground (arith, lookup-insert dep d (entries_of dep m ++ job ∷ []) m)

count-push_entry :
    (k d dep job : String) (m : Deps)
    → count k (entries_of d (push_entry dep job m))
      ≡ count k (entries_of d m) + (if dep == d then (if job == k then 1 else 0) else 0)
count-push_entry k d dep job m = elim (String-cases dep d) [
  | inl (p, e) ↦
      rw (entries-push_entry, e)
        (ground (
          arith,
          count-append k (entries_of dep m) (job ∷ []),
          ap (λ (x : String). count k (entries_of x m)) p,
        ))
  | inr (n, e) ↦ rw (entries-push_entry, e) (ground arith)
]

pub count-push_all :
    (k d job : String) (ds : List String) (m : Deps)
    → count k (entries_of d (push_all job ds m))
      ≡ count k (entries_of d m) + (if job == k then count d ds else 0)
unfolding push_all
count-push_all k d job [] m = ground arith
count-push_all k d job (x ∷ ds) m =
    ground (arith, count-push_all k d job ds (push_entry x job m), count-push_entry k d x job m)

-- How often the job `k` names `d`, over all entries.
abbrev pub named : String → String → Deps → ℕ
named k d [] = 0
named k d ((j, ds) ∷ m) = (if j == k then count d ds else 0) + named k d m

pub count-dependents_of :
    (k d : String) (deps m : Deps)
    → count k (entries_of d (dependents_of deps m)) ≡ count k (entries_of d m) + named k d deps
unfolding dependents_of
count-dependents_of k d [] m = ground arith
count-dependents_of k d ((j, ds) ∷ deps) m =
    ground (arith, count-dependents_of k d deps (push_all j ds m), count-push_all k d j ds m)

pub named-of_missing : (k d : String) (deps : Deps) → count k (keys deps) ≡ 0 → named k d deps ≡ 0
named-of_missing k d [] h = refl
named-of_missing k d ((j, ds) ∷ deps) h = ground (arith, named-of_missing k d deps)

pub named-of_lookup :
    (k d : String) (deps : Deps) (ds : List String)
    → IsMap deps
    → lookup k deps ≡ some ds
    → named k d deps ≡ count d ds
named-of_lookup k d [] ds m h = cc
named-of_lookup k d ((j, es) ∷ deps) ds m h = elim (String-cases j k) [
  | inl (p, e) ↦ ground (arith, m k, named-of_missing k d deps)
  | inr (n, e) ↦ ground (arith, named-of_lookup k d deps ds (IsMap-tail j es deps m))
]

-- The jobs that wait for `job`: each one as often as it names `job`.
pub count-notify :
    (k job : String) (deps : Deps) (ds : List String)
    → IsMap deps
    → lookup k deps ≡ some ds
    → count k (entries_of job (dependents_of deps [])) ≡ count job ds
count-notify k job deps ds m h =
    omega (arith, count-dependents_of k job deps [], named-of_lookup k job deps ds m h)

pub count-notify_foreign :
    (k job : String) (deps : Deps)
    → count k (keys deps) ≡ 0
    → count k (entries_of job (dependents_of deps [])) ≡ 0
count-notify_foreign k job deps h =
    omega (arith, count-dependents_of k job deps [], named-of_missing k job deps h)

pub lookup-indegrees :
    (k : String) (deps : Deps) (ds : List String)
    → lookup k deps ≡ some ds
    → lookup k (indegrees deps) ≡ some (length ds)
lookup-indegrees k [] ds h = cc
lookup-indegrees k ((j, es) ∷ deps) ds h = ground (arith, lookup-indegrees k deps ds)

pub count-zero_keys_missing :
    (k : String) (deps : Deps) → count k (keys deps) ≡ 0 → count k (zero_keys (indegrees deps)) ≡ 0
unfolding zero_keys
count-zero_keys_missing k [] h = refl
count-zero_keys_missing k ((j, es) ∷ deps) h = ground (arith, count-zero_keys_missing k deps)

pub count-zero_keys :
    (k : String) (deps : Deps) (ds : List String)
    → IsMap deps
    → lookup k deps ≡ some ds
    → count k (zero_keys (indegrees deps)) ≡ (if nat_eq (length ds) 0 then 1 else 0)
unfolding zero_keys
count-zero_keys k [] ds m h = cc
count-zero_keys k ((j, es) ∷ deps) ds m h =
    ground (
      arith,
      m k,
      count-zero_keys_missing k deps,
      count-zero_keys k deps ds (IsMap-tail j es deps m),
    )
