-- ===== src/Dag/Sort.antt =====
-- kahn_sort finds a topological order exactly when there is one, and never panics.
use fluxion.Prelude.{
  suc, ◌<◌, ◌≤◌, String, List, [], ◌∷◌, ◌++◌, count, length, keys, lookup, IsMap, nat_eq, ◌≡◌, refl,
  arith, Option-cases, Bool-cases, inl, inr, ◌⊎◌, All, length-le_of_count, count-eq_of_length,
  length-keys, count-keys_of_none, count-append, eq_iff,
}
use fluxion.Outcome.{ok, err, Returns-value}
use fluxion.Dag.Kahn.{
  Deps, circular_dependency, entries_of, indegrees, zero_keys, dependents_of, kahn_loop, kahn_sort,
}
use fluxion.Dag.Notify.{lookup-indegrees, count-zero_keys, count-zero_keys_missing}
use fluxion.Dag.Order.{IsOrdered, IsTopoOrder, unmet-nil, unmet-of_all}
use fluxion.Dag.Loop.{Inv, Settled, kahn_loop-Settled}

start-Inv :
    (deps : Deps)
    → IsMap deps
    → Inv deps [] (record { indegree = indegrees deps; queue = zero_keys (indegrees deps) }) []
start-Inv deps m = record {
  degree = λ k ds h. rw (lookup-indegrees k deps ds h) (ground (arith, unmet-nil ds));
  waiting = λ k ds h p. ground (arith, count-zero_keys k deps ds m h, unmet-nil ds);
  ready = λ k ds h p. ground (arith, count-zero_keys k deps ds m h, unmet-nil ds);
  foreign =
      λ k h. (omega (arith, count-zero_keys_missing k deps (count-keys_of_none k deps h)), refl);
}

-- The order that the loop ends with.
loop_result :
    (deps : Deps)
    → IsMap deps
    → (o : List String) × (kahn_loop
          (suc (length deps))
          (dependents_of deps [])
          (indegrees deps)
          (zero_keys (indegrees deps))
          []
        ≡ ok o)
      × Settled deps o
loop_result deps m = Returns-value (Settled deps) _ (
    kahn_loop-Settled deps m (suc (length deps)) (indegrees deps) (zero_keys (indegrees deps)) []
      (start-Inv deps m) tt (omega arith))

-- A job that stands in some topological order is placed by the loop.
module _ (deps : Deps) (o : List String) (s : Settled deps o) where
  placed-of_deps :
      (seen : List String) (x : String)
      → All (λ d. 0 < count d seen) (entries_of x deps)
      → 0 < count x (keys deps)
      → ((k : String) → 0 < count k seen → 0 < count k o)
      → 0 < count x o
  placed-of_deps seen x h known all = elim (Option-cases (lookup x deps)) [
    | inl missing ↦ absurd (omega (arith, count-keys_of_none x deps missing))
    | inr (ds, found) ↦
        s.closed x ds found (unmet-of_all seen o ds (rw (found, entries_of) at h) all)
  ]

  placed-of_order :
      (seen t : List String)
      → IsOrdered deps seen t
      → ((k : String) → 0 < count k t → 0 < count k (keys deps))
      → ((k : String) → 0 < count k seen → 0 < count k o)
      → (k : String) → 0 < count k (seen ++ t)
      → 0 < count k o
  placed-of_order seen [] h known all k p = all k (omega (arith, count-append k seen []))
  placed-of_order seen (x ∷ t) h known all k p =
      let here : 0 < count x o =
        placed-of_deps seen x h.0 (known x (ground (arith, eq_iff x x))) all in
      placed-of_order (seen ++ x ∷ []) t h.1 (λ j q. known j (ground arith))
        (λ j q. ground (arith, all j, count-append j seen (x ∷ []), eq_iff x j)) k
        (ground (
          arith,
          count-append k seen (x ∷ t),
          count-append k seen (x ∷ []),
          count-append k (seen ++ x ∷ []) t,
        ))

  -- If there is a topological order at all, every job is placed.
  all_placed :
      IsMap deps
      → (t : List String) → IsTopoOrder deps t
      → (k : String) → count k (keys deps) ≤ count k o
  all_placed m t topo k = ground (
    arith,
    m k,
    topo.complete k,
    placed-of_order [] t topo.ordered (λ j q. omega (arith, topo.complete j))
        (λ j q. absurd (omega arith)) k,
  )

  -- An order as long as the map is complete.
  topological : length (keys deps) ≤ length o → IsTopoOrder deps o
  topological long = record {
    complete = count-eq_of_length o (keys deps) s.once long;
    ordered = s.ordered;
  }

-- On a map with distinct keys the sort never panics and never runs out of its rounds: it returns a
-- topological order of the jobs, or it reports a circular dependency, and then there is no
-- topological order at all.
pub kahn_sort-cases :
    (deps : Deps)
    → IsMap deps
    → ((o : List String) × (kahn_sort deps ≡ ok o) × IsTopoOrder deps o)
      ⊎ ((kahn_sort deps ≡ err circular_dependency) × ((t : List String) → ¬ IsTopoOrder deps t))
unfolding kahn_sort
kahn_sort-cases deps m =
    let (o, ran, s) = loop_result deps m in
    elim (Bool-cases (nat_eq (length o) (length deps))) [
      | inl e ↦ inl (o, rw (ran, e) refl, topological deps o s (ground (arith, length-keys deps)))
      | inr e ↦ inr (
        rw (ran, e) refl,
        λ t topo. absurd (
            ground (
              arith,
              length-keys deps,
              length-le_of_count o (keys deps) s.once,
              length-le_of_count (keys deps) o (all_placed deps o s m t topo),
            )),
      )
    ]
