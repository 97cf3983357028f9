-- ===== src/Dag/Loop.antt =====
-- The invariant of the loop of kahn_sort, and that each round keeps it.
use fluxion.Prelude.{
  ℕ, zero, suc, ◌+◌, ◌<◌, ◌≤◌, String, List, [], ◌∷◌, ◌++◌, Map, none, some, count, count-append,
  length, keys, lookup, insert, lookup-insert, IsMap, nat_eq, if◌then◌else◌, ◌≡◌, refl, arith,
  eq_iff, Option-cases, inl, inr, ◌==◌, length-le_of_count, length-append, length-keys,
  count-keys_pos, count-keys_of_none, contains_key-of_lookup,
}
use fluxion.Outcome.{ok, Returns, Returns-bind}
use fluxion.Dag.Notify.{count-notify, count-notify_foreign}
use fluxion.Dag.Kahn.{
  Deps, Frontier, entries_of, dependents_of, release, release_all, release_with, kahn_loop,
}
use fluxion.Dag.Order.{IsOrdered, IsOrdered-snoc, unmet, unmet-snoc, unmet-zero}

-- `ws` are the waiting jobs that the current round has still to release.
pub record Inv (deps : Deps) (o : List String) (s : Frontier) (ws : List String) : Type 0 where
  pub degree :
      (k : String) (ds : List String)
      → lookup k deps ≡ some ds
      → lookup k s.indegree ≡ some (unmet o ds + count k ws)
  pub waiting :
      (k : String) (ds : List String)
      → lookup k deps ≡ some ds
      → 0 < unmet o ds + count k ws
      → count k o + count k s.queue ≡ 0
  pub ready :
      (k : String) (ds : List String)
      → lookup k deps ≡ some ds
      → unmet o ds + count k ws ≡ 0
      → count k o + count k s.queue ≡ 1
  pub foreign :
      (k : String) → lookup k deps ≡ none → (count k o + count k s.queue ≡ 0) × (count k ws ≡ 0)

-- The state after a waiting job of degree `suc d` is released.
abbrev released : String → ℕ → Frontier → Frontier
released w d s = record {
  indegree = insert w d s.indegree;
  queue = if nat_eq d 0 then s.queue ++ w ∷ [] else s.queue;
}

release-eq :
    (w : String) (d : ℕ) (s : Frontier)
    → lookup w s.indegree ≡ some (suc d)
    → release w s ≡ ok (released w d s)
unfolding release
release-eq w d s h = rw (h, release_with) refl

count-released :
    (k w : String) (d : ℕ) (s : Frontier)
    → count k (released w d s).queue
      ≡ count k s.queue + (if nat_eq d 0 then (if w == k then 1 else 0) else 0)
count-released k w d s = ground (arith, count-append k s.queue (w ∷ []))

module _ (deps : Deps) (o : List String) (w : String) (ws es : List String) (s : Frontier)
    (i : Inv deps o s (w ∷ ws)) (found : lookup w deps ≡ some es) where
  abbrev left : ℕ
  left = unmet o es + count w ws

  lookup-w : lookup w s.indegree ≡ some (suc left)
  lookup-w = ground (arith, i.degree w es found, eq_iff w w)

  released-Inv : Inv deps o (released w left s) ws
  released-Inv = record {
    degree =
        λ k ds h. ground (arith, i.degree k ds h, lookup-insert w k left s.indegree, eq_iff w k);
    waiting = λ k ds h p. ground (arith, i.waiting k ds h, count-released k w left s, eq_iff w k);
    ready = λ k ds h p.
        ground (arith, i.waiting k ds h, i.ready k ds h, count-released k w left s, eq_iff w k);
    foreign = λ k h. ground (arith, i.foreign k h, count-released k w left s, eq_iff w k);
  }

release-Inv :
    (deps : Deps) (o : List String) (w : String) (ws : List String) (s : Frontier)
    → Inv deps o s (w ∷ ws)
    → Returns (λ s'. Inv deps o s' ws) (release w s)
release-Inv deps o w ws s i = elim (Option-cases (lookup w deps)) [
  | inl missing ↦ absurd (ground (arith, i.foreign w missing, eq_iff w w))
  | inr (es, found) ↦
      rw (release-eq w (left deps o w ws es s i found) s (lookup-w deps o w ws es s i found))
        (released-Inv deps o w ws es s i found)
]

-- Neither the `expect` nor the subtraction of the inner loop panics.
pub release_all-Inv :
    (deps : Deps) (o ws : List String) (s : Frontier)
    → Inv deps o s ws
    → Returns (λ s'. Inv deps o s' []) (release_all ws s)
unfolding release_all
release_all-Inv deps o [] s i = i
release_all-Inv deps o (w ∷ ws) s i =
    Returns-bind (λ s'. Inv deps o s' ws) (λ s'. Inv deps o s' []) (release w s) (release_all ws)
      (release-Inv deps o w ws s i) (release_all-Inv deps o ws)

-- Taking a job off the queue: its waiting jobs are now to be released.
module _ (deps : Deps) (m : IsMap deps) (o : List String) (job : String) (q : List String)
    (g : Map ℕ) (i : Inv deps o (record { indegree = g; queue = job ∷ q }) []) where
  job-fresh : count job o ≡ 0
  job-fresh = elim (Option-cases (lookup job deps)) [
    | inl missing ↦ ground (arith, i.foreign job missing)
    | inr (ds, found) ↦ ground (arith, i.waiting job ds found, i.ready job ds found, eq_iff job job)
  ]

  popped-Inv :
      Inv deps
        (o ++ job ∷ [])
        (record { indegree = g; queue = q })
        (entries_of job (dependents_of deps []))
  popped-Inv = record {
    degree = λ k ds h.
        rw (i.degree k ds h)
          (ground (arith, unmet-snoc o job ds job-fresh, count-notify k job deps ds m h));
    waiting = λ k ds h p. ground (
      arith,
      i.waiting k ds h,
      unmet-snoc o job ds job-fresh,
      count-notify k job deps ds m h,
      count-append k o (job ∷ []),
    );
    ready = λ k ds h p. ground (
      arith,
      i.ready k ds h,
      unmet-snoc o job ds job-fresh,
      count-notify k job deps ds m h,
      count-append k o (job ∷ []),
    );
    foreign = λ k h. ground (
      arith,
      i.foreign k h,
      count-notify_foreign k job deps (count-keys_of_none k deps h),
      count-append k o (job ∷ []),
    );
  }

  popped-IsOrdered : IsOrdered deps [] o → IsOrdered deps [] (o ++ job ∷ [])
  popped-IsOrdered h = elim (Option-cases (lookup job deps)) [
    | inl missing ↦ absurd (ground (arith, i.foreign job missing, eq_iff job job))
    | inr (ds, found) ↦ IsOrdered-snoc deps [] o job h (
        rw (found, entries_of)
          (unmet-zero o ds (ground (arith, i.waiting job ds found, eq_iff job job))))
  ]

-- What holds of the order when the queue is empty.
pub record Settled (deps : Deps) (o : List String) : Type 0 where
  pub ordered : IsOrdered deps [] o
  pub once : (k : String) → count k o ≤ count k (keys deps)
  pub closed :
      (k : String) (ds : List String) → lookup k deps ≡ some ds → unmet o ds ≡ 0 → 0 < count k o

once-of_Inv :
    (deps : Deps) (o : List String) (s : Frontier) (ws : List String)
    → Inv deps o s ws
    → (k : String) → count k o ≤ count k (keys deps)
once-of_Inv deps o s ws i k = elim (Option-cases (lookup k deps)) [
  | inl missing ↦ ground (arith, i.foreign k missing)
  | inr (ds, found) ↦ ground (
    arith,
    i.waiting k ds found,
    i.ready k ds found,
    count-keys_pos k deps (contains_key-of_lookup k deps ds found),
  )
]

-- With as many rounds as there are jobs to place, the loop ends, and without a panic.
pub kahn_loop-Settled :
    (deps : Deps) (m : IsMap deps) (fuel : ℕ) (g : Map ℕ) (q o : List String)
    → Inv deps o (record { indegree = g; queue = q }) []
    → IsOrdered deps [] o
    → length deps < fuel + length o
    → Returns (Settled deps) (kahn_loop fuel (dependents_of deps []) g q o)
unfolding kahn_loop
kahn_loop-Settled deps m zero g q o i h b =
    absurd
      (omega (arith, length-le_of_count o (keys deps) (once-of_Inv deps o _ _ i), length-keys deps))
kahn_loop-Settled deps m (suc fuel) g [] o i h b = record {
  ordered = h;
  once = once-of_Inv deps o _ _ i;
  closed = λ k ds found p. ground (arith, i.ready k ds found);
}
kahn_loop-Settled deps m (suc fuel) g (job ∷ q) o i h b =
    Returns-bind (λ s. Inv deps (o ++ job ∷ []) s []) (Settled deps) (release_all _ _) _
      (release_all-Inv deps (o ++ job ∷ []) (entries_of job (dependents_of deps []))
        (record { indegree = g; queue = q }) (popped-Inv deps m o job q g i))
      λ s i'.
        kahn_loop-Settled deps m fuel s.indegree s.queue (o ++ job ∷ []) i'
          (popped-IsOrdered deps m o job q g i h) (omega (arith, length-append o (job ∷ [])))
