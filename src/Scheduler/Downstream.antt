-- ===== src/Scheduler/Downstream.antt =====
-- downstream_inclusive of crates/fluxion-host/src/scheduler.rs, which finds the jobs to run again.
use fluxion.Prelude.{
  ℕ, suc, zero, ◌+◌, ◌≤◌, ◌<◌, String, List, [], ◌∷◌, ◌++◌, true, false, ◌||◌, ◌==◌, length,
  contains, if◌then◌else◌, ◌≡◌, ◌↔◌, subst, refl, inl, inr, arith, eq_iff, Bool-cases,
}
use fluxion.Outcome.{ok, Returns, Returns-value}
use fluxion.Dag.Kahn.{Deps, entries_of}
use fluxion.Dag.Build.{Dag}
use fluxion.Scheduler.Execute.{downstream_loop, downstream_inclusive, edges}

contains-append :
    (x : String) (xs ys : List String) → contains x (xs ++ ys) ≡ (contains x xs || contains x ys)
contains-append x [] ys = refl
contains-append x (y ∷ xs) ys = ground (arith, contains-append x xs ys)

-- The entries of the jobs that are not visited yet.
abbrev rest_edges : List String → Deps → ℕ
rest_edges visited [] = 0
rest_edges visited ((k, l) ∷ m) =
    let rest = rest_edges visited m in if contains k visited then rest else length l + rest

rest_edges_mono :
    (n : String) (visited : List String) (m : Deps)
    → rest_edges (n ∷ visited) m ≤ rest_edges visited m
rest_edges_mono n visited [] = omega arith
rest_edges_mono n visited ((k, l) ∷ m) = ground (arith, rest_edges_mono n visited m)

rest_edges-visit :
    (n : String) (visited : List String) (m : Deps)
    → contains n visited ≡ false
    → rest_edges (n ∷ visited) m + length (entries_of n m) ≤ rest_edges visited m
rest_edges-visit n visited [] h = omega arith
rest_edges-visit n visited ((k, l) ∷ m) h =
    ground
      (arith, rest_edges-visit n visited m h, rest_edges_mono n visited m, eq_iff n k, eq_iff k n)

rest_edges-none : (m : Deps) → rest_edges [] m ≡ edges m
rest_edges-none [] = refl
rest_edges-none ((k, l) ∷ m) = omega (arith, rest_edges-none m)

length-append_str : (xs ys : List String) → length (xs ++ ys) ≡ length xs + length ys
length-append_str [] ys = omega arith
length-append_str (x ∷ xs) ys = omega (arith, length-append_str xs ys)

-- A job, and what waits for it, at once or through others.
pub data Downstream (dependents : Deps) (start : String) : String → Type 0 where
  here : Downstream dependents start start
  next :
      {a b : String}
      → Downstream dependents start a
      → contains b (entries_of a dependents) ≡ true
      → Downstream dependents start b

module _ (dependents : Deps) (start : String) where
  abbrev AllDownstream : List String → List String → Type 0
  AllDownstream queue visited =
      (x : String) → (contains x visited || contains x queue) ≡ true → Downstream dependents start x

  -- What waits for a visited job is visited or queued.
  abbrev IsClosed : List String → List String → Type 0
  IsClosed queue visited =
      (a b : String)
      → contains a visited ≡ true
      → contains b (entries_of a dependents) ≡ true
      → (contains b visited || contains b queue) ≡ true

  record Replayed (visited : List String) : Type 0 where
    with_start : contains start visited ≡ true
    closed : IsClosed [] visited
    sound : AllDownstream [] visited

  downstream_loop-Replayed :
      (fuel : ℕ) (queue visited : List String)
      → length queue + rest_edges visited dependents < fuel
      → (contains start visited || contains start queue) ≡ true
      → IsClosed queue visited
      → AllDownstream queue visited
      → Returns Replayed (downstream_loop fuel dependents queue visited)
  unfolding downstream_loop
  downstream_loop-Replayed zero queue visited f s c d = absurd (omega arith)
  downstream_loop-Replayed (suc fuel) [] visited f s c d = record {
    with_start = ground arith;
    closed = c;
    sound = d;
  }
  downstream_loop-Replayed (suc fuel) (node ∷ queue) visited f s c d =
      elim (Bool-cases (contains node visited)) [
        | inl e ↦
            rw (e, Returns)
              (downstream_loop-Replayed fuel queue visited (omega arith)
                (ground (arith, eq_iff node start))
                (λ a b p q. ground (arith, c a b p q, eq_iff node b)) (λ x p. d x (ground arith)))
        | inr e ↦
            rw (e, Returns)
              (downstream_loop-Replayed fuel (queue ++ entries_of node dependents) (node ∷ visited)
                (omega (
                  arith,
                  rest_edges-visit node visited dependents e,
                  length-append_str queue (entries_of node dependents),
                ))
                (ground (arith, contains-append start queue (entries_of node dependents)))
                (λ a b p q. ground (
                  arith,
                  c a b,
                  q,
                  eq_iff node a,
                  eq_iff node b,
                  contains-append b queue (entries_of node dependents),
                ))
                (λ x p. elim (Bool-cases (contains x (entries_of node dependents))) [
                  | inl t ↦ next (d node (ground (arith, eq_iff node node))) t
                  | inr t ↦
                      d x (ground (arith, contains-append x queue (entries_of node dependents)))
                ]))
      ]

  Replayed-complete :
      (visited : List String)
      → Replayed visited
      → (x : String) → Downstream dependents start x
      → contains x visited ≡ true
  Replayed-complete visited r _ here = r.with_start
  Replayed-complete visited r _ (next {a} {b} d h) =
      ground (arith, r.closed a b (Replayed-complete visited r a d) h)

-- The search always ends, and it finds the job itself and the jobs that wait for it, at once or
-- through others, and no more.
pub downstream_inclusive_iff :
    (dag : Dag) (start : String)
    → (found : List String) × (downstream_inclusive dag start ≡ ok found)
      × ((x : String) → (contains x found ≡ true) ↔ Downstream dag.dependents start x)
unfolding downstream_inclusive
downstream_inclusive_iff dag start =
    let (found, e, r) =
      Returns-value (Replayed dag.dependents start) (downstream_inclusive dag start) (
        downstream_loop-Replayed dag.dependents start (edges dag.dependents + 2) (start ∷ []) []
          (omega (arith, rest_edges-none dag.dependents)) (ground (arith, eq_iff start start))
          (λ a b p q. cc) (λ x p. is_start x (ground arith))) in
    (
      found,
      e,
      λ x. (λ p. r.sound x (ground arith), Replayed-complete dag.dependents start found r x),
    )
  where
    is_start : (x : String) → start == x ≡ true → Downstream dag.dependents start x
    is_start x h = subst (Downstream dag.dependents start) (ground (arith, eq_iff start x)) here
