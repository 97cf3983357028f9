-- ===== src/Dag/Consistent.antt =====
-- The graph of dag.rs: its two maps invert one another and its order is topological. What keeps
-- that, and what does not.
use fluxion.Prelude.{
  ◌+◌, ◌<◌, String, List, [], ◌∷◌, ◌++◌, Map, count, count-append, keys, lookup, insert,
  contains_key, IsMap, All, if◌then◌else◌, ◌==◌, ◌≡◌, refl, arith, eq_iff, true, false,
  Option-cases, inl, inr, lookup-insert, count-keys_pos, count-keys_zero, count-keys_of_none, ap,
  lookup-of_missing, All-map, eq_self, contains_key-insert,
}
use fluxion.Workflow.Types.{JobDefinition}
use fluxion.Dag.Kahn.{Deps, entries_of, dependents_of, push_all}
use fluxion.Dag.Order.{IsOrdered, IsOrdered-snoc, IsTopoOrder}
use fluxion.Dag.Notify.{
  count-push_all, count-dependents_of, named-of_lookup, named-of_missing, named,
}
use fluxion.Dag.Positions.{dep-known}
use fluxion.Dag.Build.{Dag, deps_of_jobs, no_dependents, insert_node, insert_nodes}

pub record IsConsistent (dag : Dag) : Type 0 where
  pub topo : IsTopoOrder dag.deps dag.topo_order
  -- `k` waits for `d` as often as `k` names `d`.
  pub inverse :
      (k d : String) → count k (entries_of d dag.dependents) ≡ count d (entries_of k dag.deps)

entries-no_dependents :
    (d : String) (jobs : Map JobDefinition) → entries_of d (no_dependents jobs) ≡ []
entries-no_dependents d [] = refl
entries-no_dependents d ((j, def) ∷ jobs) = ground (arith, entries-no_dependents d jobs)

pub keys-deps_of_jobs : (jobs : Map JobDefinition) → keys (deps_of_jobs jobs) ≡ keys jobs
keys-deps_of_jobs [] = refl
keys-deps_of_jobs ((j, def) ∷ jobs) = rw (keys-deps_of_jobs jobs)

named-entries :
    (k d : String) (deps : Deps) → IsMap deps → named k d deps ≡ count d (entries_of k deps)
named-entries k d deps m = elim (Option-cases (lookup k deps)) [
  | inl e ↦ rw (named-of_missing k d deps (count-keys_of_none k deps e), e, entries_of) refl
  | inr (ds, e) ↦ rw (named-of_lookup k d deps ds m e, e, entries_of) refl
]

-- The map that `build` makes of the dependents inverts the dependencies.
pub dependents-inverse :
    (jobs : Map JobDefinition)
    → IsMap jobs
    → (k d : String)
    → count k (entries_of d (dependents_of (deps_of_jobs jobs) (no_dependents jobs)))
      ≡ count d (entries_of k (deps_of_jobs jobs))
dependents-inverse jobs m k d = omega (
  arith,
  count-dependents_of k d (deps_of_jobs jobs) (no_dependents jobs),
  named-entries k d (deps_of_jobs jobs) (λ j. rw (keys-deps_of_jobs jobs) (m j)),
  ap (count k) (entries-no_dependents d jobs),
)

IsOrdered-cong :
    (deps deps' : Deps) (seen t : List String)
    → ((k : String) → 0 < count k t → entries_of k deps ≡ entries_of k deps')
    → IsOrdered deps seen t
    → IsOrdered deps' seen t
IsOrdered-cong deps deps' seen [] h o = tt
IsOrdered-cong deps deps' seen (x ∷ t) h o = (
  rw (h x (ground (arith, eq_iff x x))) at o.0,
  IsOrdered-cong deps deps' (seen ++ x ∷ []) t (λ k p. h k (ground arith)) o.1,
)

pub entries-insert :
    (k j : String) (ds : List String) (m : Deps)
    → entries_of j (insert k ds m) ≡ (if k == j then ds else entries_of j m)
entries-insert k j ds m = ground (arith, lookup-insert k j ds m)

pub count-keys-insert {ℓ} :
    {V : Type ℓ} (k j : String) (v : V) (m : Map V)
    → contains_key k m ≡ false
    → count j (keys (insert k v m)) ≡ count j (keys m) + (if k == j then 1 else 0)
count-keys-insert k j v [] h = omega arith
count-keys-insert k j v ((i, w) ∷ m) h = ground (arith, count-keys-insert k j v m, eq_iff i k)

-- A new job of a consistent graph: what the graph says of it beforehand.
module _ (id : String) (ds : List String) (dag : Dag) (c : IsConsistent dag)
    (fresh : contains_key id dag.deps ≡ false) where
  -- It names nothing, and nobody names it.
  names_nothing : (d : String) → count d (entries_of id dag.deps) ≡ 0
  names_nothing d = rw (lookup-of_missing id dag.deps fresh, entries_of) refl

  unnamed : (k : String) → count id (entries_of k dag.deps) ≡ 0
  unnamed k =
      ground
        (arith, dep-known dag.deps dag.topo_order k id c.topo, count-keys_zero id dag.deps fresh)

  abbrev new_deps : Deps
  new_deps = insert id ds dag.deps

  entries-kept :
      (k : String) → 0 < count k dag.topo_order → entries_of k dag.deps ≡ entries_of k new_deps
  entries-kept k p = ground (
    arith,
    entries-insert id k ds dag.deps,
    eq_iff id k,
    c.topo.complete k,
    count-keys_zero id dag.deps fresh,
  )

  inserted-topo :
      All (λ d. contains_key d dag.deps ≡ true) ds
      → IsTopoOrder new_deps (dag.topo_order ++ id ∷ [])
  inserted-topo known = record {
    complete = λ k. omega (
      arith,
      count-append k dag.topo_order (id ∷ []),
      count-keys-insert id k ds dag.deps fresh,
      c.topo.complete k,
    );
    ordered =
        IsOrdered-snoc new_deps [] dag.topo_order id
          (IsOrdered-cong dag.deps new_deps [] dag.topo_order entries-kept c.topo.ordered)
          (rw (entries-insert id id ds dag.deps, eq_self id)
            (All-map (λ d. contains_key d dag.deps ≡ true) (λ d. 0 < count d dag.topo_order) ds
              (λ d p. omega (arith, count-keys_pos d dag.deps p, c.topo.complete d)) known));
  }

  inserted-inverse :
      (k d : String)
      → count k (entries_of d (push_all id ds (insert id [] dag.dependents)))
        ≡ count d (entries_of k new_deps)
  inserted-inverse k d = ground (
    arith,
    count-push_all k d id ds (insert id [] dag.dependents),
    entries-insert id d [] dag.dependents,
    entries-insert id k ds dag.deps,
    eq_iff id d,
    eq_iff id k,
    c.inverse k d,
    names_nothing d,
    unnamed k,
  )

-- A new job whose dependencies are in the graph keeps the graph consistent.
insert_node-IsConsistent :
    (id : String) (ds : List String) (dag : Dag)
    → IsConsistent dag
    → contains_key id dag.deps ≡ false
    → All (λ d. contains_key d dag.deps ≡ true) ds
    → IsConsistent (insert_node id ds dag)
unfolding insert_node
insert_node-IsConsistent id ds dag c fresh known = record {
  topo = inserted-topo id ds dag c fresh known;
  inverse = inserted-inverse id ds dag c fresh;
}

contains_key-still :
    (id : String) (v : List String) (m : Deps) (ds : List String)
    → All (λ d. contains_key d m ≡ true) ds
    → All (λ d. contains_key d (insert id v m) ≡ true) ds
contains_key-still id v m ds =
    All-map (λ d. contains_key d m ≡ true) (λ d. contains_key d (insert id v m) ≡ true) ds
      (λ d h. ground (arith, contains_key-insert id d v m))

-- What `insert_nodes` asks of its caller: the new jobs are new, and they depend on old ones.
pub record IsExtension (dag : Dag) (new_jobs : Deps) : Type 0 where
  pub distinct : IsMap new_jobs
  pub fresh : (k : String) → contains_key k new_jobs ≡ true → contains_key k dag.deps ≡ false
  pub known : All (λ e. All (λ d. contains_key d dag.deps ≡ true) e.1) new_jobs

IsExtension-tail :
    (id : String) (ds : List String) (rest : Deps) (dag : Dag)
    → IsExtension dag ((id, ds) ∷ rest)
    → IsExtension (insert_node id ds dag) rest
unfolding insert_node
IsExtension-tail id ds rest dag x = record {
  distinct = λ k. ground (arith, x.distinct k);
  fresh = λ k h. ground (
    arith,
    contains_key-insert id k ds dag.deps,
    x.fresh k,
    x.distinct k,
    eq_iff id k,
    count-keys_pos k rest h,
  );
  known =
      All-map (λ (e : String × List String). All (λ d. contains_key d dag.deps ≡ true) e.1)
        (λ e. All (λ d. contains_key d (insert id ds dag.deps) ≡ true) e.1) rest
        (λ e. contains_key-still id ds dag.deps e.1) x.known.1;
}

-- Inserting jobs with distinct new names that depend only on jobs of a consistent graph, in whatever
-- order the map is iterated,
-- keeps the order topological and the two maps inverse to one another.
pub insert_nodes-IsConsistent :
    (new_jobs : Deps) (dag : Dag)
    → IsConsistent dag
    → IsExtension dag new_jobs
    → IsConsistent (insert_nodes new_jobs dag)
unfolding insert_nodes
insert_nodes-IsConsistent [] dag c x = c
insert_nodes-IsConsistent ((id, ds) ∷ rest) dag c x =
    insert_nodes-IsConsistent rest (insert_node id ds dag)
      (insert_node-IsConsistent id ds dag c (x.fresh id (ground (arith, eq_iff id id))) x.known.0)
      (IsExtension-tail id ds rest dag x)
