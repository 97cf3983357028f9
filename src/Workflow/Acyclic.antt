-- ===== src/Workflow/Acyclic.antt =====
-- The invariant of the depth-first search of has_cycle, and what the search's answer means.
use fluxion.Prelude.{
  ℕ, zero, suc, ◌+◌, ◌<◌, ◌≤◌, String, List, [], ◌∷◌, ◌++◌, Map, Bool, true, false, not, ◌==◌,
  count, count-append, length, lookup, keys, keep, contains, if◌then◌else◌, ◌≡◌, refl, arith,
  eq_iff, All, contains-count, not-contains-count, Option-cases, Bool-cases, inl, inr, subst,
  String-cases, count-keys_pos, contains_key-of_lookup, length-keys,
}
use fluxion.Outcome.{ok, Returns, Returns-bind, Returns-map}
use fluxion.Workflow.Types.{JobDefinition}
use fluxion.Workflow.Cycle.{Search, depends, Visit, dfs_any, dfs, leave, has_cycle}
use fluxion.Dag.Kahn.{entries_of}
use fluxion.Dag.Order.{unmet, unmet_mono, unmet-cons, unmet-le-length, IsOrdered, IsOrdered-snoc}
use fluxion.Dag.Build.{deps_of_jobs}

-- `a` depends on `b`, at once or through other jobs.
pub data Reaches (jobs : Map JobDefinition) (a : String) : String → Type 0 where
  direct : {b : String} → 0 < count b (depends a jobs) → Reaches jobs a b
  via : {b c : String} → Reaches jobs a b → 0 < count c (depends b jobs) → Reaches jobs a c

count-leave :
    (k node : String) (st : List String)
    → count k (keep (λ j. not (j == node)) st) ≡ (if node == k then 0 else count k st)
count-leave k node [] = ground arith
count-leave k node (x ∷ st) =
    ground (arith, count-leave k node st, eq_iff x node, eq_iff x k, eq_iff node k)

pub entries-deps_of_jobs :
    (k : String) (jobs : Map JobDefinition) → entries_of k (deps_of_jobs jobs) ≡ depends k jobs
entries-deps_of_jobs k [] = refl
entries-deps_of_jobs k ((j, def) ∷ jobs) = ground (arith, entries-deps_of_jobs k jobs)

-- What the search keeps: `finished` are the visited jobs that it has left, in that order.
module _ (jobs : Map JobDefinition) (P : String → Type 0) where
  pub record Inv (s : Search) (finished : List String) : Type 0 where
    pub split : (k : String) → count k s.visited ≡ count k finished + count k s.stack
    pub once : (k : String) → count k s.visited ≤ 1
    pub ordered : IsOrdered (deps_of_jobs jobs) [] finished
    pub origin : (k : String) → 0 < count k s.visited → P k

  -- What a search from `nodes` gives, from the state `s`.
  pub record Left (s s' : Search) (finished nodes : List String) : Type 0 where
    pub now : List String
    pub inv : Inv s' now
    pub stack : (k : String) → count k s'.stack ≡ count k s.stack
    pub kept : (k : String) → count k finished ≤ count k now
    pub reached : All (λ d. 0 < count d now) nodes

  abbrev pub After : Search → List String → List String → Bool × Search → Type 0
  After s finished nodes (true, s') = (k : String) × Reaches jobs k k
  After s finished nodes (false, s') = Left s s' finished nodes

  abbrev pub room : Search → ℕ
  room s = unmet s.visited (keys jobs) + 1

  -- The search `visit` works from any state with at most `fuel` rounds to go.
  abbrev pub Works : ℕ → Visit → Type 0
  Works fuel visit =
      (node : String) (s : Search) (finished : List String)
      → Inv s finished
      → P node
      → ((k : String) → 0 < count k s.stack → Reaches jobs k node)
      → room s ≤ fuel
      → Returns (After s finished (node ∷ [])) (visit node s)

  -- Visiting more leaves less room to visit.
  room-Left :
      {s s' : Search} {finished nodes : List String}
      → Inv s finished
      → Left s s' finished nodes
      → room s' ≤ room s
  room-Left {s} {s'} i l = omega (
    arith,
    unmet_mono s.visited s'.visited (keys jobs)
        (λ k. omega (arith, i.split k, l.inv.split k, l.stack k, l.kept k)),
  )

  All-kept :
      (now later ds : List String)
      → ((k : String) → count k now ≤ count k later)
      → All (λ d. 0 < count d now) ds
      → All (λ d. 0 < count d later) ds
  All-kept now later [] h a = tt
  All-kept now later (d ∷ ds) h a = (omega (arith, h d, a.0), All-kept now later ds h a.1)

  After-cons :
      (d : String) (ds finished : List String) (s s' : Search) (h : Left s s' finished (d ∷ []))
      (a : Bool × Search)
      → After s' h.now ds a
      → After s finished (d ∷ ds) a
  After-cons d ds finished s s' h (true, t) x = x
  After-cons d ds finished s s' h (false, t) l = record {
    now = l.now;
    inv = l.inv;
    stack = λ k. omega (arith, l.stack k, h.stack k);
    kept = λ k. omega (arith, l.kept k, h.kept k);
    reached = (omega (arith, l.kept d, h.reached.0), l.reached);
  }

  abbrev Chains : Search → List String → Type 0
  Chains s ds =
      (d : String) → 0 < count d ds → (k : String) → 0 < count k s.stack → Reaches jobs k d

  -- One visit, and then the rest of the loop.
  dfs_any-step :
      (fuel : ℕ) (visit : Visit) (d : String) (ds : List String) (s : Search)
      (finished : List String)
      → Inv s finished
      → Chains s ds
      → room s ≤ fuel
      → ((s' : Search) (now : List String)
          → Inv s' now
          → Chains s' ds
          → room s' ≤ fuel
          → Returns (After s' now ds) (dfs_any visit ds s'))
      → (a : Bool × Search) → After s finished (d ∷ []) a
      → Returns (After s finished (d ∷ ds)) (if a.0 then ok (true, a.1) else dfs_any visit ds a.1)
  dfs_any-step fuel visit d ds s finished i c r rest (true, s') h = h
  dfs_any-step fuel visit d ds s finished i c r rest (false, s') h =
      Returns-map (After s' h.now ds) (After s finished (d ∷ ds)) (dfs_any visit ds s')
        (After-cons d ds finished s s' h)
        (rest s' h.now h.inv (λ e p k q. c e p k (omega (arith, h.stack k)))
          (omega (arith, room-Left i h)))

  -- The loop over `ds`, if each visit works.
  dfs_any-Works :
      (fuel : ℕ) (visit : Visit) (ds : List String) (s : Search) (finished : List String)
      → Works fuel visit
      → Inv s finished
      → ((d : String) → 0 < count d ds → P d)
      → Chains s ds
      → (0 < length ds → room s ≤ fuel)
      → Returns (After s finished ds) (dfs_any visit ds s)
  unfolding dfs_any
  dfs_any-Works fuel visit [] s finished w i p c r = record {
    now = finished;
    inv = i;
    stack = λ k. refl;
    kept = λ k. omega arith;
    reached = tt;
  }
  dfs_any-Works fuel visit (d ∷ ds) s finished w i p c r =
      let more : Chains s ds = λ e q. c e (ground arith) in
      Returns-bind (After s finished (d ∷ [])) (After s finished (d ∷ ds)) (visit d s) _
        (w d s finished i (p d (ground (arith, eq_iff d d))) (c d (ground (arith, eq_iff d d)))
          (r (omega arith)))
        (dfs_any-step fuel visit d ds s finished i more (r (omega arith)) (λ s' now i' c' r'.
          dfs_any-Works fuel visit ds s' now w i' (λ e q. p e (ground arith)) c' (λ _. r')))

  module _ (node : String) (s : Search) (finished : List String) (i : Inv s finished)
      (new : count node s.visited ≡ 0) where
    abbrev entered : Search
    entered = record { visited = node ∷ s.visited; stack = node ∷ s.stack }

    entered-Inv : P node → Inv entered finished
    entered-Inv p = record {
      split = λ k. omega (arith, i.split k);
      once = λ k. ground (arith, i.once k, eq_iff node k);
      ordered = i.ordered;
      origin = λ k q. elim (String-cases node k) [
        | inl (e, _) ↦ subst P e p
        | inr (_, e) ↦ i.origin k (ground arith)
      ];
    }

    -- All dependencies of the node are finished: so is the node.
    leave-Left :
        (s' : Search)
        → Left entered s' finished (depends node jobs)
        → Left s (leave node s') finished (node ∷ [])
    leave-Left s' l = record {
      now = l.now ++ node ∷ [];
      inv = record {
        split = λ k. ground (
          arith,
          l.inv.split k,
          l.stack k,
          i.split k,
          new,
          count-append k l.now (node ∷ []),
          count-leave k node s'.stack,
          eq_iff node k,
        );
        once = l.inv.once;
        ordered =
            IsOrdered-snoc (deps_of_jobs jobs) [] l.now node l.inv.ordered
              (rw (entries-deps_of_jobs node jobs) l.reached);
        origin = l.inv.origin;
      };
      stack = λ k.
          ground (arith, l.stack k, i.split k, new, count-leave k node s'.stack, eq_iff node k);
      kept = λ k. omega (arith, l.kept k, count-append k l.now (node ∷ []));
      reached = (ground (arith, count-append node l.now (node ∷ []), eq_iff node node), tt);
    }

    entered-After :
        (a : Bool × Search)
        → After entered finished (depends node jobs) a
        → After s finished (node ∷ []) (a.0, (if a.0 then a.1 else leave node a.1))
    entered-After (true, s') h = h
    entered-After (false, s') l = leave-Left s' l

    entered-Chains :
        ((k : String) → 0 < count k s.stack → Reaches jobs k node)
        → Chains entered (depends node jobs)
    entered-Chains c d q k p = elim (String-cases node k) [
      | inl (e, _) ↦ subst (λ x. Reaches jobs x d) e (direct q)
      | inr (_, e) ↦ via (c k (ground arith)) q
    ]

    -- A node with dependencies is a job, so that entering it leaves less room.
    entered-room : 0 < length (depends node jobs) → room entered < room s
    entered-room h = elim (Option-cases (lookup node jobs)) [
      | inl missing ↦ absurd (ground arith)
      | inr (def, found) ↦ omega (
        arith,
        unmet-cons s.visited node (keys jobs) new,
        count-keys_pos node jobs (contains_key-of_lookup node jobs def found),
      )
    ]

  dfs-Works :
      (fuel : ℕ)
      → ((a b : String) → P a → 0 < count b (depends a jobs) → P b)
      → Works fuel (dfs fuel jobs)
  unfolding dfs
  dfs-Works zero closed node s finished i p c r = absurd (omega arith)
  dfs-Works (suc fuel) closed node s finished i p c r = elim (Bool-cases (contains node s.stack)) [
    | inl on ↦ rw on (node, c node (contains-count node s.stack on))
    | inr off ↦ rw off (elim (Bool-cases (contains node s.visited)) [
      | inl old ↦ rw old (record {
        now = finished;
        inv = i;
        stack = λ k. refl;
        kept = λ k. omega arith;
        reached = (
          omega (
            arith,
            i.split node,
            not-contains-count node s.stack off,
            contains-count node s.visited old,
          ),
          tt,
        );
      })
      | inr new ↦
          let fresh = not-contains-count node s.visited new in
          rw new (
            Returns-bind (After (entered node s finished i fresh) finished (depends node jobs))
              (After s finished (node ∷ []))
              (dfs_any (dfs fuel jobs) (depends node jobs) (entered node s finished i fresh))
              (λ a. ok (a.0, (if a.0 then a.1 else leave node a.1)))
              (dfs_any-Works fuel (dfs fuel jobs) (depends node jobs)
                (entered node s finished i fresh) finished (dfs-Works fuel closed)
                (entered-Inv node s finished i fresh p) (λ d. closed node d p)
                (entered-Chains node s finished i fresh c)
                (λ h. omega (arith, entered-room node s finished i fresh h)))
              (entered-After node s finished i fresh))
    ])
  ]

-- Whether some job depends on itself, through whatever jobs.
abbrev pub HasCycle : Map JobDefinition → Type 0
HasCycle jobs = (k : String) × Reaches jobs k k

-- What `false` says: the jobs, and what they depend on, can be put in dependency order.
pub record IsCleared (jobs : Map JobDefinition) (P : String → Type 0) : Type 0 where
  pub order : List String
  pub ordered : IsOrdered (deps_of_jobs jobs) [] order
  pub once : (k : String) → count k order ≤ 1
  pub covers : All (λ k. 0 < count k order) (keys jobs)
  pub origin : (k : String) → 0 < count k order → P k

abbrev pub Answer : Map JobDefinition → (String → Type 0) → Bool → Type 0
Answer jobs P true = HasCycle jobs
Answer jobs P false = IsCleared jobs P

-- The search ends within its fuel, and its answer is right.
pub has_cycle-Answer :
    (jobs : Map JobDefinition) (P : String → Type 0)
    → ((a b : String) → P a → 0 < count b (depends a jobs) → P b)
    → ((k : String) → 0 < count k (keys jobs) → P k)
    → Returns (Answer jobs P) (has_cycle jobs)
unfolding has_cycle
has_cycle-Answer jobs P closed all =
    Returns-bind (After jobs P start [] (keys jobs)) (Answer jobs P)
      (dfs_any (dfs (suc (length jobs)) jobs) (keys jobs) start) (λ a. ok a.0)
      (dfs_any-Works jobs P (suc (length jobs)) (dfs (suc (length jobs)) jobs) (keys jobs) start []
        (dfs-Works jobs P (suc (length jobs)) closed)
        (record {
          split = λ k. omega arith;
          once = λ k. omega arith;
          ordered = tt;
          origin = λ k h. absurd (omega arith);
        })
        all (λ d p k h. absurd (omega arith))
        (λ _. omega (arith, unmet-le-length [] (keys jobs), length-keys jobs)))
      answer
  where
    start : Search
    start = record { visited = []; stack = [] }

    answer : (a : Bool × Search) → After jobs P start [] (keys jobs) a → Answer jobs P a.0
    answer (true, s) h = h
    answer (false, s) l = record {
      order = l.now;
      ordered = l.inv.ordered;
      once = λ k. omega (arith, l.inv.once k, l.inv.split k);
      covers = l.reached;
      origin = λ k h. l.inv.origin k (omega (arith, l.inv.split k));
    }
