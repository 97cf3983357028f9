-- ===== src/Expand/Steps.antt =====
-- The first loop of expand_foreach, as steps: each job is copied, or replaced by its children. An
-- invariant of the steps is one of the loop.
use fluxion.Prelude.{
  ℕ, ◌+◌, String, List, [], ◌∷◌, ◌++◌, Map, Option, none, some, true, false, lookup, insert,
  contains_key, All, All-map, All-append, if◌then◌else◌, ◌≡◌, ◌⊎◌, inl, inr, refl, arith, eq_iff,
  Bool-cases, lookup-insert, contains_key-insert, String-cases, ap,
}
use fluxion.Outcome.{Ensures, Ensures-any, Ensures-bind}
use fluxion.Workflow.Types.{JobDefinition}
use fluxion.Expand.Defs.{
  Json, is_some, is_dynamic_foreach, child_of, child_id, or_error, with_context,
  extract_jsonpath_array, input_text, expand_items, expand_job, expand_jobs, extract_failed,
  cannot_serialise,
}

-- What a child has of its parent.
pub record IsChild (def d : JobDefinition) : Type 0 where
  pub foreach : d.foreach ≡ none
  pub input_from : d.input_from ≡ none
  pub fail_fast : d.fail_fast ≡ false
  pub depends_on : d.depends_on ≡ def.depends_on

-- What the loop over the items makes of the map: it only adds children, and they are all there.
pub record Grown (def : JobDefinition) (jobs jobs' : Map JobDefinition) (ids : List String)
    : Type 0 where
  pub old_or_child :
      (p : String) (d : JobDefinition)
      → lookup p jobs' ≡ some d
      → (lookup p jobs ≡ some d) ⊎ IsChild def d
  pub kept : (p : String) → contains_key p jobs ≡ true → contains_key p jobs' ≡ true
  pub named : All (λ c. contains_key c jobs' ≡ true) ids

Grown-refl : (def : JobDefinition) (jobs : Map JobDefinition) → Grown def jobs jobs []
Grown-refl def jobs = record { old_or_child = λ p d h. inl h; kept = λ p h. h; named = tt }

-- One more child keeps that.
Grown-insert :
    (def : JobDefinition) (start jobs : Map JobDefinition) (ids : List String) (c item : String)
    → Grown def start jobs ids
    → Grown def start (insert c (child_of def item false) jobs) (ids ++ c ∷ [])
Grown-insert def start jobs ids c item g = record {
  old_or_child = λ p d h. elim (String-cases c p) [
    | inl (e, t) ↦
        let same : some (child_of def item false) ≡ some d = cc (
          h,
          lookup-insert c p (child_of def item false) jobs,
          ap (λ b. if b then some (child_of def item false) else lookup p jobs) t,
        ) in
        inr (record { foreach = cc; input_from = cc; fail_fast = cc; depends_on = cc })
    | inr (n, t) ↦ g.old_or_child p d (
        cc (
          h,
          lookup-insert c p (child_of def item false) jobs,
          ap (λ b. if b then some (child_of def item false) else lookup p jobs) t,
        ))
  ];
  kept = λ p h. ground (arith, g.kept p h, contains_key-insert c p (child_of def item false) jobs);
  named =
      All-append (λ j. contains_key j (insert c (child_of def item false) jobs) ≡ true) ids (c ∷ [])
        (All-map (λ j. contains_key j jobs ≡ true) _ ids
          (λ j h. ground (arith, contains_key-insert c j (child_of def item false) jobs)) g.named)
        (ground (arith, contains_key-insert c c (child_of def item false) jobs, eq_iff c c), tt);
}

-- What one round of the loop gives: a copy, or the children with their names as a new group.
pub data JobStep (id : String) (def : JobDefinition) (jobs : Map JobDefinition)
    (groups : Map (List String)) (r : Map JobDefinition × Map (List String)) : Type 0 where
  copied :
      (def.foreach ≡ none) ⊎ (is_dynamic_foreach def ≡ true)
      → r ≡ (insert id def jobs, groups)
      → JobStep id def jobs groups r
  fanned :
      is_some def.foreach ≡ true
      → is_dynamic_foreach def ≡ false
      → (ids : List String) → Grown def jobs r.0 ids
      → r.1 ≡ insert id ids groups
      → JobStep id def jobs groups r

module _ (json : Json) where
  expand_items-Grown :
      (job_id : String) (def : JobDefinition) (i : ℕ) (items : List json.Value)
      (start jobs : Map JobDefinition) (ids : List String)
      → Grown def start jobs ids
      → Ensures (λ r. Grown def start r.0 r.1) (expand_items json job_id def false i items jobs ids)
  unfolding expand_items
  expand_items-Grown job_id def i [] start jobs ids g = g
  expand_items-Grown job_id def i (item ∷ items) start jobs ids g =
      Ensures-bind (λ _. Unit {0}) (λ r. Grown def start r.0 r.1)
        (or_error (cannot_serialise job_id i) (json.print item))
        (λ item_input.
          expand_items json job_id def false (i + 1) items
            (insert (child_id job_id i) (child_of def item_input false) jobs)
            (ids ++ child_id job_id i ∷ []))
        (Ensures-any (or_error (cannot_serialise job_id i) (json.print item)))
        λ item_input _.
          expand_items-Grown job_id def (i + 1) items start
            (insert (child_id job_id i) (child_of def item_input false) jobs)
            (ids ++ child_id job_id i ∷ [])
            (Grown-insert def start jobs ids (child_id job_id i) item_input g)

  expand_job-JobStep :
      (over : Option String) (id : String) (def : JobDefinition) (jobs : Map JobDefinition)
      (groups : Map (List String)) (path : Option String)
      → def.foreach ≡ path
      → Ensures (JobStep id def jobs groups) (expand_job json over id def path jobs groups)
  unfolding expand_job
  expand_job-JobStep over id def jobs groups none e = copied (inl e) refl
  expand_job-JobStep over id def jobs groups (some path) e =
      elim (Bool-cases (is_dynamic_foreach def)) [
        | inl t ↦ rw t (copied (inr t) refl)
        | inr f ↦ rw f (
            Ensures-bind (λ _. Unit {0}) (JobStep id def jobs groups)
              (with_context (extract_failed id)
                (extract_jsonpath_array json path (input_text over def.input)))
              _
              (Ensures-any (
                with_context (extract_failed id)
                  (extract_jsonpath_array json path (input_text over def.input))))
              λ items _.
                Ensures-bind (λ r. Grown def jobs r.0 r.1) (JobStep id def jobs groups)
                  (expand_items json id def false 0 items jobs []) _
                  (expand_items-Grown id def 0 items jobs jobs [] (Grown-refl def jobs))
                  λ r g. fanned (ap is_some e) f r.1 g refl)
      ]

  -- A property of the jobs to do, the jobs made and the groups made that each round keeps holds
  -- at the end.
  module _ (over : Option String)
      (P : Map JobDefinition → Map JobDefinition → Map (List String) → Type 0)
      (step : (id : String) (def : JobDefinition) (todo jobs : Map JobDefinition)
          (groups : Map (List String)) (r : Map JobDefinition × Map (List String))
        → P ((id, def) ∷ todo) jobs groups
        → JobStep id def jobs groups r
        → P todo r.0 r.1) where
    pub expand_jobs_ind :
        (todo jobs : Map JobDefinition) (groups : Map (List String))
        → P todo jobs groups
        → Ensures (λ r. P [] r.0 r.1) (expand_jobs json over todo jobs groups)
    unfolding expand_jobs
    expand_jobs_ind [] jobs groups p = p
    expand_jobs_ind ((id, def) ∷ todo) jobs groups p =
        Ensures-bind (JobStep id def jobs groups) (λ r. P [] r.0 r.1)
          (expand_job json over id def def.foreach jobs groups)
          (λ r. expand_jobs json over todo r.0 r.1)
          (expand_job-JobStep over id def jobs groups def.foreach refl)
          λ r s. expand_jobs_ind todo r.0 r.1 (step id def todo jobs groups r p s)
