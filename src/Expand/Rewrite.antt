-- ===== src/Expand/Rewrite.antt =====
-- The second loop of expand_foreach: it changes only the dependencies.
use fluxion.Prelude.{
  String, List, [], ◌∷◌, ◌++◌, Map, Option, none, some, lookup, contains, contains_key, All,
  All-append, ◌==◌, ◌≡◌, refl, arith, Bool-cases, Option-cases, inl, inr, ap, String-cases, subst,
  ◌||◌,
}
use fluxion.Outcome.{Outcome, ok, err, Ensures, Ensures-bind, ◌>>=◌}
use fluxion.Workflow.Types.{JobDefinition}
use fluxion.Expand.Defs.{
  ExpandError, rewrite_deps, add_children, rewrite_fan_in, rewrite_job, rewrite_jobs,
}

-- A rewritten job, and the job that it was.
pub record Rewritten (groups : Map (List String)) (jobs : Map JobDefinition) (p : String)
    (d : JobDefinition) : Type 0 where
  pub old : JobDefinition
  pub found : lookup p jobs ≡ some old
  pub deps : List String
  pub by : rewrite_fan_in groups p old.input_from (rewrite_deps groups old.depends_on) ≡ ok deps
  pub same : d ≡ record old { depends_on = deps }

pub record AllRewritten (groups : Map (List String)) (jobs jobs' : Map JobDefinition) : Type 0 where
  pub at : (p : String) (d : JobDefinition) → lookup p jobs' ≡ some d → Rewritten groups jobs p d
  pub same_keys : (p : String) → contains_key p jobs' ≡ contains_key p jobs

rewrite_job-Rewritten :
    (groups : Map (List String)) (id : String) (def : JobDefinition)
    → Ensures
        (λ d.
          (deps : List String) × (rewrite_fan_in groups id def.input_from
              (rewrite_deps groups def.depends_on)
            ≡ ok deps)
          × (d ≡ record def { depends_on = deps }))
        (rewrite_job groups id def)
unfolding rewrite_job
rewrite_job-Rewritten groups id def =
    go (rewrite_fan_in groups id def.input_from (rewrite_deps groups def.depends_on)) refl
  where
    go :
        (r : Outcome ExpandError (List String))
        → rewrite_fan_in groups id def.input_from (rewrite_deps groups def.depends_on) ≡ r
        → Ensures
            (λ d.
              (deps : List String) × (rewrite_fan_in groups id def.input_from
                  (rewrite_deps groups def.depends_on)
                ≡ ok deps)
              × (d ≡ record def { depends_on = deps }))
            (r >>= λ deps. ok (record def { depends_on = deps }))
    go (ok deps) e = (deps, e, refl)
    go (err x) e = tt
    go (Outcome.panic x) e = tt

pub rewrite_jobs-AllRewritten :
    (groups : Map (List String)) (jobs : Map JobDefinition)
    → Ensures (AllRewritten groups jobs) (rewrite_jobs groups jobs)
unfolding rewrite_jobs
rewrite_jobs-AllRewritten groups [] = record { at = λ p d h. cc; same_keys = λ p. refl }
rewrite_jobs-AllRewritten groups ((id, def) ∷ jobs) =
    Ensures-bind _ (AllRewritten groups ((id, def) ∷ jobs)) (rewrite_job groups id def)
      (λ def'. rewrite_jobs groups jobs >>= λ jobs'. ok ((id, def') ∷ jobs'))
      (rewrite_job-Rewritten groups id def)
      λ def' (deps, by, same).
        Ensures-bind (AllRewritten groups jobs) (AllRewritten groups ((id, def) ∷ jobs))
          (rewrite_jobs groups jobs) (λ jobs'. ok ((id, def') ∷ jobs'))
          (rewrite_jobs-AllRewritten groups jobs)
          λ jobs' all. record {
            at = λ p d h. elim (String-cases id p) [
              | inl (e, t) ↦ record {
                old = def;
                found = rw t;
                deps = deps;
                by =
                    subst
                      (λ j.
                        rewrite_fan_in groups j def.input_from (rewrite_deps groups def.depends_on)
                        ≡ ok deps)
                      e by;
                same = let h' : some def' ≡ some d = rw t at h in cc (h', same);
              }
              | inr (n, t) ↦
                  let x = all.at p d (rw t at h) in
                  record {
                    old = x.old;
                    found = rw t x.found;
                    deps = x.deps;
                    by = x.by;
                    same = x.same;
                  }
            ];
            same_keys = λ p. ap (λ b. id == p || b) (all.same_keys p);
          }

-- Every dependency that is left is known, if its group's children are, or it is in no group.
module _ (Known : String → Type 0) (groups : Map (List String))
    (children : (p : String) (cs : List String) → lookup p groups ≡ some cs → All Known cs) where
  rewrite_deps-Known :
      (ds : List String)
      → All (λ d. lookup d groups ≡ none → Known d) ds
      → All Known (rewrite_deps groups ds)
  unfolding rewrite_deps
  rewrite_deps-Known [] a = tt
  rewrite_deps-Known (d ∷ ds) a = elim (Option-cases (lookup d groups)) [
    | inl e ↦ rw e (a.0 e, rewrite_deps-Known ds a.1)
    | inr (cs, e) ↦ rw e (All-append Known cs _ (children d cs e) (rewrite_deps-Known ds a.1))
  ]

  add_children-Known :
      (cs ds : List String) → All Known cs → All Known ds → All Known (add_children cs ds)
  unfolding add_children
  add_children-Known [] ds c a = a
  add_children-Known (x ∷ cs) ds c a = elim (Bool-cases (contains x ds)) [
    | inl t ↦ rw t (add_children-Known cs ds c.1 a)
    | inr f ↦
        rw f (add_children-Known cs (ds ++ x ∷ []) c.1 (All-append Known ds (x ∷ []) a (c.0, tt)))
  ]

  pub rewritten-Known :
      (id : String) (src : Option String) (ds deps : List String)
      → All (λ d. lookup d groups ≡ none → Known d) ds
      → rewrite_fan_in groups id src (rewrite_deps groups ds) ≡ ok deps
      → All Known deps
  rewritten-Known id none ds deps a e =
      let same : rewrite_deps groups ds ≡ deps = cc in
      subst (All Known) same (rewrite_deps-Known ds a)
  rewritten-Known id (some src) ds deps a e = elim (Option-cases (lookup src groups)) [
    | inl m ↦ absurd (ground arith)
    | inr (cs, f) ↦
        let e' : ok (add_children cs (rewrite_deps groups ds)) ≡ ok deps =
          rw (f, rewrite_fan_in) at e in
        let same : add_children cs (rewrite_deps groups ds) ≡ deps = cc in
        subst (All Known) same (
          add_children-Known cs (rewrite_deps groups ds) (children src cs f)
            (rewrite_deps-Known ds a))
  ]
