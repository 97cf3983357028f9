-- ===== src/Expand/Known.antt =====
-- Expansion keeps dependencies known, and what it does with a workflow that has no static foreach.
use fluxion.Prelude.{
  ◌+◌, String, List, [], ◌∷◌, ◌++◌, Map, Option, none, some, true, false, lookup, insert, keys,
  count, contains_key, IsMap, All, All-map, if◌then◌else◌, ◌==◌, ◌≡◌, inl, inr, refl, sym, ap, ◌∙◌,
  subst, arith, eq_iff, Bool-cases, Option-cases, String-cases, lookup-insert, contains_key-insert,
  lookup-of_key, any, Bool,
}
use mathlib.Core.List.{append_assoc, append-nil}
use fluxion.Outcome.{ok, err}
use fluxion.Workflow.Types.{JobDefinition, Workflow}
use fluxion.Expand.Defs.{
  Json, source_not_foreach, ExpandedWorkflow, is_some, expand_job, expand_jobs, rewrite_deps,
  rewrite_job, rewrite_jobs, rewrite_fan_in, expand_foreach,
}
use fluxion.Expand.Steps.{JobStep, copied, fanned}
use fluxion.Expand.Rewrite.{rewritten-Known}
use fluxion.Expand.Correct.{expand_foreach_ind, lookup-copied, NotStatic}

-- Every dependency of every job is a job.
abbrev pub DepsKnown : Map JobDefinition → Map JobDefinition → Type 0
DepsKnown all jobs = All (λ e. All (λ d. contains_key d all ≡ true) e.1.depends_on) jobs

record Covered (orig todo jobs : Map JobDefinition) (groups : Map (List String)) : Type 0 where
  covered :
      (p : String)
      → contains_key p orig ≡ true
      → contains_key p groups ≡ false
      → contains_key p todo ≡ false
      → contains_key p jobs ≡ true
  children :
      (p : String) (cs : List String)
      → lookup p groups ≡ some cs
      → All (λ c. contains_key c jobs ≡ true) cs
  deps :
      (p : String) (d : JobDefinition)
      → lookup p jobs ≡ some d
      → All (λ x. contains_key x orig ≡ true) d.depends_on
  later : DepsKnown orig todo

module _ (orig : Map JobDefinition) where
  abbrev InOrig : List String → Type 0
  InOrig ds = All (λ x. contains_key x orig ≡ true) ds

  still :
      (id : String) (def : JobDefinition) (jobs : Map JobDefinition) (cs : List String)
      → All (λ c. contains_key c jobs ≡ true) cs
      → All (λ c. contains_key c (insert id def jobs) ≡ true) cs
  still id def jobs cs =
      All-map (λ c. contains_key c jobs ≡ true) (λ c. contains_key c (insert id def jobs) ≡ true) cs
        (λ c h. ground (arith, contains_key-insert id c def jobs))

  step-Covered :
      (id : String) (def : JobDefinition) (todo jobs : Map JobDefinition)
      (groups : Map (List String)) (r : Map JobDefinition × Map (List String))
      → Covered orig ((id, def) ∷ todo) jobs groups
      → JobStep id def jobs groups r
      → Covered orig todo r.0 r.1
  step-Covered id def todo jobs groups r s (copied c e) = rw e (record {
    covered = λ p a b t. ground (arith, s.covered p a b, contains_key-insert id p def jobs);
    children = λ p cs f. still id def jobs cs (s.children p cs f);
    deps = λ p d f. elim (lookup-copied id p def d jobs f) [
      | inl (_, same) ↦ subst (λ (x : JobDefinition). InOrig x.depends_on) same s.later.0
      | inr old ↦ s.deps p d old
    ];
    later = s.later.1;
  })
  step-Covered id def todo jobs groups r s (fanned t n ids g e) = record {
    covered = λ p a b h.
        let b' : contains_key p (insert id ids groups) ≡ false = rw e at b in
        g.kept p (
          s.covered p a (ground (arith, contains_key-insert id p ids groups))
            (ground (arith, contains_key-insert id p ids groups)));
    children = λ p cs f.
        let f' : lookup p (insert id ids groups) ≡ some cs = rw e at f in
        elim (String-cases id p) [
          | inl (_, q) ↦
              let same : ids ≡ cs = cc (
                f',
                lookup-insert id p ids groups,
                ap (λ b. if b then some ids else lookup p groups) q,
              ) in
              subst (All (λ c. contains_key c r.0 ≡ true)) same g.named
          | inr (_, q) ↦
              let old : lookup p groups ≡ some cs = cc (
                f',
                lookup-insert id p ids groups,
                ap (λ b. if b then some ids else lookup p groups) q,
              ) in
              All-map (λ c. contains_key c jobs ≡ true) (λ c. contains_key c r.0 ≡ true) cs
                (λ c. g.kept c) (s.children p cs old)
        ];
    deps = λ p d f. elim (g.old_or_child p d f) [
      | inl old ↦ s.deps p d old
      | inr child ↦ subst InOrig (sym child.depends_on) s.later.0
    ];
    later = s.later.1;
  }

-- If every dependency of the workflow is a job of it, the same holds of the expanded workflow.
pub expand_foreach-DepsKnown :
    (json : Json) (over : Option String) (wf : Workflow) (ex : ExpandedWorkflow)
    → DepsKnown wf.jobs wf.jobs
    → expand_foreach json wf over ≡ ok ex
    → (p : String) (d : JobDefinition) → lookup p ex.workflow.jobs ≡ some d
    → All (λ x. contains_key x ex.workflow.jobs ≡ true) d.depends_on
expand_foreach-DepsKnown json over wf ex known e p d f =
    let (new, s, all) =
      expand_foreach_ind json over (Covered wf.jobs) (step-Covered wf.jobs) wf ex
        (record {
          covered = λ q a b c. cc;
          children = λ q cs h. cc;
          deps = λ q j h. cc;
          later = known;
        })
        e in
    let x = all.at p d f in
    let now : (c : String) → contains_key c new ≡ true → contains_key c ex.workflow.jobs ≡ true =
      λ c h. all.same_keys c ∙ h in
    subst (λ (j : JobDefinition). All (λ c. contains_key c ex.workflow.jobs ≡ true) j.depends_on)
      (sym x.same)
      (rewritten-Known (λ c. contains_key c ex.workflow.jobs ≡ true) ex.foreach_map
        (λ q cs h.
          All-map (λ c. contains_key c new ≡ true) (λ c. contains_key c ex.workflow.jobs ≡ true) cs
            now (s.children q cs h))
        p x.old.input_from x.old.depends_on x.deps
        (All-map (λ c. contains_key c wf.jobs ≡ true)
          (λ c. lookup c ex.foreach_map ≡ none → contains_key c ex.workflow.jobs ≡ true)
          x.old.depends_on (λ c h m. now c (s.covered c h (missing c ex.foreach_map m) refl))
          (s.deps p x.old x.found))
        x.by)
  where
    missing : (c : String) (m : Map (List String)) → lookup c m ≡ none → contains_key c m ≡ false
    missing c m h = elim (Bool-cases (contains_key c m)) [
      | inl t ↦ let (v, f) = lookup-of_key c m t in cc
      | inr t ↦ t
    ]

-- No static foreach: nothing to expand.
insert-fresh {ℓ} :
    {V : Type ℓ} (id : String) (v : V) (m : Map V)
    → count id (keys m) ≡ 0
    → insert id v m ≡ m ++ (id, v) ∷ []
insert-fresh id v [] h = refl
insert-fresh id v ((j, w) ∷ m) h = elim (Bool-cases (j == id)) [
  | inl e ↦ absurd (ground arith)
  | inr e ↦ rw (e, insert-fresh id v m (ground arith))
]

keys-append {ℓ} :
    {V : Type ℓ} (k : String) (m n : Map V)
    → count k (keys (m ++ n)) ≡ count k (keys m) + count k (keys n)
keys-append k [] n = omega arith
keys-append k ((j, w) ∷ m) n = omega (arith, keys-append k m n)

expand_job-copies :
    (json : Json) (over : Option String) (id : String) (def : JobDefinition)
    (jobs : Map JobDefinition) (groups : Map (List String)) (path : Option String)
    → def.foreach ≡ path
    → NotStatic def
    → expand_job json over id def path jobs groups ≡ ok (insert id def jobs, groups)
unfolding expand_job
expand_job-copies json over id def jobs groups none e n = refl
expand_job-copies json over id def jobs groups (some path) e (inl none_found) = cc
expand_job-copies json over id def jobs groups (some path) e (inr dynamic) = rw dynamic

expand_jobs-copies :
    (json : Json) (over : Option String) (todo jobs : Map JobDefinition)
    → IsMap (jobs ++ todo)
    → All (λ e. NotStatic e.1) todo
    → expand_jobs json over todo jobs [] ≡ ok (jobs ++ todo, [])
unfolding expand_jobs
expand_jobs-copies json over [] jobs m a = rw append-nil
expand_jobs-copies json over ((id, def) ∷ todo) jobs m a =
    rw (expand_job-copies json over id def jobs [] def.foreach refl a.0) (
      rw
        (insert-fresh id def jobs
          (ground (arith, m id, keys-append id jobs ((id, def) ∷ todo), eq_iff id id)))
        (expand_jobs-copies json over todo (jobs ++ (id, def) ∷ []) (rw append_assoc m) a.1
          ∙ ap (λ j. ok (j, [])) (append_assoc jobs ((id, def) ∷ []) todo)))

rewrite_deps-nil : (ds : List String) → rewrite_deps [] ds ≡ ds
unfolding rewrite_deps
rewrite_deps-nil [] = refl
rewrite_deps-nil (d ∷ ds) = ap (λ r. d ∷ r) (rewrite_deps-nil ds)

abbrev pub has_fan_in : Map JobDefinition → Bool
has_fan_in jobs = any (λ e. is_some e.1.input_from) jobs

rewrite_job-nil :
    (id : String) (def : JobDefinition) (src : Option String)
    → def.input_from ≡ src
    → rewrite_job [] id def ≡ elim src [ none ↦ ok def | some s ↦ err (source_not_foreach id s) ]
unfolding rewrite_job
rewrite_job-nil id def none e = rw (e, rewrite_fan_in, rewrite_deps-nil) refl
rewrite_job-nil id def (some s) e = rw (e, rewrite_fan_in) refl

rewrite_jobs-clone :
    (jobs : Map JobDefinition) → has_fan_in jobs ≡ false → rewrite_jobs [] jobs ≡ ok jobs
unfolding rewrite_jobs
rewrite_jobs-clone [] h = refl
rewrite_jobs-clone ((id, def) ∷ jobs) h = elim (Option-cases def.input_from) [
  | inl e ↦ rw (rewrite_job-nil id def none e) (rw (rewrite_jobs-clone jobs (rw e at h)) refl)
  | inr (s, e) ↦ absurd (ground arith)
]

rewrite_jobs-refuses :
    (jobs : Map JobDefinition)
    → has_fan_in jobs ≡ true
    → (job : String) × (src : String) × (rewrite_jobs [] jobs ≡ err (source_not_foreach job src))
unfolding rewrite_jobs
rewrite_jobs-refuses [] h = cc
rewrite_jobs-refuses ((id, def) ∷ jobs) h = elim (Option-cases def.input_from) [
  | inl e ↦
      let (job, src, refused) = rewrite_jobs-refuses jobs (rw e at h) in
      (job, src, rw (rewrite_job-nil id def none e) (rw refused refl))
  | inr (s, e) ↦ (id, s, rw (rewrite_job-nil id def (some s) e) refl)
]

-- A workflow with distinct job names and no static foreach job is expanded to itself if no job has an `input_from`. If
-- some job has one, also one that names a dynamic foreach job, the workflow is refused.
pub expand_foreach-of_no_static :
    (json : Json) (over : Option String) (wf : Workflow)
    → IsMap wf.jobs
    → All (λ e. NotStatic e.1) wf.jobs
    → (has_fan_in wf.jobs ≡ false
        → expand_foreach json wf over ≡ ok (record { workflow = wf; foreach_map = [] }))
      × (has_fan_in wf.jobs ≡ true
          → (job : String) × (src : String) × (expand_foreach json wf over
              ≡ err (source_not_foreach job src)))
unfolding expand_foreach
expand_foreach-of_no_static json over wf m a = (
  λ h. rw (expand_jobs-copies json over wf.jobs [] m a) (rw (rewrite_jobs-clone wf.jobs h) refl),
  λ h.
      let (job, src, refused) = rewrite_jobs-refuses wf.jobs h in
      (job, src, rw (expand_jobs-copies json over wf.jobs [] m a) (rw refused refl)),
)
