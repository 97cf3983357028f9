-- ===== src/Expand/Correct.antt =====
-- What expand_foreach guarantees of the workflow that it returns.
use fluxion.Prelude.{
  ◌<◌, String, List, [], ◌∷◌, Map, Option, none, some, true, false, lookup, insert, keys, count,
  contains_key, IsMap, if◌then◌else◌, ◌≡◌, ◌⊎◌, inl, inr, sym, ap, ◌∙◌, subst, arith, eq_iff,
  String-cases, lookup-insert, contains_key-insert,
}
use fluxion.Outcome.{ok, Ensures-bind, Ensures-value}
use fluxion.Workflow.Types.{JobDefinition, Workflow}
use fluxion.Expand.Defs.{
  Json, ExpandedWorkflow, is_dynamic_foreach, expand_jobs, rewrite_jobs, expand_foreach,
}
use fluxion.Expand.Steps.{JobStep, copied, fanned, expand_jobs_ind}
use fluxion.Expand.Rewrite.{AllRewritten, rewrite_jobs-AllRewritten}

-- A property of both loops gives one of the result.
module _ (json : Json) (over : Option String)
    (P : Map JobDefinition → Map JobDefinition → Map (List String) → Type 0)
    (step : (id : String) (def : JobDefinition) (todo jobs : Map JobDefinition)
        (groups : Map (List String)) (r : Map JobDefinition × Map (List String))
      → P ((id, def) ∷ todo) jobs groups
      → JobStep id def jobs groups r
      → P todo r.0 r.1) where
  pub expand_foreach_ind :
      (wf : Workflow) (ex : ExpandedWorkflow)
      → P wf.jobs [] []
      → expand_foreach json wf over ≡ ok ex
      → (new : Map JobDefinition) × P [] new ex.foreach_map
        × AllRewritten ex.foreach_map new ex.workflow.jobs
  unfolding expand_foreach
  expand_foreach_ind wf ex p e =
      Ensures-value
        (λ (x : ExpandedWorkflow).
          (new : Map JobDefinition) × P [] new x.foreach_map
          × AllRewritten x.foreach_map new x.workflow.jobs)
        _ ex
        (Ensures-bind (λ r. P [] r.0 r.1) _ (expand_jobs json over wf.jobs [] []) _
          (expand_jobs_ind json over P step wf.jobs [] [] p)
          λ r q.
            Ensures-bind (AllRewritten r.1 r.0) _ (rewrite_jobs r.1 r.0) _
              (rewrite_jobs-AllRewritten r.1 r.0) λ jobs a. (r.0, q, a))
        e

-- A copied job, seen by a lookup.
pub lookup-copied :
    (id p : String) (def d : JobDefinition) (jobs : Map JobDefinition)
    → lookup p (insert id def jobs) ≡ some d
    → ((id ≡ p) × (def ≡ d)) ⊎ (lookup p jobs ≡ some d)
lookup-copied id p def d jobs h = elim (String-cases id p) [
  | inl (e, t) ↦
      inl
        (e, cc (h, lookup-insert id p def jobs, ap (λ b. if b then some def else lookup p jobs) t))
  | inr (n, t) ↦
      inr (cc (h, lookup-insert id p def jobs, ap (λ b. if b then some def else lookup p jobs) t))
]

abbrev pub NotStatic : JobDefinition → Type 0
NotStatic d = (d.foreach ≡ none) ⊎ (is_dynamic_foreach d ≡ true)

abbrev NoStatic : Map JobDefinition → Map JobDefinition → Map (List String) → Type 0
NoStatic todo jobs groups = (p : String) (d : JobDefinition) → lookup p jobs ≡ some d → NotStatic d

step-NoStatic :
    (id : String) (def : JobDefinition) (todo jobs : Map JobDefinition) (groups : Map (List String))
    (r : Map JobDefinition × Map (List String))
    → NoStatic ((id, def) ∷ todo) jobs groups
    → JobStep id def jobs groups r
    → NoStatic todo r.0 r.1
step-NoStatic id def todo jobs groups r h (copied c e) p d f =
    elim (lookup-copied id p def d jobs (rw e at f)) [
      | inl (_, same) ↦ subst NotStatic same c
      | inr old ↦ h p d old
    ]
step-NoStatic id def todo jobs groups r h (fanned s n ids g e) p d f = elim (g.old_or_child p d f) [
  | inl old ↦ h p d old
  | inr child ↦ inl child.foreach
]

-- Expansion leaves no job with `foreach` and a static input: what is left with `foreach` is
-- dynamic.
pub expand_foreach-NotStatic :
    (json : Json) (over : Option String) (wf : Workflow) (ex : ExpandedWorkflow)
    → expand_foreach json wf over ≡ ok ex
    → (p : String) (d : JobDefinition) → lookup p ex.workflow.jobs ≡ some d
    → NotStatic d
expand_foreach-NotStatic json over wf ex e p d f =
    let (new, no_static, all) =
      expand_foreach_ind json over NoStatic step-NoStatic wf ex (λ p d h. cc) e in
    let x = all.at p d f in subst NotStatic (sym x.same) (no_static p x.old x.found)

-- A group's name is no job to do any more; a job of that name, and one that is still to do, that
-- is in the map already is somebody's child.
record Slow (todo jobs : Map JobDefinition) (groups : Map (List String)) : Type 0 where
  once : IsMap todo
  past : (p : String) → contains_key p groups ≡ true → count p (keys todo) ≡ 0
  grouped :
      (p : String) (d : JobDefinition)
      → contains_key p groups ≡ true
      → lookup p jobs ≡ some d
      → d.fail_fast ≡ false
  coming :
      (p : String) (d : JobDefinition)
      → 0 < count p (keys todo)
      → lookup p jobs ≡ some d
      → d.fail_fast ≡ false

step-Slow :
    (id : String) (def : JobDefinition) (todo jobs : Map JobDefinition) (groups : Map (List String))
    (r : Map JobDefinition × Map (List String))
    → Slow ((id, def) ∷ todo) jobs groups
    → JobStep id def jobs groups r
    → Slow todo r.0 r.1
step-Slow id def todo jobs groups r s (copied c e) = record {
  once = λ k. ground (arith, s.once k);
  past = λ p h. ground (arith, s.past p (rw e at h));
  grouped = λ p d h f. elim (lookup-copied id p def d jobs (rw e at f)) [
    | inl (i, same) ↦ absurd (ground (arith, s.past p (rw e at h), eq_iff id p))
    | inr old ↦ s.grouped p d (rw e at h) old
  ];
  coming = λ p d h f. elim (lookup-copied id p def d jobs (rw e at f)) [
    | inl (i, same) ↦ absurd (ground (arith, s.once p, eq_iff id p))
    | inr old ↦ s.coming p d (ground arith) old
  ];
}
step-Slow id def todo jobs groups r s (fanned t n ids g e) = record {
  once = λ k. ground (arith, s.once k);
  past = λ p h. ground (
    arith,
    s.once p,
    s.past p,
    contains_key-insert id p ids groups,
    ap (λ (m : Map (List String)). contains_key p m) e,
    eq_iff id p,
  );
  grouped = λ p d h f. elim (g.old_or_child p d f) [
    | inl old ↦ ground (
      arith,
      s.grouped p d,
      s.coming p d,
      contains_key-insert id p ids groups,
      ap (λ (m : Map (List String)). contains_key p m) e,
      eq_iff id p,
    )
    | inr child ↦ child.fail_fast
  ];
  coming = λ p d h f. elim (g.old_or_child p d f) [
    | inl old ↦ s.coming p d (ground arith) old
    | inr child ↦ child.fail_fast
  ];
}

-- In a workflow expanded from one with distinct job names, a job that has the name of an expanded foreach job, if there is one,
-- never fails fast: the setting of the foreach job is lost.
pub expand_foreach-not_fail_fast :
    (json : Json) (over : Option String) (wf : Workflow) (ex : ExpandedWorkflow)
    → IsMap wf.jobs
    → expand_foreach json wf over ≡ ok ex
    → (parent : String) (d : JobDefinition) → contains_key parent ex.foreach_map ≡ true
    → lookup parent ex.workflow.jobs ≡ some d
    → d.fail_fast ≡ false
expand_foreach-not_fail_fast json over wf ex m e parent d h f =
    let (new, s, all) =
      expand_foreach_ind json over Slow step-Slow wf ex
        (record { once = m; past = λ p h. cc; grouped = λ p d h f. cc; coming = λ p d h f. cc })
        e in
    let x = all.at parent d f in
    ap (λ (j : JobDefinition). j.fail_fast) x.same ∙ s.grouped parent x.old h x.found
