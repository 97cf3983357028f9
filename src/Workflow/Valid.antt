-- ===== src/Workflow/Valid.antt =====
-- What Workflow::validate accepts.
use fluxion.Prelude.{
  String, List, [], ◌∷◌, ◌++◌, Map, Option, none, some, true, contains_key, lookup, All, ◌≡◌, ◌≢◌,
  ◌↔◌, inl, inr, refl, arith, Bool-cases, Option-cases,
}
use fluxion.Outcome.{ok, Ensures, Ensures-bind, Ensures-any}
use fluxion.Workflow.Types.{JobDefinition, Workflow, ReduceMode}
use fluxion.Workflow.Cycle.{has_cycle}
use fluxion.Workflow.Acyclic.{HasCycle}
use fluxion.Workflow.Decides.{has_cycle_decides}
use fluxion.Workflow.Validate.{
  ValidationError, ValidationReport, cyclic_dependency, is_ok, dependency_errors, input_from_errors,
  reduce_errors, job_errors, all_errors, validate,
}

-- The source of a fan-in is a job with `foreach`.
abbrev pub IsSource : Map JobDefinition → Option String → Type 0
IsSource jobs none = Unit
IsSource jobs (some src) =
    (def : JobDefinition) × (lookup src jobs ≡ some def) × (def.foreach ≢ none)

pub record IsJobOk (jobs : Map JobDefinition) (def : JobDefinition) : Type 0 where
  pub known : All (λ d. contains_key d jobs ≡ true) def.depends_on
  pub source : IsSource jobs def.input_from
  pub reduces : def.input_from ≡ none → def.reduce ≡ none

pub record IsWellFormed (wf : Workflow) : Type 0 where
  pub each : All (λ e. IsJobOk wf.jobs e.1) wf.jobs
  pub acyclic : ¬ HasCycle wf.jobs

pub append-eq-nil {ℓ} : {A : Type ℓ} (xs ys : List A) → xs ++ ys ≡ [] → (xs ≡ []) × (ys ≡ [])
append-eq-nil [] ys h = (refl, h)
append-eq-nil (x ∷ xs) ys h = cc

dependency_errors_iff :
    (jobs : Map JobDefinition) (id : String) (ds : List String)
    → (dependency_errors jobs id ds ≡ []) ↔ All (λ d. contains_key d jobs ≡ true) ds
dependency_errors_iff jobs id [] = (λ _. tt, λ _. refl)
dependency_errors_iff jobs id (d ∷ ds) = elim (Bool-cases (contains_key d jobs)) [
  | inl e ↦ (
    λ h. (e, (dependency_errors_iff jobs id ds).0 (rw e at h)),
    λ a. rw e ((dependency_errors_iff jobs id ds).1 a.1),
  )
  | inr e ↦ (λ h. ground arith, λ a. ground arith)
]

input_from_errors_iff :
    (jobs : Map JobDefinition) (id : String) (src : Option String)
    → (input_from_errors jobs id src ≡ []) ↔ IsSource jobs src
input_from_errors_iff jobs id none = (λ _. tt, λ _. refl)
input_from_errors_iff jobs id (some src) = elim (Option-cases (lookup src jobs)) [
  | inl e ↦ (λ h. ground arith, λ (def, f, n). ground arith)
  | inr (def, e) ↦ (
    λ h. (def, e, λ p. ground arith),
    λ (d, f, n). elim (Option-cases d.foreach) [ inl p ↦ absurd (n p) | inr (p, q) ↦ ground arith ],
  )
]

reduce_errors_iff :
    (id : String) (mode : Option ReduceMode) (src : Option String)
    → (reduce_errors id mode src ≡ []) ↔ (src ≡ none → mode ≡ none)
reduce_errors_iff id none src = (λ _ _. refl, λ _. refl)
reduce_errors_iff id (some m) none = (λ h. cc, λ h. cc (h refl))
reduce_errors_iff id (some m) (some s) = (λ _ e. cc, λ _. refl)

job_errors_iff :
    (jobs : Map JobDefinition) (id : String) (def : JobDefinition)
    → (job_errors jobs id def ≡ []) ↔ IsJobOk jobs def
job_errors_iff jobs id def = (
  to,
  λ k. rw ((dependency_errors_iff jobs id def.depends_on).1 k.known) (
      rw ((input_from_errors_iff jobs id def.input_from).1 k.source)
        ((reduce_errors_iff id def.reduce def.input_from).1 k.reduces)),
)
  where
    to : job_errors jobs id def ≡ [] → IsJobOk jobs def
    to h =
        let (a, bc) = append-eq-nil (dependency_errors jobs id def.depends_on) _ h in
        let (b, c) = append-eq-nil (input_from_errors jobs id def.input_from) _ bc in
        record {
          known = (dependency_errors_iff jobs id def.depends_on).0 a;
          source = (input_from_errors_iff jobs id def.input_from).0 b;
          reduces = (reduce_errors_iff id def.reduce def.input_from).0 c;
        }

all_errors_iff :
    (jobs todo : Map JobDefinition) → (all_errors jobs todo ≡ []) ↔ All (λ e. IsJobOk jobs e.1) todo
all_errors_iff jobs [] = (λ _. tt, λ _. refl)
all_errors_iff jobs ((id, def) ∷ todo) = (
  λ h.
      let (a, b) = append-eq-nil (job_errors jobs id def) _ h in
      ((job_errors_iff jobs id def).0 a, (all_errors_iff jobs todo).0 b),
  λ k. rw ((job_errors_iff jobs id def).1 k.0) ((all_errors_iff jobs todo).1 k.1),
)

not_clean : (es : List ValidationError) → es ++ cyclic_dependency ∷ [] ≢ []
not_clean [] h = cc
not_clean (e ∷ es) h = cc

abbrev report : List ValidationError → ValidationReport
report es = record { errors = es; warnings = [] }

pub is_ok_iff : (r : ValidationReport) → (is_ok r ≡ true) ↔ (r.errors ≡ [])
is_ok_iff r = ground arith

-- Validation always returns a report, and the report is without errors exactly when every job's
-- dependencies are jobs, its `input_from` is a job with `foreach`, a `reduce` comes with an
-- `input_from`, and no job depends on itself, at once or through others.
pub validate_iff :
    (wf : Workflow)
    → (r : ValidationReport) × (validate wf ≡ ok r) × ((is_ok r ≡ true) ↔ IsWellFormed wf)
unfolding validate
validate_iff wf = elim (has_cycle_decides wf.jobs) [
  | inl (e, cycle) ↦ (
    report (all_errors wf.jobs wf.jobs ++ cyclic_dependency ∷ []),
    rw e,
    (
      λ h. absurd (
          not_clean (all_errors wf.jobs wf.jobs)
            ((is_ok_iff (report (all_errors wf.jobs wf.jobs ++ cyclic_dependency ∷ []))).0 h)),
      λ w. absurd (w.acyclic cycle),
    ),
  )
  | inr (e, none_found) ↦ (
    report (all_errors wf.jobs wf.jobs ++ []),
    rw e,
    (
      λ h. record {
        each =
            (all_errors_iff wf.jobs wf.jobs).0
              (append-eq-nil (all_errors wf.jobs wf.jobs) []
                ((is_ok_iff (report (all_errors wf.jobs wf.jobs ++ []))).0 h)).0;
        acyclic = none_found;
      },
      λ w.
          (is_ok_iff (report (all_errors wf.jobs wf.jobs ++ []))).1
            (rw ((all_errors_iff wf.jobs wf.jobs).1 w.each) refl),
    ),
  )
]

pub validate-warnings : (wf : Workflow) → Ensures (λ r. r.warnings ≡ []) (validate wf)
unfolding validate
validate-warnings wf =
    Ensures-bind (λ b. Unit) (λ r. r.warnings ≡ []) (has_cycle wf.jobs) _
      (Ensures-any (has_cycle wf.jobs)) (λ b u. refl)
