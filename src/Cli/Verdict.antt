-- ===== src/Cli/Verdict.antt =====
-- Which workflows the command validate accepts.
use fluxion.Prelude.{
  String, Option, none, some, List, [], ◌∷◌, Map, Bool, true, false, length, All, ◌⊎◌, inl, inr,
  ◌≡◌, ◌↔◌, refl, sym, ap, subst, ◌∙◌, arith, Bool-cases,
}
use fluxion.Outcome.{ok, Ensures-value, ◌>>=◌}
use fluxion.Workflow.Types.{JobDefinition, Workflow}
use fluxion.Workflow.Validate.{
  ◌<>◌, ValidationError, ValidationWarning, ValidationReport, validate, check_component_paths,
  path_errors,
}
use fluxion.Workflow.Valid.{IsWellFormed, append-eq-nil, is_ok_iff, validate_iff, validate-warnings}
use fluxion.Cli.Validate.{
  JsonReport, JobKeys, Exit, check_yaml_warnings, job_warnings, full_report, code_of, reported,
  refused, validate_parsed, validate_read, cmd_validate,
}

path_errors_iff :
    (exists : String → Bool) (jobs : Map JobDefinition)
    → (path_errors exists jobs ≡ []) ↔ All (λ e. exists e.1.component ≡ true) jobs
unfolding path_errors
path_errors_iff exists [] = (λ _. tt, λ _. refl)
path_errors_iff exists ((id, def) ∷ jobs) = elim (Bool-cases (exists def.component)) [
  | inl e ↦ (
    λ h. (e, (path_errors_iff exists jobs).0 (rw e at h)),
    λ a. rw e ((path_errors_iff exists jobs).1 a.1),
  )
  | inr e ↦ (λ h. ground arith, λ a. ground arith)
]

-- The exit code is 0 without errors and, if warnings count, without warnings.
fails_iff :
    (strict : Bool) (errors : List ValidationError) (warnings : List ValidationWarning)
    → (code_of strict (record { errors = errors; warnings = warnings }) ≡ 0)
      ↔ ((errors ≡ []) × (strict ≡ true → warnings ≡ []))
fails_iff strict [] [] = ground arith
fails_iff strict [] (w ∷ warnings) = ground arith
fails_iff strict (e ∷ errors) warnings = ground arith

-- No entry of the mapping `jobs` has `limits`; a document without that mapping has none.
abbrev pub HaveNoLimits : Option (List JobKeys) → Type 0
HaveNoLimits none = Unit
HaveNoLimits (some jobs) = All (λ (j : JobKeys). j.1 ≡ false) jobs

job_warnings_iff :
    (jobs : List JobKeys) → (job_warnings jobs ≡ []) ↔ All (λ (j : JobKeys). j.1 ≡ false) jobs
job_warnings_iff [] = (λ _. tt, λ _. refl)
job_warnings_iff ((name, has_limits) ∷ jobs) = elim (Bool-cases has_limits) [
  | inl e ↦ (λ h. ground arith, λ a. ground arith)
  | inr e ↦
      (λ h. (e, (job_warnings_iff jobs).0 (rw e at h)), λ a. rw e ((job_warnings_iff jobs).1 a.1))
]

check_yaml_warnings_iff :
    (yaml_jobs : String → Option (List JobKeys)) (src : String)
    → (check_yaml_warnings yaml_jobs src ≡ []) ↔ HaveNoLimits (yaml_jobs src)
unfolding check_yaml_warnings
check_yaml_warnings_iff yaml_jobs src =
    elim (yaml_jobs src)
      as (λ o. (elim o [ none ↦ [] | some jobs ↦ job_warnings jobs ] ≡ []) ↔ HaveNoLimits o) [
        | none ↦ (λ _. tt, λ _. refl)
        | some jobs ↦ job_warnings_iff jobs
      ]

-- Read, parsed and well formed, with the components in place unless they are not asked for, and
-- without `limits` at the top level of a job if warnings count.
abbrev pub Accepted :
    (String → String ⊎ String)
    → (String → String ⊎ Workflow)
    → (String → Option (List JobKeys))
    → (String → Bool)
    → String
    → Bool
    → Bool
    → Type 0
Accepted read from_str yaml_jobs exists path skip_wasm_check strict =
    (src : String) × (wf : Workflow) × (read path ≡ inr src)
    × (from_str src ≡ inr wf)
    × IsWellFormed wf
    × (skip_wasm_check ≡ false → All (λ e. exists e.1.component ≡ true) wf.jobs)
    × (strict ≡ true → HaveNoLimits (yaml_jobs src))

-- The command returns whatever the file is; its exit code is 0 exactly when the file is read and
-- parsed, the workflow is well formed, the file of each component exists unless that is skipped,
-- and, if warnings are errors, no job has `limits` at its top level.
pub cmd_validate_iff :
    (yaml_jobs : String → Option (List JobKeys)) (exists : String → Bool)
    (to_string : JsonReport → String) (from_str : String → String ⊎ Workflow)
    (read : String → String ⊎ String) (path : String) (json skip_wasm_check strict : Bool)
    → (e : Exit) × (cmd_validate yaml_jobs exists to_string from_str read path json skip_wasm_check
          strict
        ≡ ok e)
      × ((e.code ≡ 0) ↔ Accepted read from_str yaml_jobs exists path skip_wasm_check strict)
unfolding cmd_validate full_report check_component_paths
cmd_validate_iff yaml_jobs exists to_string from_str read path json skip_wasm_check strict =
    by_read (read path) refl
  where
    Goal : String ⊎ String → Type 0
    Goal source =
        (e : Exit) × (validate_read yaml_jobs exists to_string from_str path json skip_wasm_check
            strict source
          ≡ ok e)
        × ((e.code ≡ 0) ↔ Accepted read from_str yaml_jobs exists path skip_wasm_check strict)

    refused-code : (message : String) → (refused to_string json message).code ≡ 1
    refused-code message = elim (Bool-cases json) [ inl e ↦ rw e refl | inr e ↦ rw e refl ]

    by_parsed :
        (src : String) (parsed : String ⊎ Workflow)
        → read path ≡ inr src
        → from_str src ≡ parsed
        → (e : Exit) × (validate_parsed yaml_jobs exists to_string json skip_wasm_check strict src
              parsed
            ≡ ok e)
          × ((e.code ≡ 0) ↔ Accepted read from_str yaml_jobs exists path skip_wasm_check strict)
    by_parsed src (inl why) r f = (
      refused to_string json ("YAML parse error: " <> why),
      refl,
      (
        λ h. absurd (omega (arith, refused-code ("YAML parse error: " <> why))),
        λ (src', wf', r', f', _, _, _).
            let same : src ≡ src' = cc in
            let no : inl why ≡ inr wf' = sym f ∙ (ap from_str same ∙ f') in absurd (cc no),
      ),
    )
    by_parsed src (inr wf) r f =
        let (report, v, valid) = validate_iff wf in
        let quiet : report.warnings ≡ [] =
          Ensures-value (λ (r : ValidationReport). r.warnings ≡ []) (validate wf) report
            (validate-warnings wf) v in
        let full = full_report yaml_jobs exists skip_wasm_check src wf report in
        let zero = fails_iff strict full.errors full.warnings in
        let paths = path_errors_iff exists wf.jobs in
        (
          reported to_string json skip_wasm_check strict (length wf.jobs) full,
          ap
              (λ o. o >>= λ r. ok (
                reported to_string json skip_wasm_check strict (length wf.jobs)
                  (full_report yaml_jobs exists skip_wasm_check src wf r)))
              v,
          (
            λ h.
                let (clean, silent) = zero.0 h in
                let (es, ps) = append-eq-nil report.errors _ clean in
                (
                  src,
                  wf,
                  r,
                  f,
                  valid.0 ((is_ok_iff report).1 es),
                  λ k. paths.0 (rw k at ps),
                  λ k.
                      (check_yaml_warnings_iff yaml_jobs src).0
                        (append-eq-nil report.warnings _ (silent k)).1,
                ),
            λ (src', wf', r', f', well, there, silent).
                let s : src' ≡ src = cc in
                let t : inr wf' ≡ inr wf = sym f' ∙ (ap from_str s ∙ f) in
                let w : wf' ≡ wf = cc in
                let es = (is_ok_iff report).0 (valid.1 (subst IsWellFormed w well)) in
                let here =
                  subst
                    (λ x. skip_wasm_check ≡ false → All (λ e. exists e.1.component ≡ true) x.jobs) w
                    there in
                zero.1 (
                  rw es (elim (Bool-cases skip_wasm_check) [
                    | inl k ↦ rw k refl
                    | inr k ↦ rw k (paths.1 (here k))
                  ]),
                  λ k. rw quiet (
                      (check_yaml_warnings_iff yaml_jobs src).1
                        (subst (λ t. HaveNoLimits (yaml_jobs t)) s (silent k))),
                ),
          ),
        )

    by_read : (source : String ⊎ String) → read path ≡ source → Goal source
    by_read (inl why) r = (
      refused to_string json ("Cannot read '" <> path <> "': " <> why),
      refl,
      (
        λ h. absurd (omega (arith, refused-code ("Cannot read '" <> path <> "': " <> why))),
        λ (src', wf', r', _, _, _, _). let no : inl why ≡ inr src' = sym r ∙ r' in absurd (cc no),
      ),
    )
    by_read (inr src) r = by_parsed src (from_str src) r refl
