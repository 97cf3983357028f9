-- ===== src/Cli/Validate.antt =====
-- cmd_validate of crates/fluxion-cli/src/main.rs and check_yaml_warnings of
-- crates/fluxion-core/src/workflow.rs. Files and the YAML and JSON libraries are parameters: a YAML
-- document is seen as far as its jobs are read.
use fluxion.Prelude.{
  ℕ, String, List, [], ◌∷◌, ◌++◌, Option, none, some, Bool, true, false, not, ◌&&◌, ◌||◌, any, keep,
  leb, ltb, length, map, decimal, ◌⊎◌, inl, inr, if◌then◌else◌,
}
use fluxion.Outcome.{Outcome, ok, ◌>>=◌}
use fluxion.Workflow.Types.{Workflow}
use fluxion.Workflow.Validate.{
  ◌<>◌, ValidationError, cyclic_dependency, component_not_found, ValidationWarning,
  limits_at_top_level, ValidationReport, is_ok, describe, describe_warning, validate,
  check_component_paths,
}
use fluxion.Expand.Defs.{get_or_else}

-- An entry of the mapping `jobs` of a document: its key if that is a text, and whether it has `limits`.
abbrev pub JobKeys : Type 0
JobKeys = Option String × Bool

abbrev pub job_warnings : List JobKeys → List ValidationWarning
job_warnings [] = []
job_warnings ((name, has_limits) ∷ jobs) =
    let rest = job_warnings jobs in
    if has_limits then limits_at_top_level (get_or_else "?" name) ∷ rest else rest

-- A line on standard output or on standard error.
pub data Line : Type 0 where
  out error : (text : String) → Line

-- The object that is printed with --json.
pub record JsonReport : Type 0 where
  pub ok : Bool
  pub errors : List String
  pub warnings : List String

abbrev pub is_cyclic : ValidationError → Bool
is_cyclic cyclic_dependency = true
is_cyclic _ = false

abbrev pub is_missing : ValidationError → Bool
is_missing (component_not_found job path) = true
is_missing _ = false

-- What was printed, and the exit code of the process.
pub record Exit : Type 0 where
  pub lines : List Line
  pub code : ℕ

unfoldable pub verdict : Bool → ValidationReport → String
unfolding decimal
verdict strict r =
    let error_count = length r.errors in
    let warn_count = length r.warnings in
    if leb error_count 0 && leb warn_count 0
    then "Validation passed"
    else if leb error_count 0 && not strict
    then "Validation passed (" <> decimal warn_count <> " warning(s))"
    else "Validation failed ("
      <> decimal error_count
      <> " error(s), "
      <> decimal warn_count
      <> " warning(s))"

unfoldable pub path_lines : Bool → ℕ → List ValidationError → List Line
unfolding decimal describe
path_lines skip_wasm_check job_count [] =
    if skip_wasm_check
    then []
    else out ("✓ Components: all " <> decimal job_count <> " paths exist") ∷ []
path_lines skip_wasm_check job_count (m ∷ missing) =
    map (λ e. error ("✗ component not found: " <> describe e)) (m ∷ missing)

unfoldable pub text_lines : Bool → Bool → ℕ → ValidationReport → List Line
unfolding decimal describe describe_warning
text_lines skip_wasm_check strict job_count r =
    (if any is_cyclic r.errors
      then error ("✗ DAG: circular dependency detected (" <> decimal job_count <> " jobs)")
      else out ("✓ DAG: no cycles (" <> decimal job_count <> " jobs)"))
    ∷ (path_lines skip_wasm_check job_count (keep is_missing r.errors)
        ++ (map (λ e. error ("✗ " <> describe e))
              (keep (λ e. not (is_cyclic e || is_missing e)) r.errors)
            ++ (map (λ w. error ("⚠ " <> describe_warning w)) r.warnings
                ++ (if leb (length r.errors) 0 && (leb (length r.warnings) 0 || not strict)
                    then out (verdict strict r)
                    else error (verdict strict r))
                  ∷ [])))

unfoldable pub json_report : Bool → ValidationReport → JsonReport
unfolding describe describe_warning
json_report strict r = record {
  ok = is_ok r && not (strict && ltb 0 (length r.warnings));
  errors = map describe r.errors;
  warnings = map describe_warning r.warnings;
}

abbrev pub fails : Bool → ValidationReport → Bool
fails strict r = not (is_ok r) || (strict && ltb 0 (length r.warnings))

abbrev pub code_of : Bool → ValidationReport → ℕ
code_of strict r = if fails strict r then 1 else 0

module _ (to_string : JsonReport → String) where
  -- The command ends with 1 before the validation.
  abbrev pub refused : Bool → String → Exit
  refused true message = record {
    lines = error (to_string (record { ok = false; errors = message ∷ []; warnings = [] })) ∷ [];
    code = 1;
  }
  refused false message = record { lines = error ("✗ " <> message) ∷ []; code = 1 }

  abbrev pub reported : Bool → Bool → Bool → ℕ → ValidationReport → Exit
  reported json skip_wasm_check strict job_count r = record {
    lines =
        if json
        then out (to_string (json_report strict r)) ∷ []
        else out "✓ YAML syntax OK" ∷ text_lines skip_wasm_check strict job_count r;
    code = code_of strict r;
  }

-- `yaml_jobs` is the mapping `jobs` of a document that is YAML and has one.
module _ (yaml_jobs : String → Option (List JobKeys)) where
  unfoldable pub check_yaml_warnings : String → List ValidationWarning
  check_yaml_warnings src = elim (yaml_jobs src) [ none ↦ [] | some jobs ↦ job_warnings jobs ]

  module _ (exists : String → Bool) where
    -- The report that the command goes by.
    unfoldable pub full_report : Bool → String → Workflow → ValidationReport → ValidationReport
    unfolding check_yaml_warnings check_component_paths
    full_report skip_wasm_check src wf report = record {
      errors =
          report.errors
          ++ (if skip_wasm_check then [] else (check_component_paths exists wf).errors);
      warnings = report.warnings ++ check_yaml_warnings src;
    }

    module _ (to_string : JsonReport → String) where
      abbrev pub validate_parsed : Bool → Bool → Bool → String → String ⊎ Workflow → Outcome ⊥ Exit
      validate_parsed json skip_wasm_check strict src (inl e) =
          ok (refused to_string json ("YAML parse error: " <> e))
      validate_parsed json skip_wasm_check strict src (inr wf) = do
        report ← validate wf
        ok (
            reported to_string json skip_wasm_check strict (length wf.jobs)
              (full_report skip_wasm_check src wf report))

      -- `read` gives why there is no text of the file, or the text; `from_str` why there is no
      -- workflow, or the workflow.
      module _ (from_str : String → String ⊎ Workflow) where
        abbrev pub validate_read : String → Bool → Bool → Bool → String ⊎ String → Outcome ⊥ Exit
        validate_read path json skip_wasm_check strict (inl e) =
            ok (refused to_string json ("Cannot read '" <> path <> "': " <> e))
        validate_read path json skip_wasm_check strict (inr src) =
            validate_parsed json skip_wasm_check strict src (from_str src)

        unfoldable pub cmd_validate :
            (String → String ⊎ String) → String → Bool → Bool → Bool → Outcome ⊥ Exit
        unfolding validate
        cmd_validate read path json skip_wasm_check strict =
            validate_read path json skip_wasm_check strict (read path)
