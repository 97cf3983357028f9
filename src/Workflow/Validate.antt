-- ===== src/Workflow/Validate.antt =====
-- The reports of crates/fluxion-core/src/workflow.rs, Workflow::validate, from_file and
-- check_component_paths. The file system and the YAML parser are parameters.
use Prim.Native.String.{◌++◌ as append}
use fluxion.Prelude.{
  String, List, [], ◌∷◌, ◌++◌, Map, Option, none, some, Bool, true, false, length, map, lookup,
  contains_key, if◌then◌else◌, decimal,
}
use fluxion.Outcome.{Outcome, ok, err, ◌>>=◌, ◌>>◌}
use fluxion.Workflow.Types.{JobDefinition, Workflow, ReduceMode}
use fluxion.Workflow.Cycle.{has_cycle}

pub data ValidationError : Type 0 where
  unknown_dependency : (job dep : String) → ValidationError
  unknown_input_from : (job src : String) → ValidationError
  input_from_not_foreach : (job src : String) → ValidationError
  cyclic_dependency : ValidationError
  component_not_found : (job path : String) → ValidationError
  reduce_without_input_from : (job : String) → ValidationError

infixr 60 ◌<>◌
abbrev pub ◌<>◌ : String → String → String
a <> b = append a b

-- fmt of ValidationError
unfoldable pub describe : ValidationError → String
describe (unknown_dependency job dep) = "Job '" <> job <> "' depends on unknown job '" <> dep <> "'"
describe (unknown_input_from job src) =
    "Job '" <> job <> "' has input_from '" <> src <> "' which does not exist"
describe (input_from_not_foreach job src) =
    "Job '" <> job <> "' has input_from '" <> src <> "' but '" <> src <> "' does not have foreach"
describe cyclic_dependency = "Workflow contains a circular dependency"
describe (component_not_found job path) =
    "Job '" <> job <> "': component not found at '" <> path <> "'"
describe (reduce_without_input_from job) = "Job '" <> job <> "': `reduce` requires `input_from`"

-- job "a" has `limits:` at its top level, where it is ignored.
pub data ValidationWarning : Type 0 where
  limits_at_top_level : (job : String) → ValidationWarning

unfoldable pub describe_warning : ValidationWarning → String
describe_warning (limits_at_top_level job) =
    "job \"" <> job <> "\": `limits:` at top level (ignored) — move it under `permissions:`"

pub record ValidationReport : Type 0 where
  pub errors : List ValidationError
  pub warnings : List ValidationWarning

abbrev pub is_ok : ValidationReport → Bool
is_ok r = elim r.errors [ [] ↦ true | _ ↦ false ]

-- msgs.join(sep)
abbrev pub join : String → List String → String
join sep [] = ""
join sep (x ∷ xs) = let rest = join sep xs in elim xs [ [] ↦ x | _ ↦ x <> sep <> rest ]

unfoldable pub into_result : ValidationReport → Outcome String (Unit {0})
unfolding describe
into_result r = elim r.errors [ [] ↦ ok tt | _ ↦ err (join "\n" (map describe r.errors)) ]

abbrev error_lines : List ValidationError → String
error_lines [] = ""
error_lines (e ∷ es) = "  - " <> describe e <> "\n" <> error_lines es

-- fmt of ValidationReport
unfoldable pub describe_report : ValidationReport → String
unfolding describe
describe_report r = elim r.errors [
  | [] ↦ "Validation passed"
  | _ ↦
      "Validation failed (" <> decimal (length r.errors) <> " error(s)):\n" <> error_lines r.errors
]

-- The first loop over a job's dependencies.
abbrev pub dependency_errors : Map JobDefinition → String → List String → List ValidationError
dependency_errors jobs id [] = []
dependency_errors jobs id (dep ∷ deps) =
    let rest = dependency_errors jobs id deps in
    if contains_key dep jobs then rest else unknown_dependency id dep ∷ rest

-- What the lookup of an `input_from` source reports.
abbrev pub source_errors : String → String → Option JobDefinition → List ValidationError
source_errors id src none = unknown_input_from id src ∷ []
source_errors id src (some def) = elim def.foreach [
  | none ↦ input_from_not_foreach id src ∷ []
  | some _ ↦ []
]

abbrev pub input_from_errors : Map JobDefinition → String → Option String → List ValidationError
input_from_errors jobs id none = []
input_from_errors jobs id (some src) = source_errors id src (lookup src jobs)

abbrev pub reduce_errors : String → Option ReduceMode → Option String → List ValidationError
reduce_errors id (some mode) none = reduce_without_input_from id ∷ []
reduce_errors id _ _ = []

abbrev pub job_errors : Map JobDefinition → String → JobDefinition → List ValidationError
job_errors jobs id def =
    dependency_errors jobs id def.depends_on
    ++ (input_from_errors jobs id def.input_from ++ reduce_errors id def.reduce def.input_from)

-- The loop over the jobs: `todo` are those that it has still to read.
abbrev pub all_errors : Map JobDefinition → Map JobDefinition → List ValidationError
all_errors jobs [] = []
all_errors jobs ((id, def) ∷ todo) = job_errors jobs id def ++ all_errors jobs todo

unfoldable pub validate : Workflow → Outcome ⊥ ValidationReport
validate wf = do
  cyclic ← has_cycle wf.jobs
  ok (record {
    errors = all_errors wf.jobs wf.jobs ++ (if cyclic then cyclic_dependency ∷ [] else []);
    warnings = [];
  })

pub data FileError : Type 0 where
  cannot_read cannot_parse : (path : String) → FileError
  is_invalid : (report : String) → FileError

-- A function that cannot fail, among those that can.
abbrev pub total {ℓ} : {E : Type 0} {A : Type ℓ} → Outcome ⊥ A → Outcome E A
total (ok a) = ok a
total (err e) = absurd e
total (Outcome.panic p) = Outcome.panic p

abbrev or_error {ℓ} : {E : Type 0} {A : Type ℓ} → E → Option A → Outcome E A
or_error e none = err e
or_error e (some a) = ok a

abbrev map_error {ℓ} : {E F : Type 0} {A : Type ℓ} → (E → F) → Outcome E A → Outcome F A
map_error f (ok a) = ok a
map_error f (err e) = err (f e)
map_error f (Outcome.panic p) = Outcome.panic p

module _ (read_to_string : String → Option String) (from_yaml : String → Option Workflow) where
  unfoldable pub from_file : String → Outcome FileError Workflow
  unfolding into_result
  from_file path = do
    src ← or_error (cannot_read path) (read_to_string path)
    wf ← or_error (cannot_parse path) (from_yaml src)
    report ← total (validate wf)
    map_error is_invalid (into_result report)
    ok wf

module _ (exists : String → Bool) where
  unfoldable pub path_errors : Map JobDefinition → List ValidationError
  path_errors [] = []
  path_errors ((id, def) ∷ jobs) =
      let rest = path_errors jobs in
      if exists def.component then rest else component_not_found id def.component ∷ rest

  unfoldable pub check_component_paths : Workflow → ValidationReport
  unfolding path_errors
  check_component_paths wf = record { errors = path_errors wf.jobs; warnings = [] }
