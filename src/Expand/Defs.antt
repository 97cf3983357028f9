-- ===== src/Expand/Defs.antt =====
-- The functions of crates/fluxion-core/src/expand.rs. JSON values, their parser and printer, JSONPath
-- and the lossy decoding of bytes are the crates' and a parameter here.
use Prim.Native.Char.{code}
use Prim.Native.String.{◌++◌ as append}
use fluxion.Prelude.{
  ℕ, ◌+◌, String, List, [], ◌∷◌, ◌++◌, Map, Option, none, some, Bool, true, false, not, ◌&&◌, ◌||◌,
  lookup, insert, contains, leb, ltb, nat_eq, if◌then◌else◌, decimal,
}
use fluxion.Outcome.{Outcome, ok, err, ◌>>=◌}
use fluxion.Workflow.Types.{JobDefinition, Workflow}

-- serde_json and serde_json_path, as far as the program calls them.
pub record Json : Type 1 where
  pub Value : Type 0
  pub from_str : String → Option Value
  pub print : Value → Option String
  pub as_array : Value → Option (List Value)
  pub Query : Type 0
  pub parse_path : String → Option Query
  pub query_all : Query → Value → List Value
  pub from_utf8_lossy : List ℕ → String

pub data ExpandError : Type 0 where
  not_json not_a_path : ExpandError
  extract_failed : (job : String) → ExpandError → ExpandError
  cannot_serialise : (job : String) (item : ℕ) → ExpandError
  source_not_foreach : (job src : String) → ExpandError
  too_deep not_foreach : (job : String) → ExpandError

-- char::is_whitespace
abbrev is_whitespace : ℕ → Bool
is_whitespace c =
    (leb 9 c && leb c 13)
    || nat_eq c 0x20
    || nat_eq c 0x85
    || nat_eq c 0xa0
    || nat_eq c 0x1680
    || (leb 0x2000 c && leb c 0x200a)
    || nat_eq c 0x2028
    || nat_eq c 0x2029
    || nat_eq c 0x202f
    || nat_eq c 0x205f
    || nat_eq c 0x3000

-- s.trim().is_empty()
unfoldable pub is_blank : String → Bool
is_blank String.[] = true
is_blank (String.◌∷◌ c s) = is_whitespace (code c) && is_blank s

abbrev pub is_some {ℓ} : {A : Type ℓ} → Option A → Bool
is_some none = false
is_some (some a) = true

abbrev pub get_or_else {ℓ} : {A : Type ℓ} → A → Option A → A
get_or_else d none = d
get_or_else d (some a) = a

abbrev pub or_error {ℓ} : {E : Type 0} {A : Type ℓ} → E → Option A → Outcome E A
or_error e none = err e
or_error e (some a) = ok a

abbrev pub with_context {ℓ} : {E : Type 0} {A : Type ℓ} → (E → E) → Outcome E A → Outcome E A
with_context f (err e) = err (f e)
with_context f r = r

-- Foreach without a static input: expanded at run time.
abbrev pub is_dynamic_foreach : JobDefinition → Bool
is_dynamic_foreach def = is_some def.foreach && not (is_some def.input)

-- format!("{}.{}", job_id, i)
unfoldable pub child_id : String → ℕ → String
unfolding decimal
child_id job_id i = append job_id (append "." (decimal i))

-- The definition of a child: its own input, no condition, no fan-out and no fan-in.
abbrev pub child_of : JobDefinition → String → Bool → JobDefinition
child_of def item_input fail_fast = record {
  component = def.component;
  depends_on = def.depends_on;
  input = some item_input;
  permissions = def.permissions;
  worker = def.worker;
  env = def.env;
  when = none;
  foreach = none;
  input_from = none;
  max_parallel = def.max_parallel;
  output_size_limit_mb = def.output_size_limit_mb;
  fail_fast = fail_fast;
  component_sha256 = def.component_sha256;
  reduce = none;
  executor = def.executor;
  async_dispatch = def.async_dispatch;
  oci_ref = def.oci_ref;
}

-- def.input, or what overrides it, or the empty text.
abbrev pub input_text : Option String → Option String → String
input_text (some s) input = s
input_text none input = get_or_else "" input

module _ (json : Json) where
  open json use {Value, from_str, print, as_array, Query, parse_path, query_all, from_utf8_lossy}

  -- A single match that is an array is unwrapped.
  unfoldable pub unwrap_matches : List Value → List Value
  unwrap_matches (v ∷ []) = elim (as_array v) [ none ↦ v ∷ [] | some arr ↦ arr ]
  unwrap_matches vs = vs

  unfoldable pub extract_jsonpath_array : String → String → Outcome ExpandError (List Value)
  unfolding unwrap_matches is_blank
  extract_jsonpath_array path input = if is_blank input then ok [] else do
    root ← or_error not_json (from_str input)
    jpath ← or_error not_a_path (parse_path path)
    ok (unwrap_matches (query_all jpath root))

  -- The loop over the items: the children go into `jobs`, and their names behind `ids`.
  unfoldable pub expand_items :
      String
      → JobDefinition
      → Bool
      → ℕ
      → List Value
      → Map JobDefinition
      → List String
      → Outcome ExpandError (Map JobDefinition × List String)
  expand_items job_id def fail_fast i [] jobs ids = ok (jobs, ids)
  expand_items job_id def fail_fast i (item ∷ items) jobs ids = do
    item_input ← or_error (cannot_serialise job_id i) (print item)
    expand_items job_id def fail_fast (i + 1) items
        (insert (child_id job_id i) (child_of def item_input fail_fast) jobs)
        (ids ++ child_id job_id i ∷ [])

  -- One job of the first loop of expand_foreach.
  unfoldable pub expand_job :
      Option String
      → String
      → JobDefinition
      → Option String
      → Map JobDefinition
      → Map (List String)
      → Outcome ExpandError (Map JobDefinition × Map (List String))
  unfolding expand_items extract_jsonpath_array
  expand_job input_override job_id def none jobs groups = ok (insert job_id def jobs, groups)
  expand_job input_override job_id def (some path) jobs groups =
      if is_dynamic_foreach def then ok (insert job_id def jobs, groups) else do
        items ←
            with_context (extract_failed job_id)
              (extract_jsonpath_array path (input_text input_override def.input))
        (jobs', ids) ← expand_items job_id def false 0 items jobs []
        ok (jobs', insert job_id ids groups)

  unfoldable pub expand_jobs :
      Option String
      → Map JobDefinition
      → Map JobDefinition
      → Map (List String)
      → Outcome ExpandError (Map JobDefinition × Map (List String))
  unfolding expand_job
  expand_jobs input_override [] jobs groups = ok (jobs, groups)
  expand_jobs input_override ((job_id, def) ∷ todo) jobs groups = do
    (jobs', groups') ← expand_job input_override job_id def def.foreach jobs groups
    expand_jobs input_override todo jobs' groups'

-- The dependencies, with each foreach job replaced by its children.
unfoldable pub rewrite_deps : Map (List String) → List String → List String
rewrite_deps groups [] = []
rewrite_deps groups (dep ∷ deps) =
    elim (lookup dep groups) [ none ↦ dep ∷ [] | some children ↦ children ]
    ++ rewrite_deps groups deps

-- The children of a fan-in source that are no dependencies yet are added.
unfoldable pub add_children : List String → List String → List String
add_children [] deps = deps
add_children (child ∷ children) deps =
    add_children children (if contains child deps then deps else deps ++ child ∷ [])

abbrev pub rewrite_fan_in :
    Map (List String) → String → Option String → List String → Outcome ExpandError (List String)
rewrite_fan_in groups job_id none deps = ok deps
rewrite_fan_in groups job_id (some src) deps = elim (lookup src groups) [
  | none ↦ err (source_not_foreach job_id src)
  | some children ↦ ok (add_children children deps)
]

unfoldable pub rewrite_job :
    Map (List String) → String → JobDefinition → Outcome ExpandError JobDefinition
unfolding rewrite_deps add_children
rewrite_job groups job_id def = do
  deps ← rewrite_fan_in groups job_id def.input_from (rewrite_deps groups def.depends_on)
  ok (record def { depends_on = deps })

unfoldable pub rewrite_jobs :
    Map (List String) → Map JobDefinition → Outcome ExpandError (Map JobDefinition)
unfolding rewrite_job
rewrite_jobs groups [] = ok []
rewrite_jobs groups ((job_id, def) ∷ jobs) = do
  def' ← rewrite_job groups job_id def
  jobs' ← rewrite_jobs groups jobs
  ok ((job_id, def') ∷ jobs')

pub record ExpandedWorkflow : Type 0 where
  pub workflow : Workflow
  pub foreach_map : Map (List String)

abbrev pub max_foreach_depth : ℕ
max_foreach_depth = 4

module _ (json : Json) where
  unfoldable pub expand_foreach : Workflow → Option String → Outcome ExpandError ExpandedWorkflow
  unfolding expand_jobs rewrite_jobs
  expand_foreach wf input_override = do
    (new_jobs, foreach_map) ← expand_jobs json input_override wf.jobs [] []
    jobs ← rewrite_jobs foreach_map new_jobs
    ok (record { workflow = record wf { jobs = jobs }; foreach_map = foreach_map })

  unfoldable pub expand_foreach_dynamic :
      String → JobDefinition → List ℕ → ℕ → Outcome ExpandError (List String × Map JobDefinition)
  unfolding expand_items extract_jsonpath_array
  expand_foreach_dynamic job_id def dep_output depth =
      if ltb max_foreach_depth depth then err (too_deep job_id) else do
        path ← or_error (not_foreach job_id) def.foreach
        items ←
            with_context (extract_failed job_id)
              (extract_jsonpath_array json path (json.from_utf8_lossy dep_output))
        (children, ids) ← expand_items json job_id def def.fail_fast 0 items [] []
        ok (ids, children)
