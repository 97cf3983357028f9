-- ===== src/Workflow/Reduce.antt =====
-- How `reduce` is read from a YAML file: the visitor of ReduceMode in
-- crates/fluxion-core/src/workflow.rs. What serde_yaml hands to the visitor is its input here.
use fluxion.Prelude.{String, List, [], ◌∷◌, Option, none, some, ◌==◌, if◌then◌else◌}
use fluxion.Outcome.{Outcome, ok, err}
use fluxion.Workflow.Types.{ReduceMode, concat, json_array, json_merge, custom}

-- A text, a mapping with its values where they are texts, or something else.
pub data ReduceInput : Type 0 where
  text : String → ReduceInput
  mapping : List (String × Option String) → ReduceInput
  other : ReduceInput

pub data ReduceError : Type 0 where
  unknown_variant : String → ReduceError
  empty_map invalid_type : ReduceError

unfoldable pub visit_str : String → Outcome ReduceError ReduceMode
visit_str v =
    if v == "concat"
    then ok concat
    else if v == "json_array"
    then ok json_array
    else if v == "json_merge"
    then ok json_merge
    else err (unknown_variant v)

-- The value of the first key counts, and the other entries are ignored.
unfoldable pub visit_map : List (String × Option String) → Outcome ReduceError ReduceMode
visit_map [] = err empty_map
visit_map ((key, value) ∷ rest) =
    if key == "custom"
    then (elim value [ none ↦ err invalid_type | some component ↦ ok (custom component) ])
    else err (unknown_variant key)

unfoldable pub deserialize : ReduceInput → Outcome ReduceError ReduceMode
unfolding visit_str visit_map
deserialize (text v) = visit_str v
deserialize (mapping entries) = visit_map entries
deserialize other = err invalid_type
