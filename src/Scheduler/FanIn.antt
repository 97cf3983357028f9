-- ===== src/Scheduler/FanIn.antt =====
-- build_fanin_input of crates/fluxion-host/src/scheduler.rs. JSON and the Wasm host are parameters.
use fluxion.Prelude.{ℕ, String, List, [], ◌∷◌, ◌++◌, Map, Option, none, some, lookup, insert}
use fluxion.Workflow.Types.{
  Workflow, ReduceMode, concat, json_array, json_merge, custom, PermissionSet, default_permissions,
}

abbrev pub Bytes : Type 0
Bytes = List ℕ

-- serde_json on bytes, and running a component.
pub record Reducer : Type 1 where
  pub Value : Type 0
  pub null : Value
  pub from_slice : Bytes → Option Value
  pub as_object : Value → Option (Map Value)
  pub array_to_vec : List Value → Option Bytes
  pub object_to_vec : Map Value → Option Bytes
  pub run_component : String → Bytes → PermissionSet → Option Bytes

abbrev bytes_of : Option Bytes → Bytes
bytes_of none = []
bytes_of (some b) = b

-- The outputs of the children, in the order of the children; a missing output is empty.
unfoldable pub raw_outputs : List String → Map Bytes → List Bytes
raw_outputs [] outputs = []
raw_outputs (c ∷ cs) outputs = bytes_of (lookup c outputs) ∷ raw_outputs cs outputs

unfoldable pub flatten_bytes : List Bytes → Bytes
flatten_bytes [] = []
flatten_bytes (b ∷ bs) = b ++ flatten_bytes bs

module _ (r : Reducer) where
  open r use {Value, null, from_slice, as_object, array_to_vec, object_to_vec, run_component}

  -- What is no JSON counts as null.
  unfoldable pub values : List Bytes → List Value
  values [] = []
  values (b ∷ bs) = elim (from_slice b) [ none ↦ null | some v ↦ v ] ∷ values bs

  extend : Map Value → Map Value → Map Value
  extend m [] = m
  extend m ((k, v) ∷ obj) = extend (insert k v m) obj

  -- What is no JSON object is left out; of two values for a key the later one stays.
  unfoldable pub merge_objects : Map Value → List Bytes → Map Value
  unfolding extend
  merge_objects m [] = m
  merge_objects m (b ∷ bs) =
      let skip = merge_objects m bs in
      elim (from_slice b) [
        | none ↦ skip
        | some v ↦ elim (as_object v) [ none ↦ skip | some obj ↦ merge_objects (extend m obj) bs ]
      ]

  unfoldable pub reduce_outputs : Option ReduceMode → List Bytes → Option Bytes
  unfolding values merge_objects flatten_bytes
  reduce_outputs none outputs = array_to_vec (values outputs)
  reduce_outputs (some json_array) outputs = array_to_vec (values outputs)
  reduce_outputs (some concat) outputs = some (flatten_bytes outputs)
  reduce_outputs (some json_merge) outputs = object_to_vec (merge_objects [] outputs)
  reduce_outputs (some (custom path)) outputs = elim (array_to_vec (values outputs)) [
    | none ↦ none
    | some input ↦ run_component path input default_permissions
  ]

  -- `none` leaves the job its own input.
  unfoldable pub build_fanin_input :
      String → Workflow → Map (List String) → Map Bytes → Option Bytes
  unfolding raw_outputs reduce_outputs
  build_fanin_input job_id wf groups outputs = elim (lookup job_id wf.jobs) [
    | none ↦ none
    | some def ↦ elim def.input_from [
      | none ↦ none
      | some src ↦ elim (lookup src groups) [
        | none ↦ none
        | some children ↦ reduce_outputs def.reduce (raw_outputs children outputs)
      ]
    ]
  ]
