-- ===== src/Tests/Samples.antt =====
-- Small workflows, graphs, and a small JSON for the tests.
use fluxion.Prelude.{
  String, List, [], ◌∷◌, Map, Option, none, some, false, ◌≡◌, IsMap, arith, eq_iff, ◌==◌,
  if◌then◌else◌,
}
use fluxion.Workflow.Types.{JobDefinition, Workflow, default_permissions, local}
use fluxion.Dag.Kahn.{Deps}
use fluxion.Dag.Build.{Dag}
use fluxion.Expand.Defs.{Json}

abbrev pub job : List String → JobDefinition
job deps = record {
  component = "job.wasm";
  depends_on = deps;
  input = none;
  permissions = default_permissions;
  worker = none;
  env = [];
  when = none;
  foreach = none;
  input_from = none;
  max_parallel = none;
  output_size_limit_mb = none;
  fail_fast = false;
  component_sha256 = none;
  reduce = none;
  executor = local;
  async_dispatch = false;
  oci_ref = none;
}

abbrev pub workflow : Map JobDefinition → Workflow
workflow jobs = record {
  name = "sample";
  jobs = jobs;
  workers = [];
  max_parallel = none;
  workers_srv = none;
}

abbrev pub chain : Workflow
chain = workflow (("b", job ("a" ∷ [])) ∷ ("a", job []) ∷ [])

abbrev pub chain_deps : Deps
chain_deps = ("b", "a" ∷ []) ∷ ("a", []) ∷ []

abbrev pub chain_dag : Dag
chain_dag = record {
  topo_order = "a" ∷ "b" ∷ [];
  deps = chain_deps;
  dependents = ("b", []) ∷ ("a", "b" ∷ []) ∷ [];
}

-- Two keys that differ.
pub pair-IsMap {ℓ} :
    {V : Type ℓ} (a b : String) (v w : V) → a == b ≡ false → IsMap ((a, v) ∷ (b, w) ∷ [])
pair-IsMap a b v w h k = ground (arith, eq_iff a k, eq_iff b k, eq_iff a b)

-- Texts are values; the array is the text "[]" with two elements.
abbrev pub json : Json
json = record {
  Value = String;
  from_str = some;
  print = some;
  as_array = λ v. if_array v;
  Query = String;
  parse_path = some;
  query_all = λ q v. v ∷ [];
  from_utf8_lossy = λ b. "";
}
  where
    if_array : String → Option (List String)
    if_array v = if v == "items" then some ("x" ∷ "y" ∷ []) else none
