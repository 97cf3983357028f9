-- ===== src/Registry/Entries.antt =====
-- RegistryStore of crates/fluxion-core/src/registry.rs: the table of components, as the list of its
-- rows. The hash that names an entry, and the time, are arguments.
use fluxion.Prelude.{
  ℕ, String, List, [], ◌∷◌, Option, none, some, Bool, true, false, ◌==◌, ◌&&◌, ◌||◌, ltb,
}
use fluxion.Workflow.Validate.{◌<>◌}
use fluxion.Registry.Reference.{OciRef, to_string_repr}
use fluxion.Store.Tables.{select, delete, affected, upsert, order_by_desc}

pub record RegistryEntry : Type 0 where
  pub id : String
  pub oci_ref : OciRef
  pub wasm_path : String
  pub created_at : ℕ

abbrev pub Components : Type 0
Components = List RegistryEntry

-- format!("reg-{:016x}", hash)
unfoldable pub entry_id : (String → String) → OciRef → String
unfolding to_string_repr
entry_id hash r = "reg-" <> hash (to_string_repr r)

abbrev pub has_id : String → RegistryEntry → Bool
has_id id e = e.id == id

unfoldable pub upsert_entry : RegistryEntry → Components → Components
upsert_entry e rows = upsert (has_id e.id) e rows

unfoldable pub register : (String → String) → ℕ → OciRef → String → Components → String × Components
unfolding entry_id upsert_entry
register hash now r wasm_path rows = (
  entry_id hash r,
  upsert_entry
      (record { id = entry_id hash r; oci_ref = r; wasm_path = wasm_path; created_at = now }) rows,
)

-- a IS b
abbrev pub is_same : Option String → Option String → Bool
is_same none none = true
is_same (some a) (some b) = a == b
is_same _ _ = false

abbrev pub is_null : Option String → Bool
is_null none = true
is_null (some a) = false

-- registry = ?1 AND repository = ?2 AND (tag IS ?3 OR (?3 IS NULL AND digest IS ?4))
abbrev pub matches : OciRef → RegistryEntry → Bool
matches r e =
    e.oci_ref.registry == r.registry
    && e.oci_ref.repository == r.repository
    && (is_same e.oci_ref.tag r.tag || (is_null r.tag && is_same e.oci_ref.digest r.digest))

abbrev pub created : RegistryEntry → ℕ
created e = e.created_at

abbrev pub first : Components → Option RegistryEntry
first [] = none
first (e ∷ rows) = some e

unfoldable pub resolve : OciRef → Components → Option RegistryEntry
resolve r rows = first (order_by_desc created (select (matches r) rows))

unfoldable pub get : String → Components → Option RegistryEntry
get id rows = first (select (has_id id) rows)

unfoldable pub list : Components → Components
list rows = order_by_desc created rows

-- The rows that are left, and whether one was removed.
unfoldable pub delete_entry : String → Components → Components × Bool
delete_entry id rows = (delete (has_id id) rows, ltb 0 (affected (has_id id) rows))

abbrev pub is_of : String → String → RegistryEntry → Bool
is_of registry repository e = e.oci_ref.registry == registry && e.oci_ref.repository == repository

unfoldable pub find_by_repo : String → String → Components → Components
find_by_repo registry repository rows =
    order_by_desc created (select (is_of registry repository) rows)
