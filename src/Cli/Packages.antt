-- ===== src/Cli/Packages.antt =====
-- The registry commands of crates/fluxion-cli/src/registry.rs. Files are parameters, as are the HTTP
-- client and the registry behind it.
use fluxion.Prelude.{
  ℕ, String, List, [], ◌∷◌, Option, none, some, Bool, length, decimal, rsplit_once, if◌then◌else◌,
}
use fluxion.Outcome.{Outcome, ok, err, panic, ◌>>=◌}
use fluxion.Workflow.Validate.{◌<>◌}
use fluxion.Expand.Defs.{get_or_else}
use fluxion.Scheduler.FanIn.{Bytes}
use fluxion.Registry.Reference.{OciRef, RefError, parse, to_string_repr}
use fluxion.Registry.Entries.{RegistryEntry, Components, register, list, delete_entry}
use fluxion.Oci.Client.{Crates, OciError, pull, push}
use fluxion.Cli.Report.{Texts, pad_end, repeat}

pub data PackageError : Type 0 where
  bad_reference : RefError → PackageError
  registry_failed : OciError → PackageError
  cannot_read cannot_write no_entry : (text : String) → PackageError

abbrev pub parsed : Outcome RefError OciRef → Outcome PackageError OciRef
parsed (ok r) = ok r
parsed (err e) = err (bad_reference e)
parsed (panic f) = panic f

abbrev pub answered {ℓ} : {A : Type ℓ} → Outcome OciError A → Outcome PackageError A
answered (ok a) = ok a
answered (err e) = err (registry_failed e)
answered (panic f) = panic f

-- The tag, or else the digest, or else "latest".
abbrev pub reference_of : OciRef → String
reference_of r = elim r.tag [ some tag ↦ tag | none ↦ get_or_else "latest" r.digest ]

-- repository.rsplit('/').next()
abbrev pub base_name : String → String
base_name repository = elim (rsplit_once 0x2f repository) [
  | none ↦ repository
  | some (before, name) ↦ name
]

-- What a command leaves: its lines, the registry, the files, and the table of components.
pub record Shell (Registry : Type 0) : Type 0 where
  pub lines : List String
  pub registry : Registry
  pub files : List (String × Bytes)
  pub components : Components

module _ (c : Crates) (read : String → Option Bytes) (can_write : String → Bool)
    (hash : String → String) where
  -- The pulled bytes are written and registered.
  abbrev pub save :
      ℕ
      → OciRef
      → String
      → Bytes × c.Registry
      → Components
      → Outcome PackageError (Shell c.Registry)
  save now r out_path (bytes, registry) components =
      let (id, components') = register hash now r out_path components in
      if can_write out_path
      then ok (record {
        lines = ("Saved " <> decimal (length bytes) <> " bytes → " <> out_path) ∷ [];
        registry = registry;
        files = (out_path, bytes) ∷ [];
        components = components';
      })
      else err (cannot_write out_path)

  unfoldable pub pull_command :
      ℕ → String → Option String → c.Registry → Components → Outcome PackageError (Shell c.Registry)
  unfolding parse pull register decimal rsplit_once
  pull_command now oci_ref_str output registry components = do
    r ← parsed (parse oci_ref_str)
    got ← answered (pull c ("http://" <> r.registry) none r.repository (reference_of r) registry)
    save now r (get_or_else (base_name r.repository <> ".wasm") output) got components

  abbrev pub bytes_of : String → Outcome PackageError Bytes
  bytes_of wasm_path = elim (read wasm_path) [
    | none ↦ err (cannot_read wasm_path)
    | some bytes ↦ ok bytes
  ]

  unfoldable pub push_command :
      String → String → c.Registry → Components → Outcome PackageError (Shell c.Registry)
  unfolding parse push
  push_command wasm_path oci_ref_str registry components = do
    r ← parsed (parse oci_ref_str)
    bytes ← bytes_of wasm_path
    (digest, registry') ←
        answered
          (push c ("http://" <> r.registry) none r.repository (reference_of r) bytes registry)
    ok (record {
      lines = ("Pushed. Layer digest: " <> digest) ∷ [];
      registry = registry';
      files = [];
      components = components;
    })

-- `prefix` is the first 20 bytes of an id.
abbrev pub entry_lines : Texts → (String → String) → List RegistryEntry → List String
entry_lines t prefix [] = []
entry_lines t prefix (e ∷ entries) =
    (pad_end t 20 (prefix e.id)
      <> "  "
      <> pad_end t 45 (to_string_repr e.oci_ref)
      <> "  "
      <> e.wasm_path)
    ∷ entry_lines t prefix entries

abbrev pub entry_table : Texts → (String → String) → List RegistryEntry → List String
entry_table t prefix [] =
    (pad_end t 20 "ID" <> "  " <> pad_end t 45 "OCI REF" <> "  PATH")
    ∷ repeat 80 "-"
    ∷ "(no entries)"
    ∷ []
entry_table t prefix (e ∷ entries) =
    (pad_end t 20 "ID" <> "  " <> pad_end t 45 "OCI REF" <> "  PATH")
    ∷ repeat 80 "-"
    ∷ entry_lines t prefix (e ∷ entries)

unfoldable pub local_list : Texts → (String → String) → Components → List String
unfolding list
local_list t prefix components = entry_table t prefix (list components)

unfoldable pub rm : String → Components → Outcome PackageError (List String × Components)
unfolding delete_entry
rm id components =
    let (rest, removed) = delete_entry id components in
    if removed then ok (("Removed: " <> id) ∷ [], rest) else err (no_entry id)
