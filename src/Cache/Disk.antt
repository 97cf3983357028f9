-- ===== src/Cache/Disk.antt =====
-- crates/fluxion-host/src/cache.rs: keys, and the cache of compiled components on disk. Wasmtime,
-- SHA-256, the LRU caches and the file system are parameters.
use fluxion.Prelude.{
  ℕ, String, Map, Option, none, some, Bool, strip_prefix, lookup, insert, remove, if◌then◌else◌,
  ◌⊎◌, inl, inr,
}
use fluxion.Outcome.{Outcome, ok, err}
use fluxion.Workflow.Types.{PermissionSet}
use fluxion.Workflow.Validate.{◌<>◌}
use fluxion.Expand.Defs.{get_or_else, or_error}
use fluxion.Scheduler.FanIn.{Bytes}

pub data CacheKey : Type 0 where
  path digest : (text : String) → CacheKey

-- What a call of a component does.
pub data Called : Type 0 where
  output : Bytes → Called
  component_error : (text : String) → Called
  trap : (is_interrupt : Bool) (text : String) → Called

-- A store of Wasmtime: the capabilities, the memory in bytes and the ticks until the deadline.
pub record Store (Ctx : Type 0) : Type 0 where
  pub ctx : Ctx
  pub memory_size : ℕ
  pub epoch_deadline : ℕ

-- `deserialize` reads what precompile_component wrote, and rejects what another version wrote.
-- `instantiate_pre` stands for the linker and TaskComponentPre::new.
pub record Wasm : Type 1 where
  pub Component : Type 0
  pub Pre : Type 0
  pub Ctx : Type 0
  pub Instance : Type 0
  pub sha256 : Bytes → String
  pub precompile : Bytes → String ⊎ Bytes
  pub deserialize : Bytes → Option Component
  pub instantiate_pre : Component → String ⊎ Pre
  pub build_wasi_ctx : PermissionSet → Map String → String ⊎ Ctx
  pub instantiate : Pre → Store Ctx → String ⊎ Instance
  pub call_process : Instance → Bytes → Called

-- A lookup makes its entry the one that was used last; a new entry may take the place of others.
pub record Lru (A : Type 0) : Type 1 where
  pub Cache : Type 0
  pub get : String → Cache → Option A × Cache
  pub put : String → A → Cache → Cache

abbrev pub result {ℓ} : {A : Type ℓ} → String ⊎ A → Outcome String A
result (inl e) = err e
result (inr a) = ok a

-- dir.join(format!("{hex}.cwasm"))
abbrev pub artifact : String → String → String
artifact dir hex = dir <> "/" <> hex <> ".cwasm"

module _ (w : Wasm) where
  open w use {Component, sha256, precompile, deserialize}

  abbrev pub as_str_key : CacheKey → Bytes → String
  as_str_key (digest d) wasm_bytes = get_or_else d (strip_prefix "sha256:" d)
  as_str_key (path p) wasm_bytes = sha256 wasm_bytes

  -- A file that is not read is removed.
  abbrev pub load_found : String → Option Bytes → Map Bytes → Option Component × Map Bytes
  load_found file none files = (none, files)
  load_found file (some bytes) files = elim (deserialize bytes) [
    | some c ↦ (some c, files)
    | none ↦ (none, remove file files)
  ]

  abbrev pub load_file : String → Map Bytes → Option Component × Map Bytes
  load_file file files = load_found file (lookup file files) files

  -- `dir` is the directory of the cache.
  unfoldable pub load_by_key : String → CacheKey → Bytes → Map Bytes → Option Component × Map Bytes
  unfolding strip_prefix
  load_by_key dir key wasm_bytes files = load_file (artifact dir (as_str_key key wasm_bytes)) files

  -- With the hash of the bytes as key.
  unfoldable pub load : String → Bytes → Map Bytes → Option Component × Map Bytes
  load dir wasm_bytes files = load_file (artifact dir (sha256 wasm_bytes)) files

  -- `can_write` is whether a file can be written.
  module _ (can_write : String → Bool) where
    abbrev pub store_artifact :
        String → String ⊎ Bytes → Map Bytes → Outcome String Component × Map Bytes
    store_artifact file (inl e) files = (err e, files)
    store_artifact file (inr bytes) files =
        if can_write file
        then (or_error "incompatible artifact" (deserialize bytes), insert file bytes files)
        else (err "cannot write the artifact", files)

    unfoldable pub store_by_key :
        String → CacheKey → Bytes → Map Bytes → Outcome String Component × Map Bytes
    unfolding strip_prefix
    store_by_key dir key wasm_bytes files =
        store_artifact (artifact dir (as_str_key key wasm_bytes)) (precompile wasm_bytes) files

    unfoldable pub store : String → Bytes → Map Bytes → Outcome String Component × Map Bytes
    store dir wasm_bytes files =
        store_artifact (artifact dir (sha256 wasm_bytes)) (precompile wasm_bytes) files
