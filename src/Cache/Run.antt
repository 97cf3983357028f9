-- ===== src/Cache/Run.antt =====
-- The runs of a component in crates/fluxion-host/src/lib.rs: run_component_measured,
-- run_component_with_key, run_from_oci and run_component, over three caches.
use Prim.Native.String.{String}
use text.Mathlib.Text.{starts_with}
use fluxion.Prelude.{
  ℕ, ◌*◌, ◌%◌, ◌^◌, Map, [], Option, none, some, Bool, ◌||◌, decimal, strip_prefix, if◌then◌else◌,
  ◌⊎◌, inl, inr,
}
use fluxion.Outcome.{Outcome, ok, err, panic, ◌>>=◌}
use fluxion.Workflow.Types.{PermissionSet}
use fluxion.Workflow.Validate.{◌<>◌}
use fluxion.Host.{JobMetrics}
use fluxion.Scheduler.FanIn.{Bytes}
use fluxion.Cache.Disk.{
  CacheKey, digest, Called, output, component_error, trap, Store, Wasm, Lru, as_str_key,
  load_by_key, store_by_key, load, store,
}

abbrev pub ticks_per_sec : ℕ
ticks_per_sec = 10

-- s.contains(part)
unfoldable pub has_part : String → String → Bool
has_part part String.[] = starts_with String.[] part
has_part part (String.◌∷◌ c s) = starts_with (String.◌∷◌ c s) part || has_part part s

unfoldable pub is_oom_error : String → Bool
unfolding has_part
is_oom_error s = has_part "exceeds memory limits" s || has_part "memory allocation failed" s

-- The error of an instance that is not made.
unfoldable pub instantiate_error : PermissionSet → String → String
unfolding is_oom_error decimal
instantiate_error perms e =
    if is_oom_error e
    then "OOM: component exceeded memory_mb="
      <> decimal perms.limits.memory_mb
      <> " limit ("
      <> e
      <> ")"
    else e

unfoldable pub call_result :
    PermissionSet → JobMetrics → Called → Outcome String (Bytes × JobMetrics)
unfolding decimal
call_result perms metrics (output content) = ok (content, metrics)
call_result perms metrics (component_error e) = err ("Component error: " <> e)
call_result perms metrics (trap is_interrupt e) =
    if is_interrupt
    then err
        ("Timeout: killed after " <> decimal perms.limits.timeout_secs <> "s (epoch interrupt)")
    else err e

-- The caches of a host: files, components, and components that are linked.
pub record Caches (Mem Pre : Type 0) : Type 0 where
  pub files : Map Bytes
  pub mem : Mem
  pub pre : Pre

-- A run: its input, permissions, environment, and the times that it takes.
pub record Request : Type 0 where
  pub input : Bytes
  pub perms : PermissionSet
  pub env : Map String
  pub times : JobMetrics

module _ (w : Wasm) (mem_cache : Lru w.Component) (pre_cache : Lru w.Pre) (dir : String)
    (can_write : String → Bool) where
  open w use {
    Component, Pre, Ctx, sha256, instantiate_pre, build_wasi_ctx, instantiate, call_process,
  }

  abbrev pub FluxionHost : Type 0
  FluxionHost = Caches mem_cache.Cache pre_cache.Cache

  abbrev pub in_mem :
      String → Outcome String Component → FluxionHost → Outcome String Component × FluxionHost
  in_mem key (ok c) h = (ok c, record h { mem = mem_cache.put key c h.mem })
  in_mem key (err e) h = (err e, h)
  in_mem key (panic f) h = (panic f, h)

  -- A component that is not in memory, given what loading from disk and storing there do.
  abbrev pub from_disk :
      String
      → Option Component × Map Bytes
      → (Map Bytes → Outcome String Component × Map Bytes)
      → FluxionHost
      → Outcome String Component × FluxionHost
  from_disk key (some c, files) store_it h = in_mem key (ok c) (record h { files = files })
  from_disk key (none, files) store_it h =
      let (c, files') = store_it files in in_mem key c (record h { files = files' })

  -- The compile phase.
  abbrev pub compiled :
      String
      → (Map Bytes → Option Component × Map Bytes)
      → (Map Bytes → Outcome String Component × Map Bytes)
      → FluxionHost
      → Outcome String Component × FluxionHost
  compiled key load_it store_it h =
      let (found, mem) = mem_cache.get key h.mem in
      let missed = from_disk key (load_it h.files) store_it (record h { mem = mem }) in
      elim found [ some c ↦ (ok c, record h { mem = mem }) | none ↦ missed ]

  abbrev pub in_pre : String → String ⊎ Pre → FluxionHost → Outcome String Pre × FluxionHost
  in_pre key (inl e) h = (err e, h)
  in_pre key (inr p) h = (ok p, record h { pre = pre_cache.put key p h.pre })

  -- The instantiate phase, up to the instance.
  abbrev pub linked :
      String → Outcome String Component → FluxionHost → Outcome String Pre × FluxionHost
  linked key (err e) h = (err e, h)
  linked key (panic f) h = (panic f, h)
  linked key (ok c) h =
      let (found, pre) = pre_cache.get key h.pre in
      let missed = in_pre key (instantiate_pre c) (record h { pre = pre }) in
      elim found [ some p ↦ (ok p, record h { pre = pre }) | none ↦ missed ]

  -- The products wrap around in a release build.
  abbrev pub store_of : PermissionSet → Ctx → Store Ctx
  store_of perms ctx = record {
    ctx = ctx;
    memory_size = perms.limits.memory_mb * (1024 * 1024) % 2 ^ 64;
    epoch_deadline = perms.limits.timeout_secs * ticks_per_sec % 2 ^ 64;
  }

  -- The instance, and the call.
  unfoldable pub called : Request → Ctx → Outcome String Pre → Outcome String (Bytes × JobMetrics)
  unfolding instantiate_error call_result
  called r ctx (err e) = err e
  called r ctx (panic f) = panic f
  called r ctx (ok p) = elim (instantiate p (store_of r.perms ctx)) [
    | inl e ↦ err (instantiate_error r.perms e)
    | inr instance' ↦ call_result r.perms r.times (call_process instance' r.input)
  ]

  abbrev pub run_phases :
      String
      → (Map Bytes → Option Component × Map Bytes)
      → (Map Bytes → Outcome String Component × Map Bytes)
      → Request
      → Ctx
      → FluxionHost
      → Outcome String (Bytes × JobMetrics) × FluxionHost
  run_phases key load_it store_it r ctx h =
      let (c, h1) = compiled key load_it store_it h in
      let (p, h2) = linked key c h1 in (called r ctx p, h2)

  abbrev pub with_key :
      Bytes
      → CacheKey
      → Request
      → String ⊎ Ctx
      → FluxionHost
      → Outcome String (Bytes × JobMetrics) × FluxionHost
  with_key wasm_bytes cache_key r (inl e) h = (err e, h)
  with_key wasm_bytes cache_key r (inr ctx) h =
      run_phases (as_str_key w cache_key wasm_bytes) (load_by_key w dir cache_key wasm_bytes)
        (store_by_key w can_write dir cache_key wasm_bytes) r ctx h

  unfoldable pub run_component_with_key :
      Bytes → CacheKey → Request → FluxionHost → Outcome String (Bytes × JobMetrics) × FluxionHost
  unfolding called load_by_key store_by_key strip_prefix
  run_component_with_key wasm_bytes cache_key r h =
      with_key wasm_bytes cache_key r (build_wasi_ctx r.perms r.env) h

  -- `pull` is the client, if there is one.
  abbrev pub run_pulled :
      Option (String ⊎ Bytes)
      → Request
      → FluxionHost
      → Outcome String (Bytes × JobMetrics) × FluxionHost
  run_pulled none r h = (err "no OciClient configured", h)
  run_pulled (some (inl e)) r h = (err e, h)
  run_pulled (some (inr wasm_bytes)) r h =
      run_component_with_key wasm_bytes (digest ("sha256:" <> sha256 wasm_bytes)) r h

  abbrev pub with_ctx :
      String ⊎ Bytes
      → Request
      → String ⊎ Ctx
      → FluxionHost
      → Outcome String (Bytes × JobMetrics) × FluxionHost
  with_ctx file r (inl e) h = (err e, h)
  with_ctx (inl e) r (inr ctx) h = (err e, h)
  with_ctx (inr wasm_bytes) r (inr ctx) h =
      run_phases (sha256 wasm_bytes) (load w dir wasm_bytes) (store w can_write dir wasm_bytes) r
        ctx h

  -- `read` gives why the file is not read, or its bytes.
  unfoldable pub run_component_measured :
      (String → String ⊎ Bytes)
      → String
      → Request
      → FluxionHost
      → Outcome String (Bytes × JobMetrics) × FluxionHost
  unfolding called load store
  run_component_measured read wasm_path r h =
      with_ctx (read wasm_path) r (build_wasi_ctx r.perms r.env) h

  unfoldable pub run_from_oci :
      Option (String → String → String ⊎ Bytes)
      → String
      → String
      → Request
      → FluxionHost
      → Outcome String (Bytes × JobMetrics) × FluxionHost
  unfolding run_component_with_key
  run_from_oci none repository reference r h = run_pulled none r h
  run_from_oci (some pull) repository reference r h =
      run_pulled (some (pull repository reference)) r h

  unfoldable pub run_component :
      (String → String ⊎ Bytes)
      → String
      → Request
      → FluxionHost
      → Outcome String Bytes × FluxionHost
  unfolding run_component_measured
  run_component read wasm_path r h =
      let (o, h') = run_component_measured read wasm_path (record r { env = [] }) h in
      (o >>= (λ p. ok p.0), h')
