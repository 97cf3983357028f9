-- ===== src/Cache/Runs.antt =====
-- Any runs of components on a host, one after another.
use fluxion.Prelude.{
  String, List, [], ◌∷◌, map, some, Bool, strip_prefix, strip_prefix-append, ◌⊎◌, inl, inr, ◌≡◌,
  refl, sym, ap, subst, ◌∙◌,
}
use fluxion.Outcome.{Outcome, err}
use fluxion.Workflow.Validate.{◌<>◌}
use fluxion.Expand.Defs.{get_or_else}
use fluxion.Host.{JobMetrics}
use fluxion.Scheduler.FanIn.{Bytes}
use fluxion.Cache.Disk.{
  Wasm, Lru, digest, artifact, load_file, store_artifact, load, store, load_by_key, store_by_key,
}
use fluxion.Cache.Run.{
  Request, FluxionHost, called, run_phases, with_key, run_component_with_key, run_pulled, with_ctx,
  run_component_measured, run_from_oci,
}
use fluxion.Cache.Coherent.{link}
use fluxion.Cache.Transparent.{IsReliable, IsCoherent, run_phases-Kept}

-- A component of a file, or one that is pulled from a registry.
pub data Call : Type 0 where
  local : (wasm_path : String) → Request → Call
  pulled : (repository reference : String) → Request → Call

module _ (w : Wasm) (mem_cache : Lru w.Component) (pre_cache : Lru w.Pre) (dir : String)
    (can_write : String → Bool) (read : String → String ⊎ Bytes)
    (pull : String → String → String ⊎ Bytes) where
  open w use {Component, Pre, Ctx, sha256, precompile, build_wasi_ctx}

  abbrev Host : Type 0
  Host = FluxionHost w mem_cache pre_cache dir can_write

  abbrev Result : Type 0
  Result = Outcome String (Bytes × JobMetrics)

  unfoldable pub run_call : Call → Host → Result × Host
  unfolding run_component_measured run_from_oci
  run_call (local wasm_path r) h =
      run_component_measured w mem_cache pre_cache dir can_write read wasm_path r h
  run_call (pulled repository reference r) h =
      run_from_oci w mem_cache pre_cache dir can_write (some pull) repository reference r h

  unfoldable pub run_calls : List Call → Host → List Result × Host
  unfolding run_call
  run_calls [] h = ([], h)
  run_calls (c ∷ calls) h =
      let (o, h1) = run_call c h in let (os, h2) = run_calls calls h1 in (o ∷ os, h2)

  -- Without caches: the bytes are compiled, linked and called.
  abbrev pub of_bytes : String ⊎ Bytes → Request → String ⊎ Ctx → Result
  of_bytes file r (inl e) = err e
  of_bytes (inl e) r (inr ctx) = err e
  of_bytes (inr wasm) r (inr ctx) = called w mem_cache pre_cache dir can_write r ctx (link w wasm)

  abbrev pub of_pulled : String ⊎ Bytes → Request → Result
  of_pulled (inl e) r = err e
  of_pulled (inr wasm) r = of_bytes (inr wasm) r (build_wasi_ctx r.perms r.env)

  abbrev pub uncached : Call → Result
  uncached (local wasm_path r) = of_bytes (read wasm_path) r (build_wasi_ctx r.perms r.env)
  uncached (pulled repository reference r) = of_pulled (pull repository reference) r

  module _ (v : IsReliable w mem_cache pre_cache can_write) where
    abbrev Coherent : Host → Type 0
    Coherent h = IsCoherent w mem_cache pre_cache dir can_write h

    abbrev Kept : Result → Result × Host → Type 0
    Kept o r = Coherent r.1 × (r.0 ≡ o)

    measured-Kept :
        (file : String ⊎ Bytes) (r : Request) (ctx : String ⊎ Ctx) (h : Host)
        → Coherent h
        → Kept (of_bytes file r ctx) (with_ctx w mem_cache pre_cache dir can_write file r ctx h)
    unfolding load store
    measured-Kept file r (inl e) h k = (k, refl)
    measured-Kept (inl e) r (inr ctx) h k = (k, refl)
    measured-Kept (inr wasm) r (inr ctx) h k =
        run_phases-Kept w mem_cache pre_cache dir can_write v wasm r ctx h k

    -- A run under some key, where the key is the hash.
    abbrev under : String → Bytes → Request → Ctx → Host → Result × Host
    under key wasm r ctx h =
        run_phases w mem_cache pre_cache dir can_write key (load_file w (artifact dir key))
          (λ files. store_artifact w can_write (artifact dir key) (precompile wasm) files) r ctx h

    keyed-Kept :
        (wasm : Bytes) (r : Request) (ctx : String ⊎ Ctx) (h : Host)
        → Coherent h
        → Kept (of_bytes (inr wasm) r ctx) (
            with_key w mem_cache pre_cache dir can_write wasm
              (digest ("sha256:" <> sha256 wasm))
              r
              ctx
              h)
    unfolding load_by_key store_by_key
    keyed-Kept wasm r (inl e) h k = (k, refl)
    keyed-Kept wasm r (inr ctx) h k =
        let key : get_or_else ("sha256:" <> sha256 wasm)
              (strip_prefix "sha256:" ("sha256:" <> sha256 wasm))
            ≡ sha256 wasm =
          ap (get_or_else ("sha256:" <> sha256 wasm))
            (strip_prefix-append "sha256:" (sha256 wasm)) in
        subst (λ x. Kept (of_bytes (inr wasm) r (inr ctx)) (under x wasm r ctx h)) (sym key)
          (run_phases-Kept w mem_cache pre_cache dir can_write v wasm r ctx h k)

    pulled-Kept :
        (file : String ⊎ Bytes) (r : Request) (h : Host)
        → Coherent h
        → Kept (of_pulled file r) (run_pulled w mem_cache pre_cache dir can_write (some file) r h)
    unfolding run_component_with_key
    pulled-Kept (inl e) r h k = (k, refl)
    pulled-Kept (inr wasm) r h k = keyed-Kept wasm r (build_wasi_ctx r.perms r.env) h k

    run_call-Kept : (c : Call) (h : Host) → Coherent h → Kept (uncached c) (run_call c h)
    unfolding run_call run_component_measured run_from_oci
    run_call-Kept (local wasm_path r) h k =
        measured-Kept (read wasm_path) r (build_wasi_ctx r.perms r.env) h k
    run_call-Kept (pulled repository reference r) h k =
        pulled-Kept (pull repository reference) r h k

pub run_calls-uncached :
    (w : Wasm) (mem_cache : Lru w.Component) (pre_cache : Lru w.Pre) (dir : String)
    (can_write : String → Bool) (read : String → String ⊎ Bytes)
    (pull : String → String → String ⊎ Bytes) (calls : List Call)
    (h : FluxionHost w mem_cache pre_cache dir can_write)
    → IsReliable w mem_cache pre_cache can_write
    → IsCoherent w mem_cache pre_cache dir can_write h
    → IsCoherent w mem_cache pre_cache dir can_write
        (run_calls w mem_cache pre_cache dir can_write read pull calls h).1
      × ((run_calls w mem_cache pre_cache dir can_write read pull calls h).0
          ≡ map (uncached w mem_cache pre_cache dir can_write read pull) calls)
unfolding run_calls
run_calls-uncached w mem_cache pre_cache dir can_write read pull [] h v k = (k, refl)
run_calls-uncached w mem_cache pre_cache dir can_write read pull (c ∷ calls) h v k =
    let (k1, e) = run_call-Kept w mem_cache pre_cache dir can_write read pull v c h k in
    let rest =
      (run_calls w mem_cache pre_cache dir can_write read pull calls
        (run_call w mem_cache pre_cache dir can_write read pull c h).1).0 in
    let (k2, es) = run_calls-uncached w mem_cache pre_cache dir can_write read pull calls _ v k1 in
    (
      k2,
      ap (λ o. o ∷ rest) e
          ∙ ap (λ os. uncached w mem_cache pre_cache dir can_write read pull c ∷ os) es,
    )
