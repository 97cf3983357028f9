-- ===== src/Cache/Transparent.antt =====
-- Runs with caches and runs without.
use fluxion.Prelude.{String, Map, Option, none, some, Bool, true, ◌⊎◌, inl, inr, ◌≡◌, refl, sym, ap}
use fluxion.Outcome.{Outcome, ok, err, panic, ◌>>=◌}
use fluxion.Scheduler.FanIn.{Bytes}
use fluxion.Cache.Disk.{Wasm, Lru, result, artifact, load_file, store_artifact}
use fluxion.Cache.Run.{
  Request, FluxionHost, in_mem, from_disk, compiled, in_pre, linked, called, run_phases,
}
use fluxion.Cache.Coherent.{
  IsLru, compile, link, IsDisk, IsKept, get-IsKept, put-IsKept, load_file-IsDisk,
  store_artifact-IsDisk,
}

-- No two components have one hash, the LRU caches keep what is put there, and the directory of the
-- cache can be written.
pub record IsReliable (w : Wasm) (mem_cache : Lru w.Component) (pre_cache : Lru w.Pre)
    (can_write : String → Bool) : Type 0 where
  pub collision_free : (a b : Bytes) → w.sha256 a ≡ w.sha256 b → a ≡ b
  pub mem_law : IsLru mem_cache
  pub pre_law : IsLru pre_cache
  pub writes : (file : String) → can_write file ≡ true

module _ (w : Wasm) (mem_cache : Lru w.Component) (pre_cache : Lru w.Pre) (dir : String)
    (can_write : String → Bool) where
  open w use {Component, Pre, Ctx, sha256, precompile, instantiate_pre, build_wasi_ctx}

  abbrev Host : Type 0
  Host = FluxionHost w mem_cache pre_cache dir can_write

  -- What the caches have under the hash of some bytes is what they are without a cache.
  pub record IsCoherent (h : Host) : Type 0 where
    pub disk : IsDisk w dir h.files
    pub mem : IsKept w mem_cache (compile w) h.mem
    pub pre : IsKept w pre_cache (link w) h.pre

  module _ (v : IsReliable w mem_cache pre_cache can_write) where
    -- The new caches are coherent, and the result is the one without them.
    abbrev Kept : {A : Type 0} → Outcome String A → Outcome String A × Host → Type 0
    Kept o r = IsCoherent r.1 × (r.0 ≡ o)

    in_mem-Kept :
        (wasm : Bytes) (o : Outcome String Component) (h : Host)
        → IsCoherent h
        → o ≡ compile w wasm
        → Kept (compile w wasm) (in_mem w mem_cache pre_cache dir can_write (sha256 wasm) o h)
    in_mem-Kept wasm (ok c) h k e = (
      record {
        disk = k.disk;
        mem =
            put-IsKept w v.collision_free mem_cache (compile w) wasm c h.mem v.mem_law (sym e)
              k.mem;
        pre = k.pre;
      },
      e,
    )
    in_mem-Kept wasm (err x) h k e = (k, e)
    in_mem-Kept wasm (panic f) h k e = (k, e)

    abbrev load_it : Bytes → Map Bytes → Option Component × Map Bytes
    load_it wasm files = load_file w (artifact dir (sha256 wasm)) files

    abbrev store_it : Bytes → Map Bytes → Outcome String Component × Map Bytes
    store_it wasm files =
        store_artifact w can_write (artifact dir (sha256 wasm)) (precompile wasm) files

    from_disk-Kept :
        (wasm : Bytes) (r : Option Component × Map Bytes) (h : Host)
        → IsCoherent h
        → IsDisk w dir r.1
        → ((c : Component) → r.0 ≡ some c → compile w wasm ≡ ok c)
        → Kept
            (compile w wasm)
            (from_disk w mem_cache pre_cache dir can_write (sha256 wasm) r (store_it wasm) h)
    from_disk-Kept wasm (some c, files) h k d e =
        in_mem-Kept wasm (ok c) (record h { files = files })
          (record { disk = d; mem = k.mem; pre = k.pre }) (sym (e c refl))
    from_disk-Kept wasm (none, files) h k d e =
        let (d', made) =
          store_artifact-IsDisk w v.collision_free dir can_write wasm files v.writes d in
        in_mem-Kept wasm (store_it wasm files).0 (record h { files = (store_it wasm files).1 })
          (record { disk = d'; mem = k.mem; pre = k.pre }) made

    compiled-Kept :
        (wasm : Bytes) (h : Host)
        → IsCoherent h
        → Kept (compile w wasm) (
            compiled w mem_cache pre_cache dir can_write
              (sha256 wasm)
              (load_it wasm)
              (store_it wasm)
              h)
    compiled-Kept wasm h k = by (mem_cache.get (sha256 wasm) h.mem).0 refl
      where
        h' : Host
        h' = record h { mem = (mem_cache.get (sha256 wasm) h.mem).1 }

        k' : IsCoherent h'
        k' = record {
          disk = k.disk;
          mem =
              get-IsKept w v.collision_free mem_cache (compile w) (sha256 wasm) h.mem v.mem_law
                k.mem;
          pre = k.pre;
        }

        by :
            (found : Option Component)
            → (mem_cache.get (sha256 wasm) h.mem).0 ≡ found
            → Kept (compile w wasm) (elim found [
              | some c ↦ (ok c, h')
              | none ↦
                  from_disk w mem_cache pre_cache dir can_write
                    (sha256 wasm)
                    (load_it wasm h.files)
                    (store_it wasm)
                    h'
            ])
        by (some c) e = (k', sym (k.mem wasm c e))
        by none e =
            let (d, found) = load_file-IsDisk w v.collision_free dir wasm h.files k.disk in
            from_disk-Kept wasm (load_it wasm h.files) h' k' d found

    in_pre-Kept :
        (wasm : Bytes) (s : String ⊎ Pre) (h : Host)
        → IsCoherent h
        → link w wasm ≡ result s
        → Kept (link w wasm) (in_pre w mem_cache pre_cache dir can_write (sha256 wasm) s h)
    in_pre-Kept wasm (inl x) h k e = (k, sym e)
    in_pre-Kept wasm (inr p) h k e = (
      record {
        disk = k.disk;
        mem = k.mem;
        pre = put-IsKept w v.collision_free pre_cache (link w) wasm p h.pre v.pre_law e k.pre;
      },
      sym e,
    )

    linked-Kept :
        (wasm : Bytes) (o : Outcome String Component) (h : Host)
        → IsCoherent h
        → o ≡ compile w wasm
        → Kept (link w wasm) (linked w mem_cache pre_cache dir can_write (sha256 wasm) o h)
    linked-Kept wasm (err x) h k e = (k, ap (λ o. o >>= λ c. result (instantiate_pre c)) e)
    linked-Kept wasm (panic f) h k e = (k, ap (λ o. o >>= λ c. result (instantiate_pre c)) e)
    linked-Kept wasm (ok c) h k e = by (pre_cache.get (sha256 wasm) h.pre).0 refl
      where
        h' : Host
        h' = record h { pre = (pre_cache.get (sha256 wasm) h.pre).1 }

        k' : IsCoherent h'
        k' = record {
          disk = k.disk;
          mem = k.mem;
          pre =
              get-IsKept w v.collision_free pre_cache (link w) (sha256 wasm) h.pre v.pre_law k.pre;
        }

        by :
            (found : Option Pre)
            → (pre_cache.get (sha256 wasm) h.pre).0 ≡ found
            → Kept (link w wasm) (elim found [
              | some p ↦ (ok p, h')
              | none ↦
                  in_pre w mem_cache pre_cache dir can_write (sha256 wasm) (instantiate_pre c) h'
            ])
        by (some p) q = (k', sym (k.pre wasm p q))
        by none q =
            in_pre-Kept wasm (instantiate_pre c) h' k'
              (sym (ap (λ o. o >>= λ d. result (instantiate_pre d)) e))

    pub run_phases-Kept :
        (wasm : Bytes) (r : Request) (ctx : Ctx) (h : Host)
        → IsCoherent h
        → Kept (called w mem_cache pre_cache dir can_write r ctx (link w wasm)) (
            run_phases w mem_cache pre_cache dir can_write
              (sha256 wasm)
              (load_it wasm)
              (store_it wasm)
              r
              ctx
              h)
    run_phases-Kept wasm r ctx h k =
        let c =
          compiled w mem_cache pre_cache dir can_write (sha256 wasm) (load_it wasm) (store_it wasm)
            h in
        let (k1, e1) = compiled-Kept wasm h k in
        let (k2, e2) = linked-Kept wasm c.0 c.1 k1 e1 in
        (k2, ap (called w mem_cache pre_cache dir can_write r ctx) e2)
