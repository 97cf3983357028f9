-- ===== src/Tests/Caches.antt =====
-- Tests of the caches of components.
use fluxion.Prelude.{
  List, [], ◌∷◌, map, Map, some, true, lookup, insert, lookup-insert, inl, inr, ◌≡◌, refl, sym, ap,
  ◌∙◌, arith, String-cases,
}
use fluxion.Workflow.Types.{default_permissions}
use fluxion.Scheduler.FanIn.{Bytes}
use fluxion.Cache.Disk.{Wasm, Lru, output}
use fluxion.Cache.Run.{Caches, Request}
use fluxion.Cache.Coherent.{IsLru}
use fluxion.Cache.Transparent.{IsReliable, IsCoherent}
use fluxion.Cache.Runs.{Call, local, pulled, run_calls, uncached, run_calls-uncached}
use fluxion.Tests.Remotes.{written, read_back, read_back-written}

-- A component is its bytes, and gives its input and itself.
abbrev wasm : Wasm
wasm = record {
  Component = Bytes;
  Pre = Bytes;
  Ctx = Unit;
  Instance = Bytes;
  sha256 = written;
  precompile = inr;
  deserialize = some;
  instantiate_pre = inr;
  build_wasi_ctx = λ p e. inr tt;
  instantiate = λ p s. inr p;
  call_process = λ i input. output (7 ∷ i);
}

-- A cache that forgets nothing.
abbrev cache : Lru Bytes
cache = record { Cache = Map Bytes; get = λ k c. (lookup k c, c); put = λ k a c. insert k a c }

cache-IsLru : IsLru cache
cache-IsLru = record {
  looked_up = λ j k c. refl;
  was_put = λ j k a b c h. elim (String-cases k j) [
    | inl (same, t) ↦ inl (sym same, ground (arith, h, t, lookup-insert k j a c))
    | inr (_, t) ↦ inr (ground (arith, h, t, lookup-insert k j a c))
  ];
}

wasm-IsReliable : IsReliable wasm cache cache (λ f. true)
wasm-IsReliable = record {
  collision_free = λ a b e.
      let same = sym (read_back-written a) ∙ (ap read_back e ∙ read_back-written b) in cc same;
  mem_law = cache-IsLru;
  pre_law = cache-IsLru;
  writes = λ f. refl;
}

abbrev fresh : Caches (Map Bytes) (Map Bytes)
fresh = record { files = []; mem = []; pre = [] }

fresh-IsCoherent : IsCoherent wasm cache cache "c" (λ f. true) fresh
fresh-IsCoherent = record { disk = λ w b c h. cc; mem = λ w a h. cc; pre = λ w a h. cc }

abbrev request : Request
request = record {
  input = [];
  perms = default_permissions;
  env = [];
  times = record { compile = 1; instantiate = 1; execute = 1 };
}

abbrev calls : List Call
calls = local "a.wasm" request ∷ pulled "hello" "v1" request ∷ local "gone.wasm" request ∷ []

run_calls-uncached_example :
    IsCoherent wasm cache cache "c"
      (λ f. true)
      (run_calls wasm cache cache "c"
        (λ f. true)
        (λ p. inr (1 ∷ []))
        (λ n t. inr (1 ∷ []))
        calls
        fresh).1
    × ((run_calls wasm cache cache "c"
          (λ f. true)
          (λ p. inr (1 ∷ []))
          (λ n t. inr (1 ∷ []))
          calls
          fresh).0
        ≡ map
            (uncached wasm cache cache "c" (λ f. true) (λ p. inr (1 ∷ [])) (λ n t. inr (1 ∷ [])))
            calls)
run_calls-uncached_example =
    run_calls-uncached wasm cache cache "c" (λ f. true) (λ p. inr (1 ∷ [])) (λ n t. inr (1 ∷ []))
      calls fresh wasm-IsReliable fresh-IsCoherent
