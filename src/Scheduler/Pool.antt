-- ===== src/Scheduler/Pool.antt =====
-- Which workers a run may use: effective_workers and the functions around it in
-- crates/fluxion-host/src/scheduler.rs. The SRV lookup, the registry and GET /health are parameters.
use fluxion.Prelude.{
  String, List, [], ◌∷◌, ◌++◌, map, Option, none, some, Bool, ◌==◌, if◌then◌else◌,
}
use fluxion.Workflow.Types.{TlsConfig, WorkerConfig, worker_url, worker_tls, Workflow}
use fluxion.Scheduler.Workers.{WorkerInfo}

-- The outside that is asked for workers.
pub record Directory : Type 0 where
  pub resolve_srv : String → List String
  pub registered_worker_urls : List String
  pub is_healthy : String → Bool

-- Those that answer; what is written down about the health of each is left out.
unfoldable pub health_check_workers : (String → Bool) → List String → List String
health_check_workers is_healthy [] = []
health_check_workers is_healthy (url ∷ urls) =
    let rest = health_check_workers is_healthy urls in if is_healthy url then url ∷ rest else rest

abbrev pub urls_of : List WorkerConfig → List String
urls_of [] = []
urls_of (w ∷ ws) = worker_url w ∷ urls_of ws

-- The workers of the workflow and of its SRV record, or the registered ones if there are none.
unfoldable pub candidates : Directory → Workflow → List String
candidates d wf =
    let found =
      urls_of wf.workers ++ (elim wf.workers_srv [ none ↦ [] | some srv ↦ d.resolve_srv srv ]) in
    elim found [ [] ↦ d.registered_worker_urls | url ∷ urls ↦ url ∷ urls ]

unfoldable pub effective_workers : Directory → Workflow → List String
unfolding candidates health_check_workers
effective_workers d wf = health_check_workers d.is_healthy (candidates d wf)

-- The TLS settings of the first worker of the workflow with the address.
unfoldable pub tls_for : String → List WorkerConfig → Option TlsConfig
tls_for url [] = none
tls_for url (w ∷ ws) =
    let rest = tls_for url ws in if worker_url w == url then worker_tls w else rest

unfoldable pub effective_workers_info : Directory → Workflow → List WorkerInfo
unfolding effective_workers tls_for
effective_workers_info d wf =
    map (λ url. record { url = url; tls = tls_for url wf.workers }) (effective_workers d wf)
