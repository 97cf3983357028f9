-- ===== src/Scheduler/Workers.antt =====
-- resolve_workers, pick_weighted, pick_least_conn and run_with_failover of
-- crates/fluxion-host/src/scheduler.rs. The replies of remote workers are parameters.
use fluxion.Prelude.{
  ℕ, zero, suc, ◌+◌, ◌%◌, ◌^◌, ◌-◌, String, List, [], ◌∷◌, Option, none, some, length, get_elem?,
  lookup, ltb, nat_eq, if◌then◌else◌,
}
use fluxion.Outcome.{Outcome, ok, panic, missing_key, division_by_zero, ◌>>=◌}
use fluxion.Workflow.Types.{TlsConfig, WorkerConfig, worker_weight, worker_url, Workflow}

pub data LbStrategy : Type 0 where
  round_robin weighted least_conn : LbStrategy

pub record WorkerInfo : Type 0 where
  pub url : String
  pub tls : Option TlsConfig

-- The counter wraps around at 2^64.
abbrev pub fetch_add : ℕ → ℕ
fetch_add rr = (rr + 1) % 2 ^ 64

-- The sum of the weights, in 32 bits.
unfoldable pub total_weight : ℕ → List WorkerConfig → ℕ
unfolding worker_weight
total_weight acc [] = acc
total_weight acc (w ∷ ws) = total_weight ((acc + worker_weight w) % 2 ^ 32) ws

-- The first index at which the sum of the weights so far exceeds `slot`, and 0 if there is none.
unfoldable pub find_slot : ℕ → ℕ → ℕ → List WorkerConfig → ℕ
unfolding worker_weight
find_slot slot i acc [] = 0
find_slot slot i acc (w ∷ ws) =
    let acc' = (acc + worker_weight w) % 2 ^ 32 in
    let later = find_slot slot (i + 1) acc' ws in if ltb slot acc' then i else later

abbrev rem : ℕ → ℕ → Outcome ⊥ ℕ
rem a n = if nat_eq n 0 then panic division_by_zero else ok (a % n)

unfoldable pub pick_weighted : List WorkerConfig → ℕ → Outcome ⊥ ℕ
unfolding total_weight find_slot
pick_weighted workers rr =
    if nat_eq (total_weight 0 workers) 0
    then rem rr (length workers)
    else ok (find_slot (rr % 2 ^ 32 % total_weight 0 workers) 0 0 workers)

-- What GET /health answers: nothing, an answer without a count, or a count of active jobs.
abbrev pub Health : Type 0
Health = String → Option (Option ℕ)

abbrev pub max_u64 : ℕ
max_u64 = 2 ^ 64 - 1

abbrev active_of : Option ℕ → ℕ
active_of none = max_u64
active_of (some n) = n

-- `best_idx` and `best_count` are the loop's variables.
least_from : Health → ℕ → ℕ → ℕ → List WorkerConfig → ℕ
unfolding worker_url
least_from health i best_idx best_count [] = best_idx
least_from health i best_idx best_count (w ∷ ws) =
    let skip = least_from health (i + 1) best_idx best_count ws in
    elim (health (worker_url w)) [
      | none ↦ skip
      | some answer ↦
          let better = least_from health (i + 1) i (active_of answer) ws in
          if ltb (active_of answer) best_count then better else skip
    ]

unfoldable pub pick_least_conn : Health → List WorkerConfig → ℕ
unfolding least_from
pick_least_conn health workers = least_from health 0 0 max_u64 workers

-- workers[(start + i) % n] for the `k` indices from `i` on.
unfoldable pub rotation : List WorkerInfo → ℕ → ℕ → ℕ → List WorkerInfo
rotation workers start i zero = []
rotation workers start i (suc k) =
    let rest = rotation workers start (i + 1) k in
    elim (get_elem? workers ((start + i) % length workers)) [ none ↦ rest | some w ↦ w ∷ rest ]

-- The start of the rotation, and the counter afterwards.
unfoldable pub pick_start : Health → Workflow → ℕ → ℕ → LbStrategy → Outcome ⊥ (ℕ × ℕ)
unfolding pick_weighted pick_least_conn
pick_start health wf n rr round_robin = do r ← rem rr n; ok (r, fetch_add rr)
pick_start health wf n rr weighted = do i ← pick_weighted wf.workers rr; ok (i, fetch_add rr)
pick_start health wf n rr least_conn = ok (pick_least_conn health wf.workers, rr)

-- All workers, from the one that the strategy picks on.
unfoldable pub rotate_from :
    Health → Workflow → List WorkerInfo → ℕ → LbStrategy → Outcome ⊥ (List WorkerInfo × ℕ)
unfolding pick_start rotation
rotate_from health wf [] rr strategy = ok ([], rr)
rotate_from health wf (w ∷ ws) rr strategy = do
  (start, rr') ← pick_start health wf (length (w ∷ ws)) rr strategy
  ok (rotation (w ∷ ws) start 0 (length (w ∷ ws)), rr')

-- The workers to try for a job, in order, and the counter afterwards.
unfoldable pub resolve_workers :
    Health → String → Workflow → List WorkerInfo → ℕ → LbStrategy → Outcome ⊥ (List WorkerInfo × ℕ)
unfolding rotate_from
resolve_workers health job_id wf workers rr strategy = elim (lookup job_id wf.jobs) [
  | none ↦ panic missing_key
  | some def ↦ elim def.worker [
    | some url ↦ ok (record { url = url; tls = none } ∷ [], rr)
    | none ↦ rotate_from health wf workers rr strategy
  ]
]
