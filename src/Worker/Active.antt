-- ===== src/Worker/Active.antt =====
-- The count of active jobs, which other hosts read to balance their load.
use fluxion.Prelude.{
  ◌+◌, ◌%◌, ◌^◌, ◌<◌, String, Option, none, some, Bool, true, false, lookup, if◌then◌else◌, ◌≡◌,
  refl, arith, ap,
}
use fluxion.Outcome.{Outcome, ok, err, panic}
use fluxion.Host.{Ran, returned, failed, joined}
use fluxion.Scheduler.FanIn.{Bytes}
use fluxion.Worker.Handlers.{
  Machine, WorkerState, RunRequest, Refusal, component_of, by_digest, component_bytes, prepared,
  run_found, run_result, ran, handle_run, inner_found, inner_result, run_request_inner,
}

component_of-active :
    (m : Machine) (d sent : Option String) (w : WorkerState)
    → (component_of m d sent w).1.active ≡ w.active
component_of-active m (some d) sent w = by (lookup (m.cas_path d) w.files)
  where
    by : (found : Option Bytes) → (by_digest m d found sent w).1.active ≡ w.active
    by (some bytes) = refl
    by none = refl
component_of-active m none sent w = refl

prepared-active :
    (m : Machine) (req : RunRequest) (w : WorkerState) → (prepared m req w).1.active ≡ w.active
unfolding prepared component_bytes
prepared-active m req w = component_of-active m req.component_sha256 req.component w

-- A job of POST /run is no longer counted as active when its answer is sent, whether it succeeds,
-- fails, or is refused before it runs. The count is assumed to fit into 64 bits.
pub handle_run-active :
    (m : Machine) (req : RunRequest) (w : WorkerState)
    → w.active < 2 ^ 64
    → (handle_run m req w).1.active ≡ w.active
unfolding handle_run
handle_run-active m req w h =
    run (prepared m req w).0 (prepared m req w).1 (prepared-active m req w)
  where
    ended :
        (r : Ran) (v : WorkerState) → v.active ≡ w.active → (run_result m r v).1.active ≡ w.active
    ended (returned output t) v e = omega (arith, e)
    ended (failed error) v e = omega (arith, e)
    ended (joined error) v e = omega (arith, e)

    run :
        (found : Outcome Refusal (Bytes × Bytes)) (v : WorkerState)
        → v.active ≡ w.active
        → (run_found m req found v).1.active ≡ w.active
    run (ok (component, input)) v e = ended (ran m req component input) v e
    run (err error) v e = e
    run (panic f) v e = e

-- Whether the task that runs the component panics.
abbrev is_joined : Ran → Bool
is_joined (joined error) = true
is_joined _ = false

abbrev pub panics : Machine → RunRequest → Outcome Refusal (Bytes × Bytes) → Bool
panics m req (ok (component, input)) = is_joined (ran m req component input)
panics m req _ = false

-- A submitted job is no longer counted as active when it has ended, unless the task that ran its
-- component panicked: then it still is. The count is assumed to fit into 64 bits.
pub run_request_inner-active :
    (m : Machine) (req : RunRequest) (w : WorkerState)
    → w.active < 2 ^ 64
    → (run_request_inner m req w).1.active
      ≡ (if panics m req (prepared m req w).0 then (w.active + 1) % 2 ^ 64 else w.active)
unfolding run_request_inner
run_request_inner-active m req w h =
    run (prepared m req w).0 (prepared m req w).1 (prepared-active m req w)
  where
    ended :
        (r : Ran) (v : WorkerState)
        → v.active ≡ w.active
        → (inner_result m r v).1.active
          ≡ (if is_joined r then (w.active + 1) % 2 ^ 64 else w.active)
    ended (returned output t) v e = omega (arith, e)
    ended (failed error) v e = omega (arith, e)
    ended (joined error) v e = ap (λ n. (n + 1) % 2 ^ 64) e

    run :
        (found : Outcome Refusal (Bytes × Bytes)) (v : WorkerState)
        → v.active ≡ w.active
        → (inner_found m req found v).1.active
          ≡ (if panics m req found then (w.active + 1) % 2 ^ 64 else w.active)
    run (ok (component, input)) v e = ended (ran m req component input) v e
    run (err error) v e = e
    run (panic f) v e = e
