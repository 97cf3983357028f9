-- ===== src/Worker/Steps.antt =====
-- What can happen on a worker, one step after another, in any order.
use fluxion.Prelude.{String, Map, [], some, false, lookup, contains_key, ◌≡◌}
use fluxion.Scheduler.FanIn.{Bytes}
use fluxion.Worker.Handlers.{
  Machine, WorkerState, RunRequest, handle_cas_put, handle_run, handle_submit_job, run_task,
}

-- A worker that has just started, with the store of components that earlier ones have left.
abbrev pub fresh_worker : Map Bytes → WorkerState
fresh_worker files = record {
  files = files;
  jobs = [];
  tasks = [];
  active = 0;
  cas_hits = 0;
  cas_misses = 0;
}

-- The id of a submitted job is new; a task may end at any time.
pub data Step (m : Machine) : WorkerState → WorkerState → Type 0 where
  uploaded :
      {w : WorkerState} (sha256 : String) (body : Bytes)
      → Step m w (handle_cas_put m sha256 body w).1
  called : {w : WorkerState} (req : RunRequest) → Step m w (handle_run m req w).1
  submitted :
      {w : WorkerState} (id : String) (req : RunRequest)
      → contains_key id w.jobs ≡ false
      → Step m w (handle_submit_job m id req w)
  ended :
      {w : WorkerState} (id : String) (req : RunRequest)
      → lookup id w.tasks ≡ some req
      → Step m w (run_task m id req w)

pub data Steps (m : Machine) (v : WorkerState) : WorkerState → Type 0 where
  still : Steps m v v
  and_then : {w x : WorkerState} → Steps m v w → Step m w x → Steps m v x

-- What each step preserves holds after any number of them.
pub Steps-preserve :
    (m : Machine) (P : WorkerState → Type 0)
    → ((w x : WorkerState) → Step m w x → P w → P x)
    → (v : WorkerState) {x : WorkerState} → Steps m v x
    → P v
    → P x
Steps-preserve m P keeps v still p = p
Steps-preserve m P keeps v (and_then {w} {x} steps s) p =
    keeps w x s (Steps-preserve m P keeps v steps p)
