-- ===== src/Tests/Launches.antt =====
-- Tests of launching a job.
use fluxion.Prelude.{
  ◌*◌, ◌≤◌, String, [], ◌∷◌, none, some, true, false, decimal, to_lower, eq_ignore_ascii_case, ◌≡◌,
  refl, inr, arith,
}
use fluxion.Outcome.{ok}
use fluxion.State.{succeeded}
use fluxion.Workflow.Types.{JobDefinition, Workflow, local, remote}
use fluxion.Host.{JobMetrics, returned, verify_component_digest}
use fluxion.Scheduler.FanIn.{Bytes}
use fluxion.Scheduler.Workers.{WorkerInfo}
use fluxion.Scheduler.Failover.{answered, refused}
use fluxion.Scheduler.Launch.{
  Machinery, Sent, in_time, event, component_path, prepare, run_job, resolved, finished, launch,
}
use fluxion.Scheduler.Launched.{IsReport, launch-IsReport}
use fluxion.Scheduler.Outputs.{input_of, launch-IsVerified, launch-output_size_limit}
use fluxion.Tests.Samples.{job, workflow}

abbrev pub metrics : JobMetrics
metrics = record { compile = 1_000_000; instantiate = 2000; execute = 3000 }

-- A pulled component is the file "tmp" with one byte, whose digest is "AB".
abbrev pub machinery : Machinery
machinery = record {
  permits = 4;
  resolve_network_allow = λ a. [];
  pull = λ r. some (7 ∷ []);
  write_tmp = λ b. some "tmp";
  read = λ p. some (7 ∷ []);
  sha256 = λ b. "AB";
  run_component = λ p i q e. in_time (returned (1 ∷ 2 ∷ []) metrics);
  run_remote = λ w p i q e. refused "unreachable" true;
  run_remote_async = λ w p i q e. ok (answered ([], metrics));
  failover_in_time = true;
  into_bytes = λ s. [];
  elapsed = 5;
}

abbrev pulled : JobDefinition
pulled = record (job []) {
  oci_ref = some "h/a";
  component_sha256 = some "ab";
  output_size_limit_mb = some 1;
}

abbrev flow : Workflow
flow = workflow (("p", pulled) ∷ ("r", record (job []) { executor = remote }) ∷ [])

abbrev sent : Sent
sent = record { event = event "p" (succeeded 5) (some (1 ∷ 2 ∷ [])) metrics; decremented = 0 }

pulled-launch : launch machinery "p" flow [] none ≡ ok sent
unfolding launch prepare verify_component_digest eq_ignore_ascii_case to_lower run_job finished
    decimal
pulled-launch = refl

abbrev worker : WorkerInfo
worker = record { url = "http://w"; tls = none }

launch-IsReport_example :
    (s : Sent) × (launch machinery "r" flow (worker ∷ []) none ≡ ok s) × IsReport "r" s.event
launch-IsReport_example =
    launch-IsReport machinery "r" flow (record (job []) { executor = remote }) (worker ∷ []) none
      refl (inr (worker, [], refl)) (omega arith) (λ w p i. tt)

launch-IsVerified_example :
    (path : String) × (bytes : Bytes) × (t : JobMetrics) × (component_path machinery
        (some "h/a")
        "job.wasm"
      ≡ ok path)
    × (machinery.read path ≡ some bytes)
    × (eq_ignore_ascii_case (machinery.sha256 bytes) "ab" ≡ true)
    × (run_job machinery pulled.executor false [] path
          (input_of machinery pulled none)
          (resolved machinery pulled.permissions)
          []
        ≡ ok (1 ∷ 2 ∷ [], t))
    × (pulled.executor ≡ local
        → machinery.run_component path
            (input_of machinery pulled none)
            (resolved machinery pulled.permissions)
            []
          ≡ in_time (returned (1 ∷ 2 ∷ []) t))
launch-IsVerified_example =
    launch-IsVerified machinery "p" flow pulled [] none sent (1 ∷ 2 ∷ []) "ab" refl pulled-launch
      refl refl

launch-output_size_limit_example : 2 ≤ 1 * 1024 * 1024
launch-output_size_limit_example =
    launch-output_size_limit machinery "p" flow pulled [] none sent (1 ∷ 2 ∷ []) refl pulled-launch
      refl (omega arith)
