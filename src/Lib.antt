-- ===== src/Lib.antt =====
-- Fluxion runs workflows of Wasm components. A workflow is a YAML file of jobs that depend on one
-- another; `foreach` makes a job of each item of a JSON array, and `input_from` collects what
-- such jobs return. This development follows the part of the program that decides which jobs run,
-- when and where.
--
-- The parts, and the files of the repository that they follow:
-- - Workflow: crates/fluxion-core/src/workflow.rs. Workflow.Types has the types and their
--   accessors, Workflow.Validate has `validate`, `from_file` and the reports, Workflow.Reduce
--   reads `reduce`, Workflow.Cycle has the depth-first search `has_cycle`. Acyclic, Decides and
--   Valid prove what these answer.
-- - Dag: crates/fluxion-core/src/dag.rs. Dag.Kahn has `kahn_sort`, Dag.Build the graph with
--   `build`, `roots`, `insert_nodes` and `remove_node`. Order, Notify, Loop, Positions,
--   Consistent, Sort and Correct hold the specification (a topological order) and the proofs.
-- - Expand: crates/fluxion-core/src/expand.rs. Expand.Defs has `expand_foreach`,
--   `expand_foreach_dynamic` and `extract_jsonpath_array`; Steps and Rewrite describe its two
--   loops, Correct and Known its result.
-- - State: crates/fluxion-core/src/state.rs and runner.rs, the status of a job and the results.
-- - Scheduler: crates/fluxion-host/src/scheduler.rs. When has `eval_when`, Workers has
--   `resolve_workers` and the strategies, FanIn has `build_fanin_input`, Run, Loop and Start have
--   the body of `execute`: a record Exec holds its local variables, and each statement that
--   changes them is a function on it. Pool has `effective_workers`, Failover has
--   `run_with_failover`, Launch has `launch`, and Execute puts `execute`, `run_inner`,
--   `downstream_inclusive` and `retry_inner` together, which Entry gives to others. History,
--   Ordered, Safe, Siblings, Downstream, Retry, Launched and Outputs hold the proofs.
-- - Store: crates/fluxion-core/src/store.rs. Tables has the rows and the SQL statements as
--   functions on lists of rows, Runs, Workers and Schedules the methods of RunStore on them, and
--   Health the `health_check_all` of crates/fluxion-host/src/worker_registry.rs. Status, Reload,
--   Claims and Prune hold the proofs.
-- - Registry: crates/fluxion-core/src/registry.rs. Reference has OciRef with `parse` and
--   `to_string_repr`, Entries the methods of RegistryStore (`upsert_entry` is upsert,
--   `delete_entry` delete). Roundtrip and Resolve hold the proofs.
-- - Oci: crates/fluxion-host/src/oci.rs. Target has `parse_oci_ref`, Client the requests of
--   OciClient (`checked` is a request whose answer has to be a success, `pull_ref` and `push_ref`
--   are the functions `pull` and `push` of the module). Targets and Verified hold the proofs.
-- - Worker: crates/fluxion-worker/src/lib.rs. Handlers has a function for each HTTP handler;
--   Steps has what can happen on a worker as a relation on its states. Table, Active, Cas and
--   Jobs hold the proofs.
-- - Host: crates/fluxion-host/src/lib.rs, what a run of a component gives and the check of its
--   digest; Host.Network has the network allowlist, Allowlist its proof.
-- - Remote: crates/fluxion-host/src/remote.rs. Client has `run_remote`, Async `run_remote_async`
--   (`poll` is its loop), Worker a worker's handlers as the network that answers. Ends and Served
--   hold the proofs.
-- - Cache: crates/fluxion-host/src/cache.rs and the runs of a component in lib.rs. Disk has the
--   keys and the cache on disk, Run the host with its three caches (`run_component_measured`,
--   `run_component_with_key`, `run_from_oci`, `run_component`). Coherent, Transparent and Runs
--   hold the proofs.
-- - Cli: the commands of crates/fluxion-cli/src. For main.rs, Schedule has the daemon
--   (`fire_due_schedules`) and the commands on schedules, Bench and Validate these commands, the
--   latter with `check_yaml_warnings` of crates/fluxion-core/src/workflow.rs, and Order, Report
--   and Tables those that print, a list of lines each. Mcp and Tools have the MCP server of
--   mcp.rs, its messages and its tools, Watch the loop of watch.rs, Packages the commands of
--   registry.rs (`pull_command` and `push_command` are its pull and push). Rows, Firing,
--   Percentiles, Verdict, Messages, Served and Watched hold the proofs, Order also its own.
-- - Web: crates/fluxion-host/src/ui.rs and api.rs. Ui has the pages and the bodies of the API's
--   answers, from the store, Escaped the proofs on the pages.
-- - Prelude.Text has the functions of str that these files share.
-- - Tests: small inputs, and the theorems at them.
--
-- How they interact: `execute` expands the workflow, builds the graph of the result and starts
-- the roots. A job that ends sends an event; the loop writes the job's new status to the store
-- and releases the job's dependents. A run here is `run_events` on the list of the events in the
-- order in which they arrive, so that a statement about all lists covers every interleaving of
-- jobs.
--
-- A run's statuses reach the store by `upsert_job` and come back by `load_run`, which a retry
-- starts from. A host offers remote jobs to the workers of the store that are not marked as
-- unreachable. On a worker, POST /jobs stores an entry and starts a task; the task's end is a
-- step of its own, so that a sequence of steps stands for every order of requests and endings.
--
-- Conventions. A call that can fail or panic returns an Outcome: `ok`, `err` for an error that
-- the code returns, and `panic` for one that it does not (a missing key of an index expression,
-- an underflow, a division by zero, a deadline that an Instant cannot hold). A task that waits
-- for ever is a `panic` of the model too, and so is a loop without fuel. A map is the list of its
-- entries in the order in which it is iterated; IsMap says that its keys differ. The theorems hold
-- for every order, where a map that is built from another one is iterated in the order of the
-- other. Numbers are natural numbers; the counters of the round robin and of a worker and the
-- sizes of `launch` and `prune` wrap at 2^64 and the sums of weights at 2^32, as in a release
-- build. A table is the list of its rows in the order of their row ids; ORDER BY is stable, and
-- ties keep this order. SQLite fails only for a primary key that is there already. Texts of
-- errors are shortened.
--
-- Fuel. The loop of `kahn_sort` has a round for each job and one for the empty queue, and
-- `has_cycle` a level for each job and one more; both are proved to be enough, as is the fuel of
-- `downstream_inclusive`, one round for each entry of the dependents and two more, and that of
-- `poll`, a round for each second of the timeout and one more. The MCP server has a round for
-- each byte of its input and one more, which is proved to be enough for a stream of messages. The
-- cascade of skipped jobs has two rounds more than there are jobs, since a job is queued only
-- when it is marked as skipped; a run that exceeded this would panic in the model.
--
-- Parameters: serde_json and JSONPath (Json, Reducer), the store's answers (`accepts` of World),
-- the health of workers (`health`), what a remote worker replies, the SRV lookup and the worker
-- registry (Directory), the row of the run (RunRow) and what a job reports (the events); for `launch` what the host, a registry and the workers answer,
-- files and the clock (Machinery), and for the allowlist addresses, their texts and DNS (Net).
-- For the OCI client the HTTP client, JSON, base64 and SHA-256 (Crates), where a registry is what
-- it answers to a request and its next state; for a worker base64, SHA-256, the paths of its
-- store, files, what a write that fails leaves, the Wasm host and the longest body that axum takes
-- (Machine; the objects of JSON between a host and a worker are records); for the registry the hash of an id. For a job on a
-- worker HTTP, the JSON of an answer as far as it is read, and the clock (Http); for the caches
-- Wasmtime and the LRU crate (Wasm, Lru); for the schedules cron expressions, dates and the run
-- of a workflow (Env), and for the MCP server JSON, UTF-8 and the runs of the scheduler (Server).
--
-- Not modelled: printing to the terminal, how Wasmtime runs a component, opening the databases, the
-- routers and TLS of the HTTP servers, the metrics and routes of the HTTP API, the arguments of the
-- command line and the parsing of YAML: input and output around the parts above, or calls of
-- other libraries.
mod Prelude
pub mod Outcome
pub mod Workflow
pub mod Dag
pub mod Expand
pub mod State
pub mod Store
pub mod Registry
pub mod Worker
pub mod Host
pub mod Remote
pub mod Cli
pub mod Cache
pub mod Web
pub mod Answers
pub mod Oci
pub mod Scheduler
mod Tests
