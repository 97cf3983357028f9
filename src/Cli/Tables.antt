-- ===== src/Cli/Tables.antt =====
-- The commands runs and worker of crates/fluxion-cli/src/main.rs on the store, and resolve_input.
use fluxion.Prelude.{
  ℕ, String, List, [], ◌∷◌, Option, none, some, Bool, nat_eq, decimal, if◌then◌else◌, ◌⊎◌, inl, inr,
}
use fluxion.Outcome.{Outcome, ok, err}
use fluxion.Workflow.Validate.{◌<>◌}
use fluxion.Expand.Defs.{get_or_else}
use fluxion.Scheduler.FanIn.{Bytes}
use fluxion.Store.Tables.{RunSummary, WorkerEntry, RunStore}
use fluxion.Store.Runs.{list_runs, prune}
use fluxion.Store.Workers.{register_worker, remove_worker, list_workers}
use fluxion.Cli.Report.{Texts, pad_end, repeat}

-- The text of --input, the file of --input-file, or standard input if it is no terminal. A parameter
-- gives why a source is not read, or its bytes.
unfoldable pub resolve_input :
    (String → Bytes)
    → (String → String ⊎ Bytes)
    → Bool
    → String ⊎ Bytes
    → Option String
    → Option String
    → Outcome String Bytes
resolve_input as_bytes read is_terminal stdin (some text) input_file = ok (as_bytes text)
resolve_input as_bytes read is_terminal stdin none (some path) = elim (read path) [
  | inl e ↦ err ("Cannot read '" <> path <> "': " <> e)
  | inr bytes ↦ ok bytes
]
resolve_input as_bytes read is_terminal stdin none none =
    if is_terminal then ok [] else elim stdin [ inl e ↦ err e | inr bytes ↦ ok bytes ]

unfoldable pub runs_prune : ℕ → ℕ → RunStore → List String × RunStore
unfolding prune decimal
runs_prune now before db =
    let (db', deleted) = prune now before db in
    (
      ("Pruned " <> decimal deleted <> " run(s) older than " <> decimal before <> " days.") ∷ [],
      db',
    )

unfoldable pub worker_register : ℕ → String → RunStore → List String × RunStore
unfolding register_worker
worker_register now url db = (("Registered: " <> url) ∷ [], register_worker now url db)

unfoldable pub worker_remove : String → RunStore → List String × RunStore
unfolding remove_worker
worker_remove url db =
    let (db', n) = remove_worker url db in
    ((if nat_eq n 0 then "Not found: " <> url else "Removed: " <> url) ∷ [], db')

module _ (t : Texts) where
  abbrev pub run_lines : List RunSummary → List String
  run_lines [] = []
  run_lines (r ∷ runs) =
      (pad_end t 28 r.id <> "  " <> pad_end t 20 r.workflow_name <> "  " <> r.status)
      ∷ run_lines runs

  abbrev pub run_table : List RunSummary → List String
  run_table [] = "No runs found." ∷ []
  run_table (r ∷ runs) =
      (pad_end t 28 "RUN ID" <> "  " <> pad_end t 20 "WORKFLOW" <> "  STATUS")
      ∷ repeat 60 "-"
      ∷ run_lines (r ∷ runs)

  unfoldable pub runs_list : ℕ → RunStore → List String
  unfolding list_runs
  runs_list limit db = run_table (list_runs limit db)

  abbrev pub worker_lines : List WorkerEntry → List String
  worker_lines [] = []
  worker_lines (w ∷ workers) =
      (pad_end t 40 w.url <> "  " <> t.to_uppercase (get_or_else "unknown" w.last_health))
      ∷ worker_lines workers

  abbrev pub worker_table : List WorkerEntry → List String
  worker_table [] = "No workers registered." ∷ []
  worker_table (w ∷ workers) =
      (pad_end t 40 "URL" <> "  STATUS") ∷ repeat 52 "-" ∷ worker_lines (w ∷ workers)

  unfoldable pub worker_list : RunStore → List String
  unfolding list_workers
  worker_list db = worker_table (list_workers db)
