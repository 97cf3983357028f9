-- ===== src/Cli/Report.antt =====
-- The commands of crates/fluxion-cli/src/main.rs that print: run --dry-run and --metrics, dot, status,
-- logs, schedule list, runs and worker. Text as far as it depends on Unicode or on floating-point
-- numbers, and JSON, are parameters.
use fluxion.Prelude.{
  ℕ, zero, suc, ◌+◌, ◌-◌, ◌/◌, ◌%◌, ◌^◌, String, List, [], ◌∷◌, ◌++◌, map, Option, none, some, Bool,
  not, keep, leb, ltb, decimal, if◌then◌else◌,
}
use fluxion.Outcome.{Outcome, ok, ◌>>=◌}
use fluxion.Workflow.Validate.{◌<>◌}
use fluxion.Expand.Defs.{get_or_else}
use fluxion.State.{JobResult}
use fluxion.Store.Tables.{RunDetail, JobDetail, ScheduleEntry, RunStore, StoreError}
use fluxion.Store.Runs.{get_run, get_run_jobs}
use fluxion.Store.Schedules.{list_schedules}
use fluxion.Cli.Bench.{fmt_us}
use fluxion.Cli.Tools.{elapsed_of}

-- `len` is the length in bytes, `chars` that in characters, `fixed n d` the text of n / d with two
-- decimals.
pub record Texts : Type 0 where
  pub len : String → ℕ
  pub chars : String → ℕ
  pub to_uppercase : String → String
  pub fixed : ℕ → ℕ → String
  pub to_rfc3339 : ℕ → Option String

-- text.repeat(n)
abbrev pub repeat : ℕ → String → String
repeat zero text = ""
repeat (suc n) text = text <> repeat n text

abbrev pub max_of : List ℕ → ℕ
max_of [] = 0
max_of (n ∷ ns) = let m = max_of ns in if leb n m then m else n

-- {:02}
abbrev pub two_digits : ℕ → String
two_digits n = if ltb n 10 then "0" <> decimal n else decimal n

unfoldable pub fmt_unix : ℕ → String
unfolding decimal
fmt_unix secs =
    two_digits (secs / 3600 % 24)
    <> ":"
    <> two_digits (secs / 60 % 60)
    <> ":"
    <> two_digits (secs % 60)

module _ (t : Texts) where
  open t use {len, chars, to_uppercase, fixed, to_rfc3339}

  -- {:<n} and {:>n}
  abbrev pub pad_end : ℕ → String → String
  pad_end n s = s <> repeat (n - chars s) " "

  abbrev pub pad_start : ℕ → String → String
  pad_start n s = repeat (n - chars s) " " <> s

  abbrev pub metrics_line : ℕ → JobResult → String
  unfolding fmt_us
  metrics_line pad j =
      let total_us = (j.compile_us + j.instantiate_us + j.execute_us) % 2 ^ 64 in
      "  "
      <> pad_end pad j.job_id
      <> "  "
      <> pad_start 10 (fmt_us fixed j.compile_us)
      <> "  "
      <> pad_start 10 (fmt_us fixed j.instantiate_us)
      <> "  "
      <> pad_start 10 (fmt_us fixed j.execute_us)
      <> "  "
      <> pad_start 10 (fmt_us fixed total_us)

  abbrev pub metrics_lines : List JobResult → List String
  metrics_lines [] = []
  metrics_lines (j ∷ measured) =
      let pad = max_of (map (λ (r : JobResult). len r.job_id) (j ∷ measured)) in
      ""
      ∷ ("  "
          <> pad_end pad "job"
          <> "  "
          <> pad_start 10 "compile"
          <> "  "
          <> pad_start 10 "instantiate"
          <> "  "
          <> pad_start 10 "execute"
          <> "  "
          <> pad_start 10 "total")
      ∷ ("  " <> repeat (pad + 46) "-")
      ∷ map (metrics_line pad) (j ∷ measured)

  unfoldable pub print_metrics_table : List JobResult → List String
  print_metrics_table jobs = metrics_lines (keep (λ (j : JobResult). not j.skipped) jobs)

  abbrev pub reason_lines : String → Option String → List String
  reason_lines indent none = []
  reason_lines indent (some reason) = (indent <> reason) ∷ []

  abbrev pub status_lines : ℕ → List JobDetail → List String
  status_lines pad [] = []
  status_lines pad (j ∷ jobs) =
      let elapsed : String = elim j.elapsed_ms [ none ↦ "-" | some ms ↦ fixed ms 1000 <> "s" ] in
      ("  " <> pad_end pad j.job_id <> "  " <> pad_end 8 (to_uppercase j.status) <> " " <> elapsed)
      ∷ (reason_lines "    Reason: " j.reason ++ status_lines pad jobs)

  abbrev pub job_table : List JobDetail → List String
  job_table [] = []
  job_table (j ∷ jobs) =
      let pad = max_of (map (λ (d : JobDetail). len d.job_id) (j ∷ jobs)) in
      ""
      ∷ ("  " <> pad_end pad "JOB" <> "  STATUS   ELAPSED")
      ∷ ("  " <> repeat (pad + 20) "-")
      ∷ status_lines pad (j ∷ jobs)

  unfoldable pub cmd_status : String → RunStore → Outcome StoreError (List String)
  unfolding get_run get_run_jobs fmt_unix
  cmd_status run_id db = do
    run ← get_run run_id db
    ok (
        ("Run:      " <> run.id)
        ∷ ("Workflow: " <> run.workflow_name)
        ∷ ("Started:  " <> fmt_unix run.started_at)
        ∷ ("Elapsed:  " <> fixed (elapsed_of run) 1 <> "s")
        ∷ ("Status:   " <> to_uppercase run.status)
        ∷ job_table (get_run_jobs run_id db))

  -- The timeline: the start of a job is the end of the one before it.
  abbrev pub log_lines : ℕ → ℕ → List JobDetail → List String
  unfolding fmt_unix
  log_lines pad cursor [] = []
  log_lines pad cursor (j ∷ jobs) =
      let elapsed_ms = get_or_else 0 j.elapsed_ms in
      let next = (cursor + elapsed_ms / 1000) % 2 ^ 64 in
      ("[" <> fmt_unix cursor <> "] " <> pad_end pad j.job_id <> "  RUNNING")
      ∷ ("["
          <> fmt_unix next
          <> "] "
          <> pad_end pad j.job_id
          <> "  "
          <> to_uppercase j.status
          <> "  "
          <> fixed elapsed_ms 1000
          <> "s")
      ∷ (reason_lines "  " j.reason ++ log_lines pad next jobs)

  -- `pretty` prints the run and its jobs as JSON.
  unfoldable pub cmd_logs :
      (RunDetail → List JobDetail → String)
      → String
      → Bool
      → RunStore
      → Outcome StoreError (List String)
  unfolding get_run get_run_jobs log_lines
  cmd_logs pretty run_id json db = do
    run ← get_run run_id db
    let jobs = get_run_jobs run_id db
    let pad = max_of (map (λ (d : JobDetail). len d.job_id) jobs)
    ok (if json then pretty run jobs ∷ [] else log_lines pad run.started_at jobs)

  abbrev pub schedule_lines : List ScheduleEntry → List String
  unfolding decimal
  schedule_lines [] = []
  schedule_lines (s ∷ schedules) =
      let next : String = elim (to_rfc3339 s.next_run_at) [
        | none ↦ decimal s.next_run_at
        | some text ↦ text
      ] in
      (pad_end 28 s.id <> "  " <> pad_end 20 s.cron_expr <> "  " <> next)
      ∷ ("    " <> s.workflow_path)
      ∷ schedule_lines schedules

  abbrev pub schedule_table : List ScheduleEntry → List String
  unfolding schedule_lines
  schedule_table [] = "No schedules registered." ∷ []
  schedule_table (s ∷ schedules) =
      (pad_end 28 "ID" <> "  " <> pad_end 20 "CRON" <> "  NEXT RUN")
      ∷ repeat 72 "-"
      ∷ schedule_lines (s ∷ schedules)

  unfoldable pub cmd_schedule_list : RunStore → List String
  unfolding list_schedules
  cmd_schedule_list db = schedule_table (list_schedules db)
