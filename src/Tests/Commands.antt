-- ===== src/Tests/Commands.antt =====
-- Tests of the command line.
use fluxion.Prelude.{
  decimal, trim_end, strip_prefix, read_digits, length, replace_char, ℕ, ◌+◌, String, List, [], ◌∷◌,
  Option, none, some, true, false, ◌≡◌, inr, ◌↔◌, refl, arith, All,
}
use fluxion.Outcome.{ok, err, Returns}
use fluxion.Workflow.Validate.{from_file, validate, into_result}
use fluxion.Workflow.Cycle.{has_cycle}
use fluxion.Store.Tables.{ScheduleEntry, RunStore, select}
use fluxion.Store.Schedules.{due_schedules, claim_schedule, update_schedule_next}
use fluxion.Store.Claims.{claim_schedule-update_schedule_next}
use fluxion.Cli.Schedule.{Env, World, next_run_secs, fire, fire_all, fire_due_schedules}
use fluxion.Cli.Firing.{Recurs, IsQuiet, is_runnable, is_settled, fire_due_schedules-exact}
use fluxion.Cli.Bench.{bench_row}
use fluxion.Cli.Percentiles.{IsRow, bench_row-IsRow}
use fluxion.Cli.Validate.{Exit, cmd_validate, JobKeys}
use fluxion.Cli.Verdict.{Accepted, cmd_validate_iff}
use fluxion.Cli.Mcp.{write_message, read_headers, read_message}
use fluxion.Cli.Tools.{Server, serve, serve_from, respond, handle_request}
use fluxion.Cli.Served.{stream, Answers, serve-Answers}
use fluxion.Dag.Build.{build}
use fluxion.Dag.Kahn.{kahn_sort}
use fluxion.Cli.Order.{cmd_dry_run, order_table, dot_id, cmd_dry_run-of_valid}
use fluxion.State.{from_failed, from_succeeded}
use fluxion.Cli.Report.{Texts}
use fluxion.Cli.Watch.{print_result}
use fluxion.Cli.Watched.{print_result-plain}
use fluxion.Tests.Samples.{chain, job, pair-IsMap}

abbrev entry : String → ℕ → ScheduleEntry
entry id next = record {
  id = id;
  workflow_path = "flow.yaml";
  cron_expr = "0 * * * * *";
  created_at = 0;
  last_run_at = none;
  next_run_at = next;
}

abbrev table : RunStore
table = record {
  runs = [];
  job_states = [];
  workers = [];
  schedules = entry "late" 7 ∷ entry "early" 5 ∷ entry "later" 100 ∷ [];
}

-- Each cron expression stands for the next minute, and a run takes no time.
abbrev env : Env
env = record {
  Cron = String;
  from_str = some;
  upcoming = λ c t. some (t + 60);
  read_to_string = some;
  from_yaml = λ t. some chain;
  canonicalize = some;
  to_rfc3339 = λ t. none;
  execute = λ wf path w. w;
}

abbrev world : World
world = record { store = table; now = 10 }

env-Recurs : (end : ℕ) (e : ScheduleEntry) → Recurs env end e
env-Recurs end e c read t before = (t + 60, refl, omega arith)

env-IsQuiet : IsQuiet env
env-IsQuiet = record { schedules = λ wf path w. refl; time = λ wf path w. omega arith }

fire_due_schedules-exact_example :
    ((fire_due_schedules env world).0 ≡ select (is_runnable env) (due_schedules 10 table))
    × All (λ e. is_settled env 10 e ≡ true) (fire_due_schedules env world).1.store.schedules
fire_due_schedules-exact_example =
    fire_due_schedules-exact env world env-IsQuiet
      (
        env-Recurs _ (entry "late" 7),
        (env-Recurs _ (entry "early" 5), (env-Recurs _ (entry "later" 100), tt)),
      )
      ((refl, (refl, tt)), ((refl, tt), (tt, tt)))

-- The run at 70 is claimed by another process before the first has ended.
claim_schedule-update_schedule_next_example :
    (claim_schedule "early" 70 190
      (update_schedule_next "early" 80 70 (claim_schedule "early" 70 130 table).1)).0
    ≡ true
claim_schedule-update_schedule_next_example =
    claim_schedule-update_schedule_next "early" 80 70 130 190 table

bench_row-IsRow_example : Returns (IsRow (30 ∷ 10 ∷ 20 ∷ [])) (bench_row (30 ∷ 10 ∷ 20 ∷ []))
bench_row-IsRow_example =
    bench_row-IsRow (30 ∷ 10 ∷ 20 ∷ []) (omega arith) (omega arith) (omega arith)

abbrev no_warning : String → Option (List JobKeys)
no_warning src = some ((some "a", false) ∷ [])

cmd_validate_iff_example :
    (e : Exit) × (cmd_validate no_warning
        (λ p. true)
        (λ r. "{}")
        (λ src. inr chain)
        (λ p. inr "jobs:")
        "flow.yaml"
        true
        false
        true
      ≡ ok e)
    × ((e.code ≡ 0)
        ↔ Accepted
            (λ p. inr "jobs:")
            (λ src. inr chain)
            no_warning
            (λ p. true)
            "flow.yaml"
            false
            true)
cmd_validate_iff_example =
    cmd_validate_iff no_warning (λ p. true) (λ r. "{}") (λ src. inr chain) (λ p. inr "jobs:")
      "flow.yaml" true false true

percentiles :
    bench_row (30 ∷ 10 ∷ 20 ∷ [])
    ≡ ok (record { avg = 20; p50 = 20; p95 = 30; p99 = 30; min = 10; max = 30 })
unfolding bench_row
percentiles = refl

-- The two that are due are run, the earlier one first.
runs_due : (fire_due_schedules env world).0 ≡ entry "early" 5 ∷ entry "late" 7 ∷ []
unfolding fire_due_schedules fire_all fire next_run_secs due_schedules claim_schedule from_file
    into_result validate has_cycle update_schedule_next
runs_due = refl

-- Every text is ASCII here; a request is its text, and has itself as id and as method.
abbrev server : Server
server = record {
  Value = String;
  Result = Unit;
  from_str = some;
  get = λ key value. some value;
  as_str = some;
  as_u64 = λ value. none;
  initialized = "initialized";
  pong = "pong";
  tools = "tools";
  empty_object = "";
  call_result = λ text. text;
  response = λ id result. elim result [ ok value ↦ value | err e ↦ e | _ ↦ "" ];
  pretty = λ result. "";
  read_to_string = some;
  from_yaml = λ text. some chain;
  run_silent = λ wf path db. (ok tt, db);
  retry_silent = λ wf path run_id from db. (ok tt, db);
}

serve-Answers_example :
    Answers server
      (λ s. s)
      ("ping" ∷ "stop" ∷ [])
      table
      (serve server (λ s. s) some (stream (λ s. s) ("ping" ∷ "stop" ∷ [])) table)
serve-Answers_example =
    serve-Answers server (λ s. s) some ("ping" ∷ "stop" ∷ []) table
      (record { back = λ s. refl; ascii = λ s h. refl })
      ((omega arith, omega arith), ((omega arith, omega arith), tt))

no_method : respond server "stop" table ≡ (ok (some "Method not found: stop"), table)
unfolding respond handle_request
no_method = refl

-- The second message is silent.
written :
    (serve server
      (λ s. s)
      some
      "Content-Length: 4\r\n\r\npingContent-Length: 0\r\n\r\n"
      table).written
    ≡ "Content-Length: 4\r\n\r\npong"
unfolding serve serve_from read_message read_headers trim_end strip_prefix read_digits respond
    handle_request write_message decimal
written = refl

cmd_dry_run-of_valid_example : Returns (λ lines. length lines ≡ 5) (cmd_dry_run chain)
unfolding validate has_cycle
cmd_dry_run-of_valid_example =
    cmd_dry_run-of_valid chain (record { errors = []; warnings = [] })
      (pair-IsMap "b" "a" (job ("a" ∷ [])) (job []) refl) refl refl

dry_run :
    cmd_dry_run chain
    ≡ ok (
        "Workflow: sample (2 jobs)" ∷ "" ∷ "Execution order:" ∷ "  1. a  (no deps)"
        ∷ "  2. b  (depends: a)" ∷ [])
unfolding cmd_dry_run order_table build kahn_sort decimal
dry_run = refl

-- A name that ends in a backslash gives a text without an end.
unfinished : dot_id "a\\" ≡ "\"a\\\""
unfolding dot_id replace_char
unfinished = refl

abbrev texts : Texts
texts = record {
  len = λ s. 5;
  chars = λ s. 5;
  to_uppercase = λ s. s;
  fixed = λ n d. "0.00";
  to_rfc3339 = λ n. none;
}

-- A job that had succeeded fails.
print_result-plain_example :
    print_result texts
      (from_failed "fetch" 1 "error" ∷ [])
      (some (from_succeeded "fetch" 1 false ∷ []))
    ≡ print_result texts (from_failed "fetch" 1 "error" ∷ []) none
print_result-plain_example =
    print_result-plain texts (from_failed "fetch" 1 "error" ∷ [])
      (some (from_succeeded "fetch" 1 false ∷ [])) (refl, tt)
