-- ===== src/Web/Ui.antt =====
-- The handlers of crates/fluxion-host/src/ui.rs and api.rs, as far as their bodies go. JSON is a
-- parameter.
use fluxion.Prelude.{
  ℕ, ◌/◌, ◌%◌, String, List, [], ◌∷◌, Option, none, some, ◌==◌, ltb, decimal, replace_char,
  if◌then◌else◌, ◌⊎◌, inl, inr,
}
use fluxion.Store.Tables.{RunSummary, JobDetail, WorkerEntry, ScheduleEntry, RunStore}
use fluxion.Store.Runs.{list_runs, get_run_jobs}
use fluxion.Store.Workers.{list_workers}
use fluxion.Store.Schedules.{list_schedules}
use fluxion.Workflow.Validate.{◌<>◌}

unfoldable pub escape : String → String
unfolding replace_char
escape s =
    replace_char 0x22 "&quot;"
      (replace_char 0x3e "&gt;" (replace_char 0x3c "&lt;" (replace_char 0x26 "&amp;" s)))

abbrev pub pad2 : ℕ → String
pad2 n = if ltb n 10 then "0" <> decimal n else decimal n

unfoldable pub format_ts : ℕ → String
unfolding decimal
format_ts secs =
    decimal (secs / 86400)
    <> "d "
    <> pad2 (secs / 3600 % 24)
    <> ":"
    <> pad2 (secs / 60 % 60)
    <> ":"
    <> pad2 (secs % 60)
    <> " UTC"

abbrev pub badge_class : String → String
badge_class status =
    if status == "running"
    then "badge-running"
    else if status == "succeeded"
    then "badge-succeeded"
    else if status == "failed"
    then "badge-failed"
    else "badge-pending"

unfoldable pub status_badge : String → String
unfolding escape
status_badge status =
    "<span class=\"badge " <> badge_class status <> "\">" <> escape status <> "</span>"

abbrev pub polling_wrap : String → String → String → String
polling_wrap url interval inner =
    "<div hx-get=\"" <> url <> "\" hx-trigger=\"every " <> interval <> "\" hx-swap=\"outerHTML\">"
    <> inner <> "</div>"

unfoldable pub run_row : RunSummary → String
unfolding escape status_badge format_ts
run_row r =
    "<tr><td><a href=\"/ui/runs/"
    <> escape r.id
    <> "\" hx-get=\"/ui/runs/"
    <> escape r.id
    <> "\" hx-target=\"#content\">"
    <> escape r.id
    <> "</a></td><td>"
    <> escape r.workflow_name
    <> "</td><td>"
    <> status_badge r.status
    <> "</td><td>"
    <> format_ts r.started_at
    <> "</td></tr>"

unfoldable pub job_row : JobDetail → String
unfolding escape status_badge decimal
job_row j =
    "<tr><td>"
    <> escape j.job_id
    <> "</td><td>"
    <> status_badge j.status
    <> "</td><td>"
    <> elim j.elapsed_ms [ none ↦ "" | some ms ↦ decimal ms ]
    <> "</td></tr>"

unfoldable pub schedule_row : ScheduleEntry → String
unfolding escape format_ts
schedule_row s =
    "<tr><td>"
    <> escape s.id
    <> "</td><td>"
    <> escape s.workflow_path
    <> "</td><td><code>"
    <> escape s.cron_expr
    <> "</code></td><td>"
    <> elim s.last_run_at [ none ↦ "—" | some secs ↦ format_ts secs ]
    <> "</td><td>"
    <> format_ts s.next_run_at
    <> "</td></tr>"

abbrev pub health_badge : Option String → String
health_badge none = "<span class=\"badge badge-unknown\">unknown</span>"
health_badge (some health) =
    if health == "healthy"
    then "<span class=\"badge badge-healthy\">healthy</span>"
    else if health == "unreachable"
    then "<span class=\"badge badge-unreachable\">unreachable</span>"
    else "<span class=\"badge badge-unknown\">unknown</span>"

unfoldable pub worker_row : WorkerEntry → String
unfolding escape format_ts
worker_row w =
    "<tr><td>"
    <> escape w.url
    <> "</td><td>"
    <> format_ts w.registered_at
    <> "</td><td>"
    <> health_badge w.last_health
    <> "</td></tr>"

module _ {A : Type 0} (row : A → String) where
  abbrev pub rows : List A → String
  rows [] = ""
  rows (x ∷ xs) = row x <> rows xs

-- The table behind its head, or the row that says that there is nothing.
abbrev pub table : {A : Type 0} → String → String → (A → String) → List A → String
table head empty row [] = head <> empty <> "</tbody></table>"
table head empty row (x ∷ xs) = head <> rows row (x ∷ xs) <> "</tbody></table>"

abbrev pub run_head : String
run_head =
    "<table><thead><tr><th>Run ID</th><th>Workflow</th><th>Status</th><th>Started At</th></tr></thead><tbody>"

abbrev pub no_runs : String
no_runs = "<tr><td colspan=\"4\">No runs yet.</td></tr>"

abbrev pub job_head : String
job_head = "<table><thead><tr><th>Job</th><th>Status</th><th>Elapsed (ms)</th></tr></thead><tbody>"

abbrev pub no_jobs : String
no_jobs = "<tr><td colspan=\"3\">No jobs recorded.</td></tr>"

abbrev pub schedule_head : String
schedule_head =
    "<table><thead><tr><th>ID</th><th>Workflow</th><th>Cron</th><th>Last Run</th><th>Next Run</th></tr></thead><tbody>"

abbrev pub no_schedules : String
no_schedules = "<tr><td colspan=\"5\">No schedules registered.</td></tr>"

abbrev pub worker_head : String
worker_head =
    "<table><thead><tr><th>URL</th><th>Registered At</th><th>Health</th></tr></thead><tbody>"

abbrev pub no_workers : String
no_workers = "<tr><td colspan=\"3\">No workers registered.</td></tr>"

unfoldable pub ui_runs : RunStore → String
unfolding list_runs run_row
ui_runs db = polling_wrap "/ui/runs" "5s" (table run_head no_runs run_row (list_runs 50 db))

unfoldable pub ui_run_jobs : String → RunStore → String
unfolding get_run_jobs job_row escape
ui_run_jobs id db =
    polling_wrap ("/ui/runs/" <> escape id) "5s"
      (table job_head no_jobs job_row (get_run_jobs id db))

unfoldable pub ui_schedules : RunStore → String
unfolding list_schedules schedule_row
ui_schedules db =
    polling_wrap "/ui/schedules" "10s"
      (table schedule_head no_schedules schedule_row (list_schedules db))

unfoldable pub ui_workers : RunStore → String
unfolding list_workers worker_row
ui_workers db =
    polling_wrap "/ui/workers" "10s" (table worker_head no_workers worker_row (list_workers db))

-- What the routes of the API answer with: JSON, or a status of 500 and the reason.
abbrev pub json_response : {A : Type 0} → (A → String ⊎ String) → A → ℕ × String
json_response to_vec value = elim (to_vec value) [ inl e ↦ (500, e) | inr body ↦ (200, body) ]

unfoldable pub api_runs : (List RunSummary → String ⊎ String) → RunStore → ℕ × String
unfolding list_runs
api_runs to_vec db = json_response to_vec (list_runs 100 db)

unfoldable pub api_run_jobs : (List JobDetail → String ⊎ String) → String → RunStore → ℕ × String
unfolding get_run_jobs
api_run_jobs to_vec id db = json_response to_vec (get_run_jobs id db)

unfoldable pub api_schedules : (List ScheduleEntry → String ⊎ String) → RunStore → ℕ × String
unfolding list_schedules
api_schedules to_vec db = json_response to_vec (list_schedules db)

unfoldable pub api_workers : (List WorkerEntry → String ⊎ String) → RunStore → ℕ × String
unfolding list_workers
api_workers to_vec db = json_response to_vec (list_workers db)
