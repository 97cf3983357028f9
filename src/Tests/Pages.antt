-- ===== src/Tests/Pages.antt =====
-- Tests of the pages.
use fluxion.Prelude.{[], ◌∷◌, none, some, String, ◌≡◌, refl}
use fluxion.Store.Tables.{RunStore}
use fluxion.Store.Runs.{list_runs, get_run_jobs}
use fluxion.Store.Schedules.{list_schedules}
use fluxion.Store.Workers.{list_workers}
use fluxion.Web.Ui.{escape, ui_runs, ui_run_jobs, ui_schedules, ui_workers}
use fluxion.Web.Escaped.{marks, IsAsLong, ui_pages-marks}

-- One row in each table, with the same text in each column.
abbrev filled : String → RunStore
filled text = record {
  runs =
      record {
        id = text;
        workflow_name = text;
        workflow_path = text;
        started_at = 90_061;
        completed_at = none;
        status = text;
      }
      ∷ [];
  job_states =
      ("r", record { job_id = text; status = text; elapsed_ms = some 7; reason = none }) ∷ [];
  workers = record { url = text; registered_at = 4; last_health = some text } ∷ [];
  schedules =
      record {
        id = text;
        workflow_path = text;
        cron_expr = text;
        created_at = 1;
        last_run_at = none;
        next_run_at = 60;
      }
      ∷ [];
}

filled-IsAsLong : IsAsLong "r" (filled "<script>") (filled "healthy")
unfolding list_runs get_run_jobs list_schedules list_workers
filled-IsAsLong = (refl, refl, refl, refl)

ui_pages-marks_example :
    (marks (ui_runs (filled "<script>")) ≡ marks (ui_runs (filled "healthy")))
    × (marks (ui_run_jobs "r" (filled "<script>")) ≡ marks (ui_run_jobs "r" (filled "healthy")))
    × (marks (ui_schedules (filled "<script>")) ≡ marks (ui_schedules (filled "healthy")))
    × (marks (ui_workers (filled "<script>")) ≡ marks (ui_workers (filled "healthy")))
ui_pages-marks_example = ui_pages-marks "r" (filled "<script>") (filled "healthy") filled-IsAsLong

escaped_script : escape "<script>\"&\"" ≡ "&lt;script&gt;&quot;&amp;&quot;"
unfolding escape
escaped_script = refl
