-- ===== src/Web/Escaped.antt =====
-- The markup of the pages of crates/fluxion-host/src/ui.rs.
use Prim.Native.Char.{code}
use Prim.Native.String.{◌++◌ as append}
use fluxion.Prelude.{
  ℕ, String, List, [], ◌∷◌, Option, none, some, Bool, true, false, ◌||◌, ◌==◌, nat_eq, ltb, decimal,
  all_digits, all_digits-decimal, replace_char, length, if◌then◌else◌, ◌≡◌, refl, ap, arith, inl,
  inr, Bool-cases,
}
use text.Mathlib.TextLemmas.{nil-append, cons-append}
use fluxion.Workflow.Validate.{◌<>◌}
use fluxion.Store.Tables.{RunSummary, JobDetail, WorkerEntry, ScheduleEntry, RunStore}
use fluxion.Store.Runs.{list_runs, get_run_jobs}
use fluxion.Store.Schedules.{list_schedules}
use fluxion.Store.Workers.{list_workers}
use fluxion.Web.Ui.{
  escape, pad2, format_ts, badge_class, status_badge, polling_wrap, run_row, job_row, schedule_row,
  health_badge, worker_row, rows, run_head, no_runs, job_head, no_jobs, schedule_head, no_schedules,
  worker_head, no_workers, table, ui_runs, ui_run_jobs, ui_schedules, ui_workers,
}

-- The characters that make tags and attributes.
abbrev pub is_mark : ℕ → Bool
is_mark c = nat_eq c 0x3c || nat_eq c 0x3e || nat_eq c 0x22

-- The text without everything else.
abbrev pub marks : String → String
marks String.[] = String.[]
marks (String.◌∷◌ c s) = let rest = marks s in if is_mark (code c) then String.◌∷◌ c rest else rest

marks-append : (a b : String) → marks (append a b) ≡ append (marks a) (marks b)
marks-append String.[] b = rw (nil-append b, nil-append (marks b)) refl
marks-append (String.◌∷◌ c a) b = elim (Bool-cases (is_mark (code c))) [
  | inl e ↦
      rw (cons-append c a b) (
        rw e (rw (cons-append c (marks a) (marks b)) (ap (λ t. String.◌∷◌ c t) (marks-append a b))))
  | inr e ↦ rw (cons-append c a b) (rw e (marks-append a b))
]

-- Whether a text has a certain mark.
abbrev has : ℕ → String → Bool
has k String.[] = false
has k (String.◌∷◌ c s) = nat_eq (code c) k || has k s

has-append : (k : ℕ) (a b : String) → has k (append a b) ≡ (has k a || has k b)
has-append k String.[] b = rw nil-append refl
has-append k (String.◌∷◌ c a) b = rw cons-append (ground (arith, has-append k a b))

has-replaced : (k : ℕ) (by s : String) → has k by ≡ false → has k (replace_char k by s) ≡ false
unfolding replace_char
has-replaced k by String.[] h = refl
has-replaced k by (String.◌∷◌ c s) h =
    ground (arith, has-replaced k by s, has-append k by (replace_char k by s))

has-other :
    (j k : ℕ) (by s : String)
    → has j by ≡ false
    → has j s ≡ false
    → has j (replace_char k by s) ≡ false
unfolding replace_char
has-other j k by String.[] h i = refl
has-other j k by (String.◌∷◌ c s) h i =
    ground (arith, has-other j k by s, has-append j by (replace_char k by s))

marks-none :
    (s : String) → has 0x3c s ≡ false → has 0x3e s ≡ false → has 0x22 s ≡ false → marks s ≡ ""
marks-none String.[] a b c = refl
marks-none (String.◌∷◌ d s) a b c = ground (arith, marks-none s)

pub marks-escape : (s : String) → marks (escape s) ≡ ""
unfolding escape
marks-escape s =
    let s1 = replace_char 0x26 "&amp;" s in
    let s2 = replace_char 0x3c "&lt;" s1 in
    let s3 = replace_char 0x3e "&gt;" s2 in
    marks-none (replace_char 0x22 "&quot;" s3)
      (has-other 0x3c 0x22 "&quot;" s3 refl
        (has-other 0x3c 0x3e "&gt;" s2 refl (has-replaced 0x3c "&lt;" s1 refl)))
      (has-other 0x3e 0x22 "&quot;" s3 refl (has-replaced 0x3e "&gt;" s2 refl))
      (has-replaced 0x22 "&quot;" s3 refl)

marks-digits : (s : String) → all_digits s ≡ true → marks s ≡ ""
marks-digits String.[] h = refl
marks-digits (String.◌∷◌ c s) h = ground (arith, marks-digits s)

marks-decimal : (n : ℕ) → marks (decimal n) ≡ ""
marks-decimal n = marks-digits (decimal n) (all_digits-decimal n)

marks-choice :
    (b : Bool) (s t : String) → marks s ≡ "" → marks t ≡ "" → marks (if b then s else t) ≡ ""
marks-choice true s t p q = p
marks-choice false s t p q = q

marks-pad2 : (n : ℕ) → marks (pad2 n) ≡ ""
marks-pad2 n =
    marks-choice (ltb n 10) ("0" <> decimal n) (decimal n) (simp (marks-append, marks-decimal n))
      (marks-decimal n)

marks-badge_class : (s : String) → marks (badge_class s) ≡ ""
marks-badge_class s =
    marks-choice (s == "running") _ _ refl
      (marks-choice (s == "succeeded") _ _ refl (marks-choice (s == "failed") _ _ refl refl))

marks-run_row : (r s : RunSummary) → marks (run_row r) ≡ marks (run_row s)
unfolding run_row format_ts status_badge
marks-run_row r s = simp (marks-append, marks-escape, marks-badge_class, marks-decimal, marks-pad2)

marks-elapsed : (e : Option ℕ) → marks (elim e [ none ↦ "" | some ms ↦ decimal ms ]) ≡ ""
marks-elapsed none = refl
marks-elapsed (some ms) = marks-decimal ms

marks-job_row : (j k : JobDetail) → marks (job_row j) ≡ marks (job_row k)
unfolding job_row status_badge
marks-job_row j k = simp (
  marks-append,
  marks-escape,
  marks-badge_class,
  marks-elapsed j.elapsed_ms,
  marks-elapsed k.elapsed_ms,
)

marks-format_ts : (n : ℕ) → marks (format_ts n) ≡ ""
unfolding format_ts
marks-format_ts n = simp (marks-append, marks-decimal, marks-pad2)

marks-last_run : (l : Option ℕ) → marks (elim l [ none ↦ "—" | some secs ↦ format_ts secs ]) ≡ ""
marks-last_run none = refl
marks-last_run (some secs) = marks-format_ts secs

marks-schedule_row : (s t : ScheduleEntry) → marks (schedule_row s) ≡ marks (schedule_row t)
unfolding schedule_row format_ts
marks-schedule_row s t = simp (
  marks-append,
  marks-escape,
  marks-decimal,
  marks-pad2,
  marks-last_run s.last_run_at,
  marks-last_run t.last_run_at,
)

marks-health_badge : (h : Option String) → marks (health_badge h) ≡ "<\"\"><>"
marks-health_badge none = refl
marks-health_badge (some h) = elim (Bool-cases (h == "healthy")) [
  | inl e ↦ rw e refl
  | inr e ↦ rw e (elim (Bool-cases (h == "unreachable")) [ inl i ↦ rw i refl | inr i ↦ rw i refl ])
]

marks-worker_row : (v w : WorkerEntry) → marks (worker_row v) ≡ marks (worker_row w)
unfolding worker_row format_ts
marks-worker_row v w = simp (
  marks-append,
  marks-escape,
  marks-decimal,
  marks-pad2,
  marks-health_badge v.last_health,
  marks-health_badge w.last_health,
)

module _ {A : Type 0} (row : A → String) (same : (r s : A) → marks (row r) ≡ marks (row s)) where
  marks-rows : (rs ss : List A) → length rs ≡ length ss → marks (rows row rs) ≡ marks (rows row ss)
  marks-rows [] [] e = refl
  marks-rows [] (s ∷ ss) e = ground arith
  marks-rows (r ∷ rs) [] e = ground arith
  marks-rows (r ∷ rs) (s ∷ ss) e = simp (marks-append, same r s, marks-rows rs ss (omega arith))

  -- A page depends on its rows by their number.
  marks-table :
      (rs ss : List A) (url interval head empty : String)
      → length rs ≡ length ss
      → marks (polling_wrap url interval (table head empty row rs))
        ≡ marks (polling_wrap url interval (table head empty row ss))
  marks-table [] [] url interval head empty e = refl
  marks-table [] (s ∷ ss) url interval head empty e = ground arith
  marks-table (r ∷ rs) [] url interval head empty e = ground arith
  marks-table (r ∷ rs) (s ∷ ss) url interval head empty e =
      simp (marks-append, same r s, marks-rows rs ss (omega arith))

-- What the pages list of two stores is equally long.
abbrev pub IsAsLong : String → RunStore → RunStore → Type 0
IsAsLong id db db' =
    (length (list_runs 50 db) ≡ length (list_runs 50 db'))
    × (length (get_run_jobs id db) ≡ length (get_run_jobs id db'))
    × (length (list_schedules db) ≡ length (list_schedules db'))
    × (length (list_workers db) ≡ length (list_workers db'))

-- Each page of the UI has the same angle brackets and double quotes for any two stores of which
-- the pages list equally many rows: no text of the store adds or takes away any.
pub ui_pages-marks :
    (id : String) (db db' : RunStore)
    → IsAsLong id db db'
    → (marks (ui_runs db) ≡ marks (ui_runs db'))
      × (marks (ui_run_jobs id db) ≡ marks (ui_run_jobs id db'))
      × (marks (ui_schedules db) ≡ marks (ui_schedules db'))
      × (marks (ui_workers db) ≡ marks (ui_workers db'))
unfolding ui_runs ui_run_jobs ui_schedules ui_workers
ui_pages-marks id db db' (r, j, s, w) = (
  marks-table run_row marks-run_row (list_runs 50 db) (list_runs 50 db') "/ui/runs" "5s" run_head
      no_runs r,
  marks-table job_row marks-job_row (get_run_jobs id db) (get_run_jobs id db')
      ("/ui/runs/" <> escape id) "5s" job_head no_jobs j,
  marks-table schedule_row marks-schedule_row (list_schedules db) (list_schedules db')
      "/ui/schedules" "10s" schedule_head no_schedules s,
  marks-table worker_row marks-worker_row (list_workers db) (list_workers db') "/ui/workers" "10s"
      worker_head no_workers w,
)
