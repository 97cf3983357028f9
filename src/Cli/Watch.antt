-- ===== src/Cli/Watch.antt =====
-- crates/fluxion-cli/src/watch.rs: the loop of watch_and_run, what run_watcher passes on, and
-- print_result. The file, the run of its workflow, and Unicode are parameters; times are in
-- milliseconds.
use fluxion.Prelude.{
  ℕ, suc, ◌+◌, ◌-◌, String, List, [], ◌∷◌, ◌++◌, Map, map, Option, none, some, Bool, true, false,
  ◌&&◌, ◌==◌, any, lookup, insert, leb, if◌then◌else◌, inl, inr, ◌⊎◌,
}
use fluxion.State.{JobResult}
use fluxion.Cli.Report.{Texts, fmt_unix, max_of, repeat, pad_end}
use fluxion.Workflow.Validate.{◌<>◌}
use fluxion.Workflow.Types.{Workflow}

-- An event of the file system, as far as it is looked at.
pub data EventKind : Type 0 where
  modify create access other : EventKind

-- Whether it is passed on: `ends_with` is whether a path ends with the name of the workflow's file.
abbrev pub is_watched : EventKind → Bool
is_watched other = false
is_watched _ = true

unfoldable pub passes : (String → Bool) → EventKind → List String → Bool
passes ends_with kind paths = is_watched kind && any ends_with paths

-- What wakes the loop up, with the time.
pub data Wake : Type 0 where
  changed timer : (now : ℕ) → Wake
  interrupt : Wake

abbrev pub statuses : Option (List JobResult) → Map String
statuses none = []
statuses (some jobs) = collect jobs []
  where
    collect : List JobResult → Map String → Map String
    collect [] m = m
    collect (j ∷ js) m = collect js (insert j.job_id j.status m)

module _ (t : Texts) where
  open t use {len, to_uppercase}

  abbrev pub colored : Option String → String → String
  colored none status = to_uppercase status
  colored (some prev) status =
      if prev == status
      then to_uppercase status
      else if status == "SUCCESS"
      then "\u{1b}[32m" <> to_uppercase status <> "\u{1b}[0m"
      else if status == "FAILED"
      then "\u{1b}[31m" <> to_uppercase status <> "\u{1b}[0m"
      else to_uppercase status

  abbrev pub result_lines : ℕ → Map String → List JobResult → List String
  result_lines pad prev_map [] = []
  result_lines pad prev_map (j ∷ jobs) =
      ("  " <> pad_end t pad j.job_id <> "  " <> colored (lookup j.job_id prev_map) j.status)
      ∷ result_lines pad prev_map jobs

  unfoldable pub print_result : List JobResult → Option (List JobResult) → List String
  print_result current prev =
      let pad = max_of (map (λ (j : JobResult). len j.job_id) current) in
      ""
      ∷ ("  " <> pad_end t pad "JOB" <> "  STATUS")
      ∷ ("  " <> repeat (pad + 20) "-")
      ∷ (result_lines pad (statuses prev) current ++ "" ∷ [])

-- The local variables of the loop, what was printed, and how often the workflow was looked at.
pub record Watch : Type 0 where
  pub last_change : Option ℕ
  pub prev_result : Option (List JobResult)
  pub lines : List String
  pub rounds : ℕ

-- `from_file` and `run` give why the workflow is not loaded and not run; `debounce_ms` is the delay,
-- and `secs` the time of day for a time.
module _ (t : Texts) (from_file : ℕ → String ⊎ Workflow)
    (run : ℕ → Workflow → String ⊎ List JobResult) (secs : ℕ → ℕ) (debounce_ms : ℕ) where
  unfoldable pub stamp : ℕ → String → String
  unfolding fmt_unix
  stamp now text = "[" <> fmt_unix (secs now) <> "] " <> text

  unfoldable pub after_run : ℕ → String ⊎ List JobResult → Watch → Watch
  unfolding stamp print_result
  after_run now (inl e) w = record w { lines = w.lines ++ stamp now ("Run failed: " <> e) ∷ [] }
  after_run now (inr jobs) w = record w {
    lines = w.lines ++ (print_result t jobs w.prev_result ++ stamp now "Run complete" ∷ []);
    prev_result = some jobs;
  }

  unfoldable pub after_load : ℕ → String ⊎ Workflow → Watch → Watch
  unfolding stamp after_run
  after_load now (inl e) w = record w {
    lines = w.lines ++ stamp now ("Failed to parse workflow: " <> e) ∷ [];
  }
  after_load now (inr wf) w = after_run now (run now wf) w

  -- The timer's branch, once the delay is over.
  unfoldable pub trigger : ℕ → Watch → Watch
  unfolding stamp after_load
  trigger now w =
      let w' =
        after_load now (from_file now)
          (record w { lines = w.lines ++ stamp now "File changed, running workflow..." ∷ [] }) in
      record w' { last_change = none; rounds = suc w.rounds }

  unfoldable pub wait_over : ℕ → Watch → Watch
  unfolding trigger
  wait_over now w = elim w.last_change [
    | none ↦ w
    | some last ↦ if leb debounce_ms (now - last) then trigger now w else w
  ]

  unfoldable pub watch_loop : List Wake → Watch → Watch
  unfolding wait_over
  watch_loop [] w = w
  watch_loop (changed now ∷ wakes) w = watch_loop wakes (record w { last_change = some now })
  watch_loop (timer now ∷ wakes) w = watch_loop wakes (wait_over now w)
  watch_loop (interrupt ∷ wakes) w = record w {
    lines = w.lines ++ "[watch] Received SIGINT, shutting down" ∷ [];
  }
