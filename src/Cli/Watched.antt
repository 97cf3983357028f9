-- ===== src/Cli/Watched.antt =====
-- What the watch command prints, and how often it runs the workflow.
use fluxion.Prelude.{
  ℕ, suc, ◌+◌, ◌-◌, ◌≤◌, String, List, [], ◌∷◌, ◌++◌, Map, map, Option, none, some, Bool, true,
  false, ◌||◌, ◌==◌, lookup, leb, All, if◌then◌else◌, ◌≡◌, refl, sym, ap, subst, ◌∙◌, inl, inr, ◌⊎◌,
  arith, Bool-cases, String-cases, eq_iff,
}
use fluxion.State.{JobResult}
use fluxion.Workflow.Validate.{◌<>◌}
use fluxion.Workflow.Types.{Workflow}
use fluxion.Cli.Report.{Texts, pad_end, repeat, max_of}
use fluxion.Cli.Watch.{
  Wake, changed, timer, interrupt, Watch, statuses, colored, result_lines, print_result, trigger,
  wait_over, watch_loop,
}

-- The statuses that the constructors of JobResult give.
abbrev pub is_status : String → Bool
is_status s = s == "succeeded" || s == "failed" || s == "skipped"

abbrev IsQuiet : String → Type 0
IsQuiet s = ((s == "SUCCESS") ≡ false) × ((s == "FAILED") ≡ false)

is_status-IsQuiet : (s : String) → is_status s ≡ true → IsQuiet s
is_status-IsQuiet s h = elim (String-cases s "succeeded") [
  | inl (e, _) ↦ subst IsQuiet (sym e) (refl, refl)
  | inr (_, a) ↦ elim (String-cases s "failed") [
    | inl (e, _) ↦ subst IsQuiet (sym e) (refl, refl)
    | inr (_, b) ↦
        let e : s ≡ "skipped" = (eq_iff s "skipped").0 (ground arith) in
        subst IsQuiet (sym e) (refl, refl)
  ]
]

colored-of_status :
    (t : Texts) (prev : Option String) (s : String)
    → is_status s ≡ true
    → colored t prev s ≡ t.to_uppercase s
colored-of_status t none s h = refl
colored-of_status t (some p) s h =
    let (success, failure) = is_status-IsQuiet s h in
    elim (Bool-cases (p == s)) [ inl e ↦ rw e refl | inr e ↦ rw (e, success, failure) refl ]

result_lines-plain :
    (t : Texts) (pad : ℕ) (prev : Map String) (jobs : List JobResult)
    → All (λ j. is_status j.status ≡ true) jobs
    → result_lines t pad prev jobs ≡ result_lines t pad [] jobs
result_lines-plain t pad prev [] a = refl
result_lines-plain t pad prev (j ∷ jobs) a =
    ap (λ c. ("  " <> pad_end t pad j.job_id <> "  " <> c) ∷ result_lines t pad prev jobs)
      (colored-of_status t (lookup j.job_id prev) j.status a.0)
    ∙ ap (λ l. ("  " <> pad_end t pad j.job_id <> "  " <> t.to_uppercase j.status) ∷ l)
        (result_lines-plain t pad prev jobs a.1)

-- For results with the statuses that the constructors of JobResult give, the watch command prints
-- the same whatever the results before were: no change of a status is marked.
pub print_result-plain :
    (t : Texts) (current : List JobResult) (prev : Option (List JobResult))
    → All (λ j. is_status j.status ≡ true) current
    → print_result t current prev ≡ print_result t current none
unfolding print_result
print_result-plain t current prev a =
    let pad = max_of (map (λ (j : JobResult). t.len j.job_id) current) in
    ap
      (λ l.
        ""
        ∷ ("  " <> pad_end t pad "JOB" <> "  STATUS")
        ∷ ("  " <> repeat (pad + 20) "-")
        ∷ (l ++ "" ∷ []))
      (result_lines-plain t pad (statuses prev) current a)

abbrev pub pending_of : Option ℕ → ℕ
pending_of none = 0
pending_of (some last) = 1

abbrev pub changes_of : List Wake → ℕ
changes_of [] = 0
changes_of (changed now ∷ wakes) = suc (changes_of wakes)
changes_of (_ ∷ wakes) = changes_of wakes

module _ (t : Texts) (from_file : ℕ → String ⊎ Workflow)
    (run : ℕ → Workflow → String ⊎ List JobResult) (secs : ℕ → ℕ) (debounce_ms : ℕ) where
  wait_over-rounds :
      (now : ℕ) (w : Watch)
      → (let w' = wait_over t from_file run secs debounce_ms now w in
          w'.rounds + pending_of w'.last_change ≤ w.rounds + pending_of w.last_change)
  unfolding wait_over trigger
  wait_over-rounds now w = by w.last_change refl
    where
      by :
          (o : Option ℕ)
          → w.last_change ≡ o
          → (let w' : Watch = elim o [
            | none ↦ w
            | some last ↦
                if leb debounce_ms (now - last)
                then trigger t from_file run secs debounce_ms now w
                else w
          ] in
              w'.rounds + pending_of w'.last_change ≤ w.rounds + pending_of w.last_change)
      by none e = omega arith
      by (some last) e = elim (Bool-cases (leb debounce_ms (now - last))) [
        | inl q ↦ rw (q, e) (omega arith)
        | inr q ↦ rw q (omega arith)
      ]

  -- The workflow is run at most once for each change.
  pub watch_loop-rounds :
      (wakes : List Wake) (w : Watch)
      → (watch_loop t from_file run secs debounce_ms wakes w).rounds
        ≤ w.rounds + pending_of w.last_change + changes_of wakes
  unfolding watch_loop
  watch_loop-rounds [] w = omega arith
  watch_loop-rounds (changed now ∷ wakes) w =
      omega (arith, watch_loop-rounds wakes (record w { last_change = some now }))
  watch_loop-rounds (timer now ∷ wakes) w = omega (
    arith,
    watch_loop-rounds wakes (wait_over t from_file run secs debounce_ms now w),
    wait_over-rounds now w,
  )
  watch_loop-rounds (interrupt ∷ wakes) w = omega arith
