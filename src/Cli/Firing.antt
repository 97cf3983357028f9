-- ===== src/Cli/Firing.antt =====
-- What a round of the schedule daemon runs, if no other process changes the schedules meanwhile.
use fluxion.Prelude.{
  ℕ, ◌≤◌, ◌<◌, String, List, [], ◌∷◌, Option, none, some, Bool, true, false, not, ◌&&◌, ◌||◌, ◌==◌,
  any, leb, ltb, nat_eq, if◌then◌else◌, ◌≡◌, refl, sym, ap, subst, ◌∙◌, arith, inl, inr, Bool-cases,
  All, All-map, eq_self, eq_iff,
}
use fluxion.Outcome.{Outcome, ok, err, panic, ◌>>=◌}
use fluxion.Workflow.Types.{Workflow}
use fluxion.Workflow.Validate.{from_file}
use fluxion.Expand.Defs.{or_error, is_some}
use fluxion.Store.Tables.{ScheduleEntry, select, update, order_by, insert_by}
use fluxion.Store.Schedules.{
  is_schedule, is_open, next_of, due_schedules, update_schedule_next, claim_schedule,
}
use fluxion.Cli.Rows.{
  Distinct, All-update, All-order_by, All-select, order_by-Distinct, select-Distinct, Open,
  Open-self, affected-any, Open-update,
}
use fluxion.Cli.Schedule.{
  Env, World, CommandError, invalid_cron, no_occurrence, next_run_secs, loaded, run_claimed,
  fire_next, fire, fire_all, fire_due_schedules,
}

-- If the cron expression of a schedule is read, it has a time after each one up to the end.
abbrev pub Recurs : (env : Env) → ℕ → ScheduleEntry → Type 0
Recurs env end e =
    (c : env.Cron)
    → env.from_str e.cron_expr ≡ some c
    → (t : ℕ) → t ≤ end
    → (n : ℕ) × (env.upcoming c t ≡ some n) × (t < n)

-- A run of a workflow takes time and leaves the schedules as they are.
pub record IsQuiet (env : Env) : Type 0 where
  pub schedules :
      (wf : Workflow) (path : String) (w : World)
      → (env.execute wf path w).store.schedules ≡ w.store.schedules
  pub time : (wf : Workflow) (path : String) (w : World) → w.now ≤ (env.execute wf path w).now

-- The cron expression is read, and the workflow is loaded.
abbrev pub is_runnable : Env → ScheduleEntry → Bool
is_runnable env e =
    is_some (env.from_str e.cron_expr)
    && is_some (loaded env (from_file env.read_to_string env.from_yaml e.workflow_path))

-- With respect to the start of the round: the schedule is to run later, its cron expression is not
-- read, or it is still to be looked at in this round.
abbrev same : ScheduleEntry → ScheduleEntry → Bool
same e d = d.id == e.id && nat_eq d.next_run_at e.next_run_at && d.cron_expr == e.cron_expr

abbrev pub is_settled : Env → ℕ → ScheduleEntry → Bool
is_settled env start e = ltb start e.next_run_at || not (is_some (env.from_str e.cron_expr))

abbrev Settled : Env → ℕ → List ScheduleEntry → ScheduleEntry → Type 0
Settled env start due e = (is_settled env start e || any (same e) due) ≡ true

abbrev claimed : ScheduleEntry → ℕ → List ScheduleEntry → List ScheduleEntry
claimed d n rows = update (is_open d.id d.next_run_at) (λ e. record e { next_run_at = n }) rows

abbrev recorded : ScheduleEntry → ℕ → ℕ → List ScheduleEntry → List ScheduleEntry
recorded d now n rows =
    update (is_schedule d.id) (λ e. record e { last_run_at = some now; next_run_at = n }) rows

module _ (env : Env) (start : ℕ) where
  -- What one round of the loop does, from `w`, for the first of the schedules that are due.
  record Fired (d : ScheduleEntry) (due : List ScheduleEntry) (w : World) (r : Bool × World)
      : Type 0 where
    exact : r.0 ≡ is_runnable env d
    open_left :
        (e : ScheduleEntry)
        → (d.id == e.id) ≡ false
        → Open w.store.schedules e
        → Open r.1.store.schedules e
    later : w.now ≤ r.1.now
    settles :
        All (Settled env start (d ∷ due)) w.store.schedules
        → All (Settled env start due) r.1.store.schedules

  claimed-Settled :
      (d : ScheduleEntry) (due : List ScheduleEntry) (n : ℕ) (rows : List ScheduleEntry)
      → start < n
      → All (Settled env start (d ∷ due)) rows
      → All (Settled env start due) (claimed d n rows)
  claimed-Settled d due n rows l =
      All-update (is_open d.id d.next_run_at) (λ e. record e { next_run_at = n }) rows
        (λ e q h. ground arith) (λ e q h. ground (arith, eq_iff e.id d.id, eq_iff d.id e.id))

  recorded-Settled :
      (d : ScheduleEntry) (due : List ScheduleEntry) (now n : ℕ) (rows : List ScheduleEntry)
      → start < n
      → All (Settled env start due) rows
      → All (Settled env start due) (recorded d now n rows)
  recorded-Settled d due now n rows l =
      All-update (is_schedule d.id) (λ e. record e { last_run_at = some now; next_run_at = n }) rows
        (λ e q h. ground arith) (λ e q h. h)

  claimed-Open :
      (d : ScheduleEntry) (n : ℕ) (rows : List ScheduleEntry) (e : ScheduleEntry)
      → (d.id == e.id) ≡ false
      → Open rows e
      → Open (claimed d n rows) e
  claimed-Open d n rows e =
      Open-update (is_open d.id d.next_run_at) (λ x. record x { next_run_at = n }) d.id rows e
        (λ x q. ground (arith, eq_iff x.id d.id))

  recorded-Open :
      (d : ScheduleEntry) (now n : ℕ) (rows : List ScheduleEntry) (e : ScheduleEntry)
      → (d.id == e.id) ≡ false
      → Open rows e
      → Open (recorded d now n rows) e
  recorded-Open d now n rows e =
      Open-update (is_schedule d.id) (λ x. record x { last_run_at = some now; next_run_at = n })
        d.id rows e (λ x q. (eq_iff x.id d.id).0 q)

  module _ (q : IsQuiet env) where
    run_claimed-later :
        (d : ScheduleEntry) (n : ℕ) (o : Option Workflow) (w : World)
        → w.now ≤ (run_claimed env d n o w).1.now
    run_claimed-later d n none w = omega arith
    run_claimed-later d n (some wf) w = q.time wf d.workflow_path w

    fire_next-later :
        (d : ScheduleEntry) (o : Outcome CommandError ℕ) (w : World)
        → w.now ≤ (fire_next env d o w).1.now
    fire_next-later d (err e) w = omega arith
    fire_next-later d (panic f) w = omega arith
    fire_next-later d (ok n) w =
        let (won, store) = claim_schedule d.id d.next_run_at n w.store in
        let wf = loaded env (from_file env.read_to_string env.from_yaml d.workflow_path) in
        elim (Bool-cases won) [
          | inl e ↦ rw e (run_claimed-later d n wf (record w { store = store }))
          | inr e ↦ rw e (omega arith)
        ]

    fire_all-later : (due : List ScheduleEntry) (w : World) → w.now ≤ (fire_all env due w).1.now
    unfolding fire_all fire
    fire_all-later [] w = omega arith
    fire_all-later (d ∷ due) w = omega (
      arith,
      fire_next-later d (next_run_secs env d.cron_expr w.now) w,
      fire_all-later due (fire env d w).1,
    )

    abbrev after_claim : ScheduleEntry → ℕ → World → World
    after_claim d n w = record w { store = (claim_schedule d.id d.next_run_at n w.store).1 }

    -- The claim was won.
    run_claimed-Fired :
        (d : ScheduleEntry) (due : List ScheduleEntry) (n : ℕ) (w : World) (o : Option Workflow)
        → start ≤ w.now
        → w.now < n
        → is_runnable env d ≡ is_some o
        → Fired d due w (run_claimed env d n o (after_claim d n w))
    unfolding claim_schedule update_schedule_next
    run_claimed-Fired d due n w none s l e = record {
      exact = sym e;
      open_left = claimed-Open d n w.store.schedules;
      later = omega arith;
      settles = claimed-Settled d due n w.store.schedules (omega arith);
    }
    run_claimed-Fired d due n w (some wf) s l e =
        let w' = env.execute wf d.workflow_path (after_claim d n w) in
        let rows = q.schedules wf d.workflow_path (after_claim d n w) in
        record {
          exact = sym e;
          open_left = λ x h o.
              subst (λ r. Open (recorded d w'.now n r) x) (sym rows)
                (recorded-Open d w'.now n (claimed d n w.store.schedules) x h
                  (claimed-Open d n w.store.schedules x h o));
          later = q.time wf d.workflow_path (after_claim d n w);
          settles = λ a.
              subst (λ r. All (Settled env start due) (recorded d w'.now n r)) (sym rows)
                (recorded-Settled d due w'.now n (claimed d n w.store.schedules) (omega arith)
                  (claimed-Settled d due n w.store.schedules (omega arith) a));
        }

    claim-won :
        (d : ScheduleEntry) (n : ℕ) (w : World)
        → Open w.store.schedules d
        → (claim_schedule d.id d.next_run_at n w.store).0 ≡ true
    unfolding claim_schedule
    claim-won d n w o = affected-any (is_open d.id d.next_run_at) w.store.schedules ∙ o

    fire-Fired :
        (d : ScheduleEntry) (due : List ScheduleEntry) (w : World)
        → start ≤ w.now
        → (end : ℕ) → w.now ≤ end
        → Recurs env end d
        → Open w.store.schedules d
        → Fired d due w (fire env d w)
    unfolding fire next_run_secs
    fire-Fired d due w s end before c o = by (env.from_str d.cron_expr) refl
      where
        wf : Option Workflow
        wf = loaded env (from_file env.read_to_string env.from_yaml d.workflow_path)

        by :
            (read : Option env.Cron)
            → env.from_str d.cron_expr ≡ read
            → Fired d due w (
                fire_next env d
                  (or_error (invalid_cron d.cron_expr) read >>= λ schedule.
                    or_error (no_occurrence d.cron_expr) (env.upcoming schedule w.now))
                  w)
        by none e = record {
          exact = rw e;
          open_left = λ x h p. p;
          later = omega arith;
          settles =
              All-map (Settled env start (d ∷ due)) (Settled env start due) w.store.schedules
                (λ x h.
                  ground (
                    arith,
                    e,
                    ap is_some (ap env.from_str ((eq_iff d.cron_expr x.cron_expr).0 _)),
                  ));
        }
        by (some cron) e =
            let (n, u, l) = c cron e w.now before in
            let won : (claim_schedule d.id d.next_run_at n w.store).0 ≡ true = claim-won d n w o in
            subst (λ t. Fired d due w (fire_next env d (or_error (no_occurrence d.cron_expr) t) w))
              (sym u)
              (subst
                (λ b. Fired d due w (
                  if b
                  then run_claimed env d n wf (after_claim d n w)
                  else (false, after_claim d n w)))
                (sym won) (run_claimed-Fired d due n w wf s l (rw e)))

    -- The loop, from a world in which all that are due can still be claimed.
    fire_all-Fired :
        (due : List ScheduleEntry) (w : World)
        → start ≤ w.now
        → (end : ℕ) → (fire_all env due w).1.now ≤ end
        → All (Recurs env end) due
        → Distinct due
        → All (Open w.store.schedules) due
        → All (Settled env start due) w.store.schedules
        → ((fire_all env due w).0 ≡ select (is_runnable env) due)
          × All (Settled env start []) (fire_all env due w).1.store.schedules
    unfolding fire_all
    fire_all-Fired [] w s end before c d o a = (refl, a)
    fire_all-Fired (e ∷ due) w s end before c d o a =
        let r = fire env e w in
        let now_before : w.now ≤ end = omega (arith, fire_all-later (e ∷ due) w) in
        let f = fire-Fired e due w s end now_before c.0 o.0 in
        let left : All (Open r.1.store.schedules) due = remain due d.0 o.1 f.open_left in
        let rest =
          fire_all-Fired due r.1 (omega (arith, f.later)) end before c.1 d.1 left (f.settles a) in
        (
          ap (λ b. if b then e ∷ (fire_all env due r.1).0 else (fire_all env due r.1).0) f.exact
              ∙ ap (λ l. if is_runnable env e then e ∷ l else l) rest.0,
          rest.1,
        )
      where
        remain :
            (es : List ScheduleEntry)
            → All (λ x. (e.id == x.id) ≡ false) es
            → All (Open w.store.schedules) es
            → ((x : ScheduleEntry)
                → (e.id == x.id) ≡ false
                → Open w.store.schedules x
                → Open (fire env e w).1.store.schedules x)
            → All (Open (fire env e w).1.store.schedules) es
        remain [] h o k = tt
        remain (x ∷ es) h o k = (k x h.0 o.0, remain es h.1 o.1 k)

any-insert_by :
    (p : ScheduleEntry → Bool) (e : ScheduleEntry) (es : List ScheduleEntry)
    → any p (insert_by next_of e es) ≡ (p e || any p es)
any-insert_by p e [] = refl
any-insert_by p e (x ∷ es) = ground (arith, any-insert_by p e es)

any-order_by :
    (p : ScheduleEntry → Bool) (es : List ScheduleEntry) → any p (order_by next_of es) ≡ any p es
any-order_by p [] = refl
any-order_by p (e ∷ es) =
    any-insert_by p e (order_by next_of es) ∙ ap (λ b. p e || b) (any-order_by p es)

-- At the start of a round each schedule that is due is still to be looked at.
due-Settled :
    (env : Env) (now : ℕ) (rows : List ScheduleEntry)
    → All (Settled env now (order_by next_of (select (λ e. leb e.next_run_at now) rows))) rows
due-Settled env now rows =
    All-map _ (Settled env now (order_by next_of (select (λ e. leb e.next_run_at now) rows))) rows
      (λ e h. ground (arith, h, any-order_by (same e) (select (λ e. leb e.next_run_at now) rows)))
      (found rows)
  where
    Found : List ScheduleEntry → ScheduleEntry → Type 0
    Found rows e =
        (ltb now e.next_run_at || any (same e) (select (λ e. leb e.next_run_at now) rows)) ≡ true

    found : (rows : List ScheduleEntry) → All (Found rows) rows
    found [] = tt
    found (e ∷ rows) = (
      ground (arith, eq_self e.id, eq_self e.cron_expr),
      All-map (Found rows) (Found (e ∷ rows)) rows (λ x h. ground arith) (found rows),
    )

pub fire_due_schedules-exact :
    (env : Env) (w : World)
    → IsQuiet env
    → All (Recurs env (fire_due_schedules env w).1.now) w.store.schedules
    → Distinct w.store.schedules
    → ((fire_due_schedules env w).0 ≡ select (is_runnable env) (due_schedules w.now w.store))
      × All (λ e. is_settled env w.now e ≡ true) (fire_due_schedules env w).1.store.schedules
unfolding fire_due_schedules due_schedules
fire_due_schedules-exact env w q c d =
    let rows = w.store.schedules in
    let due = select (λ (e : ScheduleEntry). leb e.next_run_at w.now) rows in
    let r =
      fire_all-Fired env w.now q (order_by next_of due) w (omega arith)
        (fire_all env (order_by next_of due) w).1.now (omega arith)
        (All-order_by (Recurs env (fire_all env (order_by next_of due) w).1.now) due (
          All-select (Recurs env (fire_all env (order_by next_of due) w).1.now)
            (λ e. leb e.next_run_at w.now) rows c))
        (order_by-Distinct due (select-Distinct (λ e. leb e.next_run_at w.now) rows d))
        (All-order_by (Open rows) due
          (All-select (Open rows) (λ e. leb e.next_run_at w.now) rows (Open-self rows)))
        (due-Settled env w.now rows) in
    (
      r.0,
      All-map (Settled env w.now []) (λ e. is_settled env w.now e ≡ true) _ (λ e h. ground arith)
          r.1,
    )
