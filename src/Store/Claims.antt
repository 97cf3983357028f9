-- ===== src/Store/Claims.antt =====
-- Processes that claim the same run of a schedule.
use fluxion.Prelude.{
  ℕ, suc, String, List, [], ◌∷◌, false, any, ltb, nat_eq, some, if◌then◌else◌, ◌≡◌, refl, arith,
  All,
}
use fluxion.Store.Tables.{ScheduleEntry, RunStore, update, affected}
use fluxion.Store.Schedules.{is_schedule, is_open, claim_schedule, update_schedule_next}

-- Claims of the run at `old_next`, one after another, each with the next time that its process has
-- computed: how many of them are won, and the store after all of them.
abbrev pub claims : String → ℕ → List ℕ → RunStore → ℕ × RunStore
claims id old_next [] db = (0, db)
claims id old_next (new_next ∷ others) db =
    let (won, db') = claim_schedule id old_next new_next db in
    let (n, db'') = claims id old_next others db' in ((if won then suc n else n), db'')

abbrev open_count : String → ℕ → RunStore → ℕ
open_count id old_next db = affected (is_open id old_next) db.schedules

affected-update :
    (id : String) (old_next new_next : ℕ) (rows : List ScheduleEntry)
    → nat_eq new_next old_next ≡ false
    → affected
        (is_open id old_next)
        (update (is_open id old_next) (λ e. record e { next_run_at = new_next }) rows)
      ≡ 0
affected-update id old_next new_next [] h = refl
affected-update id old_next new_next (e ∷ rows) h =
    ground (arith, affected-update id old_next new_next rows h)

open_count-claim :
    (id : String) (old_next new_next : ℕ) (db : RunStore)
    → nat_eq new_next old_next ≡ false
    → open_count id old_next (claim_schedule id old_next new_next db).1 ≡ 0
unfolding claim_schedule
open_count-claim id old_next new_next db h = affected-update id old_next new_next db.schedules h

won-none :
    (id : String) (old_next : ℕ) (others : List ℕ) (db : RunStore)
    → All (λ n. nat_eq n old_next ≡ false) others
    → open_count id old_next db ≡ 0
    → (claims id old_next others db).0 ≡ 0
unfolding claim_schedule
won-none id old_next [] db a h = refl
won-none id old_next (n ∷ others) db a h = ground (
  arith,
  open_count-claim id old_next n db a.0,
  won-none id old_next others (claim_schedule id old_next n db).1 a.1
      (open_count-claim id old_next n db a.0),
)

-- Of any number of claims of the same run of a schedule, each with another time than that of the
-- run, exactly the first is won if the schedule is still to run then, and none if it is not.
pub claims-once :
    (id : String) (old_next n : ℕ) (others : List ℕ) (db : RunStore)
    → All (λ m. nat_eq m old_next ≡ false) (n ∷ others)
    → (claims id old_next (n ∷ others) db).0
      ≡ (if any (is_open id old_next) db.schedules then 1 else 0)
unfolding claim_schedule
claims-once id old_next n others db a = ground (
  arith,
  is_any db.schedules,
  won-none id old_next others (claim_schedule id old_next n db).1 a.1
      (open_count-claim id old_next n db a.0),
)
  where
    is_any :
        (rows : List ScheduleEntry)
        → ltb 0 (affected (is_open id old_next) rows) ≡ any (is_open id old_next) rows
    is_any [] = refl
    is_any (e ∷ rows) = ground (arith, is_any rows)

-- Process A claims a run of a schedule and writes down `next` as the time of the run after it. If
-- that one is claimed by another process before A's workflow has ended, then A's record of the end
-- opens it again: a further claim of the run at `next` is won, as long as the schedule is there.
pub claim_schedule-update_schedule_next :
    (id : String) (now next new_next other : ℕ) (db : RunStore)
    → (claim_schedule id next other
        (update_schedule_next id now next (claim_schedule id next new_next db).1)).0
      ≡ any (is_schedule id) db.schedules
unfolding claim_schedule update_schedule_next
claim_schedule-update_schedule_next id now next new_next other db = reopened db.schedules
  where
    reopened :
        (rows : List ScheduleEntry)
        → ltb 0 (
            affected (is_open id next) (
              update
                (is_schedule id)
                (λ e. record e { last_run_at = some now; next_run_at = next })
                (update (is_open id next) (λ e. record e { next_run_at = new_next }) rows)))
          ≡ any (is_schedule id) rows
    reopened [] = refl
    reopened (e ∷ rows) = ground (arith, reopened rows)
