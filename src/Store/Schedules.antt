-- ===== src/Store/Schedules.antt =====
-- The schedules in crates/fluxion-core/src/store.rs.
use fluxion.Prelude.{
  ℕ, String, List, [], ◌∷◌, ◌++◌, none, some, Bool, ◌==◌, ◌&&◌, any, leb, ltb, nat_eq,
  if◌then◌else◌,
}
use fluxion.Outcome.{Outcome, ok, err}
use fluxion.Store.Tables.{
  ScheduleEntry, RunStore, StoreError, constraint_failed, select, delete, update, affected,
  order_by,
}

abbrev pub is_schedule : String → ScheduleEntry → Bool
is_schedule id e = e.id == id

unfoldable pub add_schedule :
    ℕ → String → String → String → ℕ → RunStore → Outcome StoreError RunStore
add_schedule now id workflow_path cron_expr next_run_at db =
    if any (is_schedule id) db.schedules
    then err (constraint_failed id)
    else ok (record db {
      schedules =
          db.schedules
          ++ record {
            id = id;
            workflow_path = workflow_path;
            cron_expr = cron_expr;
            created_at = now;
            last_run_at = none;
            next_run_at = next_run_at;
          }
            ∷ [];
    })

unfoldable pub remove_schedule : String → RunStore → RunStore × ℕ
remove_schedule id db = (
  record db { schedules = delete (is_schedule id) db.schedules },
  affected (is_schedule id) db.schedules,
)

abbrev pub next_of : ScheduleEntry → ℕ
next_of e = e.next_run_at

unfoldable pub list_schedules : RunStore → List ScheduleEntry
list_schedules db = order_by next_of db.schedules

unfoldable pub due_schedules : ℕ → RunStore → List ScheduleEntry
due_schedules now db = order_by next_of (select (λ e. leb e.next_run_at now) db.schedules)

unfoldable pub update_schedule_next : String → ℕ → ℕ → RunStore → RunStore
update_schedule_next id last_run_at next_run_at db = record db {
  schedules =
      update (is_schedule id)
        (λ e. record e { last_run_at = some last_run_at; next_run_at = next_run_at }) db.schedules;
}

-- id = ?2 AND next_run_at = ?3
abbrev pub is_open : String → ℕ → ScheduleEntry → Bool
is_open id old_next e = e.id == id && nat_eq e.next_run_at old_next

-- Whether the claim is won, and the store after it.
unfoldable pub claim_schedule : String → ℕ → ℕ → RunStore → Bool × RunStore
claim_schedule id old_next new_next db = (
  ltb 0 (affected (is_open id old_next) db.schedules),
  record db {
    schedules =
        update (is_open id old_next) (λ e. record e { next_run_at = new_next }) db.schedules;
  },
)
