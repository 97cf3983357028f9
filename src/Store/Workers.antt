-- ===== src/Store/Workers.antt =====
-- The registered workers in crates/fluxion-core/src/store.rs.
use fluxion.Prelude.{
  ℕ, String, List, [], ◌∷◌, ◌++◌, map, none, some, Bool, true, ◌==◌, any, if◌then◌else◌,
}
use fluxion.Store.Tables.{WorkerEntry, RunStore, select, delete, update, affected, order_by}

abbrev pub is_worker : String → WorkerEntry → Bool
is_worker url w = w.url == url

unfoldable pub register_worker : ℕ → String → RunStore → RunStore
register_worker now url db = if any (is_worker url) db.workers then db else record db {
  workers = db.workers ++ record { url = url; registered_at = now; last_health = none } ∷ [];
}

unfoldable pub remove_worker : String → RunStore → RunStore × ℕ
remove_worker url db =
    (record db { workers = delete (is_worker url) db.workers }, affected (is_worker url) db.workers)

abbrev pub registered_at : WorkerEntry → ℕ
registered_at w = w.registered_at

unfoldable pub list_workers : RunStore → List WorkerEntry
list_workers db = order_by registered_at db.workers

unfoldable pub update_worker_health : String → Bool → RunStore → RunStore
update_worker_health url healthy db = record db {
  workers =
      update (is_worker url)
        (λ w. record w { last_health = some (if healthy then "healthy" else "unreachable") })
        db.workers;
}

-- last_health IS NULL OR last_health = 'healthy'
abbrev pub is_usable : WorkerEntry → Bool
is_usable w = elim w.last_health [ none ↦ true | some h ↦ h == "healthy" ]

unfoldable pub registered_worker_urls : RunStore → List String
registered_worker_urls db =
    map (λ (w : WorkerEntry). w.url) (order_by registered_at (select is_usable db.workers))
