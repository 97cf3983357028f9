-- ===== src/Store/Health.antt =====
-- health_check_all of crates/fluxion-host/src/worker_registry.rs, and which workers are used after a
-- check. Whether a worker can be reached is a parameter.
use fluxion.Prelude.{
  String, List, [], ◌∷◌, map, some, Bool, true, false, ◌==◌, ◌&&◌, ◌||◌, any, contains,
  if◌then◌else◌, ◌≡◌, refl, ap, sym, ◌∙◌, arith, eq_iff,
}
use fluxion.Store.Tables.{WorkerEntry, RunStore, select, update, order_by, insert_by}
use fluxion.Store.Workers.{
  is_worker, is_usable, registered_at, list_workers, update_worker_health, registered_worker_urls,
}

-- The loop: the workers that were reached, and the store.
unfoldable pub check_each : (String → Bool) → List WorkerEntry → RunStore → List String × RunStore
check_each reachable [] db = ([], db)
check_each reachable (w ∷ ws) db =
    let (healthy, db') =
      check_each reachable ws (update_worker_health w.url (reachable w.url) db) in
    ((if reachable w.url then w.url ∷ healthy else healthy), db')

unfoldable pub health_check_all : (String → Bool) → RunStore → List String × RunStore
unfolding check_each
health_check_all reachable db = check_each reachable (list_workers db) db

abbrev urls : List WorkerEntry → List String
urls ws = map (λ (w : WorkerEntry). w.url) ws

abbrev is_url : String → WorkerEntry → Bool
is_url v w = w.url == v

any-insert_by :
    (p : WorkerEntry → Bool) (x : WorkerEntry) (ys : List WorkerEntry)
    → any p (insert_by registered_at x ys) ≡ (p x || any p ys)
any-insert_by p x [] = refl
any-insert_by p x (y ∷ ys) = ground (arith, any-insert_by p x ys)

any-order_by :
    (p : WorkerEntry → Bool) (ws : List WorkerEntry) → any p (order_by registered_at ws) ≡ any p ws
any-order_by p [] = refl
any-order_by p (w ∷ ws) =
    any-insert_by p w (order_by registered_at ws) ∙ ap (λ b. p w || b) (any-order_by p ws)

contains-urls : (v : String) (ws : List WorkerEntry) → contains v (urls ws) ≡ any (is_url v) ws
contains-urls v [] = refl
contains-urls v (w ∷ ws) = ground (arith, contains-urls v ws)

abbrev pub is_registered : String → RunStore → Bool
is_registered url db = any (is_worker url) db.workers

contains-registered_worker_urls :
    (v : String) (db : RunStore)
    → contains v (registered_worker_urls db) ≡ any (is_url v) (select is_usable db.workers)
unfolding registered_worker_urls
contains-registered_worker_urls v db =
    contains-urls v (order_by registered_at (select is_usable db.workers))
    ∙ any-order_by (is_url v) (select is_usable db.workers)

abbrev marked : Bool → WorkerEntry → WorkerEntry
marked healthy w = record w { last_health = some (if healthy then "healthy" else "unreachable") }

any-update :
    (v url : String) (healthy : Bool) (ws : List WorkerEntry)
    → any (is_url v) (update (is_worker url) (marked healthy) ws) ≡ any (is_url v) ws
any-update v url healthy [] = refl
any-update v url healthy (w ∷ ws) = ground (arith, any-update v url healthy ws)

select-update :
    (v url : String) (healthy : Bool) (ws : List WorkerEntry)
    → any (is_url v) (select is_usable (update (is_worker url) (marked healthy) ws)) ≡ (
        if url == v
        then healthy && any (is_worker url) ws
        else any (is_url v) (select is_usable ws))
select-update v url healthy [] = ground arith
select-update v url true (w ∷ ws) =
    ground (arith, select-update v url true ws, eq_iff url v, eq_iff w.url url, eq_iff w.url v)
select-update v url false (w ∷ ws) =
    ground (arith, select-update v url false ws, eq_iff url v, eq_iff w.url url, eq_iff w.url v)

-- A registered worker is offered to runs after it was marked as healthy, and is not after it was
-- marked as unreachable; other workers are offered as before.
pub registered_worker_urls-update_worker_health :
    (v url : String) (healthy : Bool) (db : RunStore)
    → contains v (registered_worker_urls (update_worker_health url healthy db)) ≡ (
        if url == v
        then healthy && is_registered url db
        else contains v (registered_worker_urls db))
unfolding update_worker_health
registered_worker_urls-update_worker_health v url healthy db =
    contains-registered_worker_urls v (update_worker_health url healthy db)
    ∙ (select-update v url healthy db.workers
        ∙ ap (λ b. if url == v then healthy && is_registered url db else b)
            (sym (contains-registered_worker_urls v db)))

check_each-urls :
    (reachable : String → Bool) (v : String) (ws : List WorkerEntry) (db : RunStore)
    → (contains v (check_each reachable ws db).0 ≡ (any (is_url v) ws && reachable v))
      × (contains v (registered_worker_urls (check_each reachable ws db).1) ≡ (
          if any (is_url v) ws
          then reachable v && is_registered v db
          else contains v (registered_worker_urls db)))
unfolding check_each update_worker_health
check_each-urls reachable v [] db = (refl, refl)
check_each-urls reachable v (w ∷ ws) db =
    let db' = update_worker_health w.url (reachable w.url) db in
    let ih = check_each-urls reachable v ws db' in
    let same : is_registered v db' ≡ is_registered v db =
      any-update v w.url (reachable w.url) db.workers in
    let now = registered_worker_urls-update_worker_health v w.url (reachable w.url) db in
    (
      ground (arith, ih.0, eq_iff w.url v, λ (e : w.url ≡ v). ap reachable e),
      ground (
        arith,
        ih.1,
        same,
        now,
        eq_iff w.url v,
        λ (e : w.url ≡ v). ap reachable e,
        λ (e : w.url ≡ v). ap (λ u. is_registered u db) e,
      ),
    )

unusable :
    (v : String) (ws : List WorkerEntry)
    → any (is_url v) ws ≡ false
    → any (is_url v) (select is_usable ws) ≡ false
unusable v [] h = refl
unusable v (w ∷ ws) h = ground (arith, unusable v ws)

-- After a check of all workers, the workers that are returned and those that are offered to runs are
-- the same: the registered ones that were reached.
pub health_check_all-urls :
    (reachable : String → Bool) (db : RunStore) (v : String)
    → (contains v (health_check_all reachable db).0 ≡ (is_registered v db && reachable v))
      × (contains v (registered_worker_urls (health_check_all reachable db).1)
          ≡ (is_registered v db && reachable v))
unfolding health_check_all list_workers
health_check_all-urls reachable db v =
    let listed : any (is_url v) (list_workers db) ≡ is_registered v db =
      any-order_by (is_url v) db.workers in
    let (a, b) = check_each-urls reachable v (list_workers db) db in
    (a ∙ ap (λ x. x && reachable v) listed, b ∙ ground (arith, listed, never v db))
  where
    never :
        (v : String) (db : RunStore)
        → is_registered v db ≡ false
        → contains v (registered_worker_urls db) ≡ false
    never v db h = contains-registered_worker_urls v db ∙ unusable v db.workers h
