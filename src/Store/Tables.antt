-- ===== src/Store/Tables.antt =====
-- The schema of crates/fluxion-core/src/store.rs and the rows that its queries return.
use fluxion.Prelude.{ℕ, zero, suc, String, List, [], ◌∷◌, Option, Bool, ltb, if◌then◌else◌}

pub record RunDetail : Type 0 where
  pub id : String
  pub workflow_name : String
  pub workflow_path : String
  pub started_at : ℕ
  pub completed_at : Option ℕ
  pub status : String

pub record RunSummary : Type 0 where
  pub id : String
  pub workflow_name : String
  pub started_at : ℕ
  pub status : String

pub record JobDetail : Type 0 where
  pub job_id : String
  pub status : String
  pub elapsed_ms : Option ℕ
  pub reason : Option String

-- A row of job_states: its run, and the rest.
abbrev pub JobRow : Type 0
JobRow = String × JobDetail

pub record WorkerEntry : Type 0 where
  pub url : String
  pub registered_at : ℕ
  pub last_health : Option String

pub record ScheduleEntry : Type 0 where
  pub id : String
  pub workflow_path : String
  pub cron_expr : String
  pub created_at : ℕ
  pub last_run_at : Option ℕ
  pub next_run_at : ℕ

pub record RunStore : Type 0 where
  pub runs : List RunDetail
  pub job_states : List JobRow
  pub workers : List WorkerEntry
  pub schedules : List ScheduleEntry

pub data StoreError : Type 0 where
  constraint_failed run_not_found : (key : String) → StoreError

module _ {ℓ} {A : Type ℓ} where
  -- SELECT .. WHERE
  abbrev pub select : (A → Bool) → List A → List A
  select p [] = []
  select p (x ∷ xs) = let rest = select p xs in if p x then x ∷ rest else rest

  -- DELETE .. WHERE
  abbrev pub delete : (A → Bool) → List A → List A
  delete p [] = []
  delete p (x ∷ xs) = let rest = delete p xs in if p x then rest else x ∷ rest

  -- UPDATE .. SET .. WHERE
  abbrev pub update : (A → Bool) → (A → A) → List A → List A
  update p f [] = []
  update p f (x ∷ xs) = (if p x then f x else x) ∷ update p f xs

  -- The number of rows that a statement affects.
  abbrev pub affected : (A → Bool) → List A → ℕ
  affected p [] = 0
  affected p (x ∷ xs) = let rest = affected p xs in if p x then suc rest else rest

  -- INSERT .. ON CONFLICT DO UPDATE: the row with the key is replaced, or the row is appended.
  abbrev pub upsert : (A → Bool) → A → List A → List A
  upsert has_key x [] = x ∷ []
  upsert has_key x (y ∷ ys) =
      let rest = upsert has_key x ys in if has_key y then x ∷ ys else y ∷ rest

  -- ORDER BY key
  abbrev pub insert_by : (A → ℕ) → A → List A → List A
  insert_by key x [] = x ∷ []
  insert_by key x (y ∷ ys) =
      let rest = insert_by key x ys in if ltb (key y) (key x) then y ∷ rest else x ∷ y ∷ ys

  abbrev pub order_by : (A → ℕ) → List A → List A
  order_by key [] = []
  order_by key (x ∷ xs) = insert_by key x (order_by key xs)

  -- ORDER BY key DESC
  abbrev pub insert_by_desc : (A → ℕ) → A → List A → List A
  insert_by_desc key x [] = x ∷ []
  insert_by_desc key x (y ∷ ys) =
      let rest = insert_by_desc key x ys in if ltb (key x) (key y) then y ∷ rest else x ∷ y ∷ ys

  abbrev pub order_by_desc : (A → ℕ) → List A → List A
  order_by_desc key [] = []
  order_by_desc key (x ∷ xs) = insert_by_desc key x (order_by_desc key xs)

  -- LIMIT n
  abbrev pub limit : ℕ → List A → List A
  limit zero xs = []
  limit (suc n) [] = []
  limit (suc n) (x ∷ xs) = x ∷ limit n xs
