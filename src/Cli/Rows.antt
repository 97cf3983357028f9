-- ===== src/Cli/Rows.antt =====
-- Rows of the table of schedules: what a query and an update keep.
use fluxion.Prelude.{
  String, List, [], ◌∷◌, Bool, true, false, ◌==◌, any, ltb, ◌≡◌, refl, inl, inr, arith, All,
  All-map, Bool-cases, eq_self, eq_iff,
}
use fluxion.Store.Tables.{ScheduleEntry, select, update, affected, order_by, insert_by}
use fluxion.Store.Schedules.{is_open, next_of}

-- No two schedules have one id.
abbrev pub Distinct : List ScheduleEntry → Type 0
Distinct [] = Unit
Distinct (e ∷ es) = All (λ x. (e.id == x.id) ≡ false) es × Distinct es

module _ (P : ScheduleEntry → Type 0) where
  pub All-insert_by :
      (e : ScheduleEntry) (es : List ScheduleEntry)
      → P e
      → All P es
      → All P (insert_by next_of e es)
  All-insert_by e [] h a = (h, tt)
  All-insert_by e (x ∷ es) h a = elim (Bool-cases (ltb (next_of x) (next_of e))) [
    | inl q ↦ rw q (a.0, All-insert_by e es h a.1)
    | inr q ↦ rw q (h, a)
  ]

  pub All-order_by : (es : List ScheduleEntry) → All P es → All P (order_by next_of es)
  All-order_by [] a = tt
  All-order_by (e ∷ es) a = All-insert_by e (order_by next_of es) a.0 (All-order_by es a.1)

  pub All-select :
      (p : ScheduleEntry → Bool) (es : List ScheduleEntry) → All P es → All P (select p es)
  All-select p [] a = tt
  All-select p (e ∷ es) a = elim (Bool-cases (p e)) [
    | inl q ↦ rw q (a.0, All-select p es a.1)
    | inr q ↦ rw q (All-select p es a.1)
  ]

pub All-update :
    {P Q : ScheduleEntry → Type 0} (p : ScheduleEntry → Bool) (f : ScheduleEntry → ScheduleEntry)
    (es : List ScheduleEntry)
    → ((e : ScheduleEntry) → p e ≡ true → P e → Q (f e))
    → ((e : ScheduleEntry) → p e ≡ false → P e → Q e)
    → All P es
    → All Q (update p f es)
All-update p f [] h k a = tt
All-update p f (e ∷ es) h k a = elim (Bool-cases (p e)) [
  | inl q ↦ rw q (h e q a.0, All-update p f es h k a.1)
  | inr q ↦ rw q (k e q a.0, All-update p f es h k a.1)
]

insert_by-Distinct :
    (e : ScheduleEntry) (es : List ScheduleEntry)
    → All (λ x. (e.id == x.id) ≡ false) es
    → Distinct es
    → Distinct (insert_by next_of e es)
insert_by-Distinct e [] a d = (tt, tt)
insert_by-Distinct e (x ∷ es) a d = elim (Bool-cases (ltb (next_of x) (next_of e))) [
  | inl q ↦ rw q (
    All-insert_by (λ y. (x.id == y.id) ≡ false) e es
        (ground (arith, a.0, eq_iff e.id x.id, eq_iff x.id e.id)) d.0,
    insert_by-Distinct e es a.1 d.1,
  )
  | inr q ↦ rw q (a, d)
]

pub order_by-Distinct : (es : List ScheduleEntry) → Distinct es → Distinct (order_by next_of es)
order_by-Distinct [] d = tt
order_by-Distinct (e ∷ es) d =
    insert_by-Distinct e (order_by next_of es) (All-order_by (λ x. (e.id == x.id) ≡ false) es d.0)
      (order_by-Distinct es d.1)

pub select-Distinct :
    (p : ScheduleEntry → Bool) (es : List ScheduleEntry) → Distinct es → Distinct (select p es)
select-Distinct p [] d = tt
select-Distinct p (e ∷ es) d = elim (Bool-cases (p e)) [
  | inl q ↦ rw q (All-select (λ x. (e.id == x.id) ≡ false) p es d.0, select-Distinct p es d.1)
  | inr q ↦ rw q (select-Distinct p es d.1)
]

-- A schedule that is still to run at its time stands in the table.
abbrev pub Open : List ScheduleEntry → ScheduleEntry → Type 0
Open rows e = any (is_open e.id e.next_run_at) rows ≡ true

pub Open-self : (rows : List ScheduleEntry) → All (Open rows) rows
Open-self [] = tt
Open-self (e ∷ rows) = (
  ground (arith, eq_self e.id),
  All-map (Open rows) (Open (e ∷ rows)) rows (λ x h. ground arith) (Open-self rows),
)

pub affected-any :
    (p : ScheduleEntry → Bool) (rows : List ScheduleEntry) → ltb 0 (affected p rows) ≡ any p rows
affected-any p [] = refl
affected-any p (e ∷ rows) = ground (arith, affected-any p rows)

-- What is done to the rows of one id leaves the other schedules open.
pub Open-update :
    (p : ScheduleEntry → Bool) (f : ScheduleEntry → ScheduleEntry) (id : String)
    (rows : List ScheduleEntry) (e : ScheduleEntry)
    → ((x : ScheduleEntry) → p x ≡ true → x.id ≡ id)
    → (id == e.id) ≡ false
    → Open rows e
    → Open (update p f rows) e
Open-update p f id [] e h n o = o
Open-update p f id (x ∷ rows) e h n o = elim (Bool-cases (p x)) [
  | inl q ↦
      let i = h x q in
      let later : Open rows e = ground (arith, eq_iff x.id e.id, eq_iff id e.id) in
      rw q (ground (arith, Open-update p f id rows e h n later))
  | inr q ↦ rw q (elim (Bool-cases (is_open e.id e.next_run_at x)) [
    | inl s ↦ rw s refl
    | inr s ↦ rw s (Open-update p f id rows e h n (rw s at o))
  ])
]
