-- ===== src/Scheduler/History.antt =====
-- What the writes to the store tell of a run: a job is marked as running only when each of its
-- dependencies has been marked as done, and the run counts as a success while no job has failed.
use fluxion.Prelude.{
  String, List, [], ◌∷◌, Map, some, Bool, true, false, not, ◌==◌, ◌&&◌, ◌||◌, length, lookup,
  insert, All, if◌then◌else◌, ◌≡◌, refl, sym, ap, subst, Bool-cases, Option-cases, String-cases,
  inl, inr, lookup-insert,
}
use fluxion.Outcome.{ok, Ensures, Ensures-any, Ensures-bind, Ensures-map}
use fluxion.State.{JobStatus, running, skipped}
use fluxion.Dag.Kahn.{Deps, entries_of}
use fluxion.Scheduler.Workers.{resolve_workers}
use fluxion.Scheduler.Run.{
  World, Exec, is_done, is_failed, index, all_done, upsert_job, set_status, mark, start_job,
  skip_job, lift,
}

abbrev pub is_running : JobStatus → Bool
is_running running = true
is_running _ = false

pub index-Ensures :
    {V : Type 0} (k : String) (m : Map V) → Ensures (λ v. lookup k m ≡ some v) (index k m)
index-Ensures k m = elim (Option-cases (lookup k m)) [
  | inl e ↦ rw (e, index) tt
  | inr (v, e) ↦ rw (e, index) refl
]

-- The job `d` has been marked as succeeded, skipped or cancelled.
abbrev pub done_in : String → List (String × JobStatus) → Bool
done_in d [] = false
done_in d ((j, s) ∷ older) = (j == d && is_done s) || done_in d older

-- Of a history with the latest entry first: before a job is marked as running, all its
-- dependencies are marked as done.
abbrev pub IsDependencyOrdered : Deps → List (String × JobStatus) → Type 0
IsDependencyOrdered deps [] = Unit
IsDependencyOrdered deps ((j, s) ∷ older) =
    (is_running s ≡ true → All (λ d. done_in d older ≡ true) (entries_of j deps))
    × IsDependencyOrdered deps older

abbrev pub has_failed : List (String × JobStatus) → Bool
has_failed [] = false
has_failed ((j, s) ∷ older) = is_failed (some s) || has_failed older

module _ (w : World) where
  pub record Inv (x : Exec) : Type 0 where
    pub backed :
        (d : String) (s : JobStatus)
        → lookup d x.statuses ≡ some s
        → is_done s ≡ true
        → done_in d x.upserts ≡ true
    pub history : IsDependencyOrdered w.dag.deps x.upserts
    pub verdict : x.overall_success ≡ not (has_failed x.upserts)

  abbrev pub DepsDone : String → Exec → Type 0
  DepsDone id x = All (λ d. done_in d x.upserts ≡ true) (entries_of id w.dag.deps)

  -- A write, and what it leaves as it was.
  pub upsert_job-eq :
      (id : String) (s : JobStatus) (x : Exec)
      → Ensures (λ x'. x' ≡ record x { upserts = (id, s) ∷ x.upserts }) (upsert_job w id s x)
  unfolding upsert_job
  upsert_job-eq id s x = elim (Bool-cases (w.accepts (length x.upserts))) [
    | inl e ↦ rw e refl
    | inr e ↦ rw e tt
  ]

  -- After a write and the new status, what is done is still backed by the history.
  pub marked-backed :
      (id : String) (s : JobStatus) (x : Exec)
      → Inv x
      → (d : String) (t : JobStatus) → lookup d (insert id s x.statuses) ≡ some t
      → is_done t ≡ true
      → done_in d ((id, s) ∷ x.upserts) ≡ true
  marked-backed id s x i d t f e = elim (String-cases id d) [
    | inl (p, q) ↦
        let same : s ≡ t = cc (
          f,
          lookup-insert id d s x.statuses,
          ap (λ b. if b then some s else lookup d x.statuses) q,
        ) in
        rw (q, same, e) refl
    | inr (p, q) ↦
        let old : lookup d x.statuses ≡ some t = cc (
          f,
          lookup-insert id d s x.statuses,
          ap (λ b. if b then some s else lookup d x.statuses) q,
        ) in
        rw q (i.backed d t old e)
  ]

  pub marked-Inv :
      (id : String) (s : JobStatus) (x : Exec)
      → Inv x
      → is_failed (some s) ≡ false
      → (is_running s ≡ true → DepsDone id x)
      → Inv (record x { upserts = (id, s) ∷ x.upserts; statuses = insert id s x.statuses })
  marked-Inv id s x i nf h = record {
    backed = marked-backed id s x i;
    history = (h, i.history);
    verdict = rw nf i.verdict;
  }

  pub mark-Inv :
      (id : String) (s : JobStatus) (x : Exec)
      → Inv x
      → is_failed (some s) ≡ false
      → is_running s ≡ false
      → Ensures Inv (mark w id s x)
  unfolding mark
  mark-Inv id s x i nf nr =
      Ensures-bind (λ x'. x' ≡ record x { upserts = (id, s) ∷ x.upserts }) Inv (upsert_job w id s x)
        (λ x'. ok (set_status w id s x')) (upsert_job-eq id s x)
        λ x' e. subst (λ y. Inv (set_status w id s y)) (sym e) (marked-Inv id s x i nf (λ r. cc))

  pub skip_job-Inv : (id : String) (x : Exec) → Inv x → Ensures Inv (skip_job w id x)
  unfolding skip_job
  skip_job-Inv id x i =
      Ensures-bind Inv Inv (mark w id skipped x) _ (mark-Inv id skipped x i refl refl)
        λ x' j. record { backed = j.backed; history = j.history; verdict = j.verdict }

  pub start_job-Inv :
      (b : Bool) (id : String) (x : Exec) → Inv x → DepsDone id x → Ensures Inv (start_job w b id x)
  unfolding start_job
  start_job-Inv b id x i h =
      Ensures-bind (λ x'. x' ≡ record x { upserts = (id, running) ∷ x.upserts }) Inv
        (upsert_job w id running x) _ (upsert_job-eq id running x)
        λ x' e.
          Ensures-bind (λ _. Unit {0}) Inv
            (lift
              (resolve_workers (w.health (length x.launches)) id w.wf w.workers x'.rr w.strategy))
            _
            (Ensures-any (
              lift (
                resolve_workers (w.health (length x.launches)) id w.wf w.workers x'.rr w.strategy)))
            λ r _.
              Ensures-bind (λ _. Unit {0}) Inv (index id w.wf.jobs) _
                (Ensures-any (index id w.wf.jobs))
                λ def _.
                  let j =
                    subst (λ y. Inv (set_status w id running y)) (sym e)
                      (marked-Inv id running x i refl (λ _. h)) in
                  record { backed = j.backed; history = j.history; verdict = j.verdict }

  pub start_job-upserts :
      (b : Bool) (id : String) (x : Exec)
      → Ensures (λ y. y.upserts ≡ (id, running) ∷ x.upserts) (start_job w b id x)
  unfolding start_job
  start_job-upserts b id x =
      Ensures-bind (λ x'. x' ≡ record x { upserts = (id, running) ∷ x.upserts })
        (λ y. y.upserts ≡ (id, running) ∷ x.upserts) (upsert_job w id running x) _
        (upsert_job-eq id running x)
        λ x' e.
          Ensures-bind (λ _. Unit {0}) (λ y. y.upserts ≡ (id, running) ∷ x.upserts)
            (lift
              (resolve_workers (w.health (length x.launches)) id w.wf w.workers x'.rr w.strategy))
            _
            (Ensures-any (
              lift (
                resolve_workers (w.health (length x.launches)) id w.wf w.workers x'.rr w.strategy)))
            λ r _.
              Ensures-bind (λ _. Unit {0}) (λ y. y.upserts ≡ (id, running) ∷ x.upserts)
                (index id w.wf.jobs) _ (Ensures-any (index id w.wf.jobs))
                λ def _. ap (λ (y : Exec). y.upserts) e

  -- What `all_done` says.
  pub all_done-Ensures :
      (x : Exec) (ds : List String)
      → Inv x
      → Ensures (λ b. b ≡ true → All (λ d. done_in d x.upserts ≡ true) ds) (all_done x.statuses ds)
  unfolding all_done
  all_done-Ensures x [] i = λ _. tt
  all_done-Ensures x (d ∷ ds) i =
      Ensures-bind (λ s. lookup d x.statuses ≡ some s)
        (λ b. b ≡ true → All (λ j. done_in j x.upserts ≡ true) (d ∷ ds)) (index d x.statuses) _
        (index-Ensures d x.statuses)
        λ s e. elim (Bool-cases (is_done s)) [
          | inl t ↦ rw t (
              Ensures-map _ _ (all_done x.statuses ds) (λ b h p. (i.backed d s e t, h p))
                (all_done-Ensures x ds i))
          | inr f ↦ rw f (λ h. cc)
        ]
