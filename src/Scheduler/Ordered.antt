-- ===== src/Scheduler/Ordered.antt =====
-- The event loop keeps the history dependency-ordered, and the verdict right.
use fluxion.Prelude.{
  ℕ, zero, suc, ◌-◌, String, List, [], ◌∷◌, ◌++◌, Option, none, some, Bool, true, false, not, ◌==◌,
  ◌&&◌, length, all, lookup, insert, contains_key, All, if◌then◌else◌, ◌≡◌, refl, arith, Bool-cases,
  Option-cases, inl, inr, nat_eq,
}
use fluxion.Outcome.{Outcome, ok, Ensures, Ensures-any, Ensures-bind, ◌>>=◌}
use fluxion.State.{JobStatus, succeeded, failed, cancelled, from_succeeded_with_metrics}
use fluxion.Scheduler.FanIn.{Bytes}
use fluxion.Workflow.Types.{JobDefinition}
use fluxion.Dag.Kahn.{entries_of}
use fluxion.Scheduler.Run.{
  World, Exec, ExecError, JobEvent, is_pending, is_waiting, index, all_done, any_skipped, mark,
  start_job, skip_job, skips,
}
use fluxion.Scheduler.Loop.{
  Cascade, cascade_ready, cascade_pending, cascade_one, cascade_each, cascade, cascade_fuel,
  foreach_child_failed, release_ready, release_dependent, release_dependents, find_parent,
  parent_fails_fast, cancel_siblings, on_failed, on_status, record_event, on_event, Progress,
  finished, waits, event_loop, store_output,
}
use fluxion.Scheduler.History.{
  done_in, Inv, DepsDone, index-Ensures, marked-backed, mark-Inv, skip_job-Inv, start_job-Inv,
  all_done-Ensures,
}

-- What `launch` reports of a job: it succeeded, or it failed.
abbrev pub is_report : JobStatus → Bool
is_report (succeeded elapsed) = true
is_report (failed elapsed reason) = true
is_report _ = false

module _ (w : World) where
  abbrev CInv : Cascade → Type 0
  CInv c = Inv w c.0

  cascade_ready-Inv :
      (id : String) (def : JobDefinition) (x : Exec) (q : List String)
      → Inv w x
      → DepsDone w id x
      → Ensures CInv (cascade_ready w id def (x, q))
  unfolding cascade_ready
  cascade_ready-Inv id def x q i h = elim (Bool-cases (skips w def true x.statuses)) [
    | inl e ↦
        rw (e, Ensures)
          (Ensures-bind (Inv w) CInv (skip_job w id x) (λ y. ok (y, q ++ id ∷ []))
            (skip_job-Inv w id x i) (λ y j. j))
    | inr e ↦
        rw (e, Ensures)
          (Ensures-bind (Inv w) CInv (start_job w true id x) (λ y. ok (y, q))
            (start_job-Inv w true id x i h) (λ y j. j))
  ]

  -- The two reads that decide whether a job is ready, and what follows if it is.
  ready-Inv :
      {A : Type 0} (P : A → Type 0) (id : String) (x : Exec) (no_step : A)
      (k : List String → Outcome ExecError A)
      → Inv w x
      → P no_step
      → ((deps : List String) → DepsDone w id x → Ensures P (k deps))
      → Ensures P (
          index id w.dag.deps >>= λ deps.
          all_done x.statuses deps >>= λ done. elim done [ true ↦ k deps | false ↦ ok no_step ])
  ready-Inv P id x no_step k i p h =
      Ensures-bind (λ deps. lookup id w.dag.deps ≡ some deps) P (index id w.dag.deps)
        (λ deps.
          all_done x.statuses deps >>= λ done. elim done [ true ↦ k deps | false ↦ ok no_step ])
        (index-Ensures id w.dag.deps)
        λ deps e.
          Ensures-bind (λ b. b ≡ true → All (λ d. done_in d x.upserts ≡ true) deps) P
            (all_done x.statuses deps) (λ done. elim done [ true ↦ k deps | false ↦ ok no_step ])
            (all_done-Ensures w x deps i) (go deps e)
    where
      go :
          (deps : List String)
          → lookup id w.dag.deps ≡ some deps
          → (b : Bool) → (b ≡ true → All (λ d. done_in d x.upserts ≡ true) deps)
          → Ensures P (elim b [ true ↦ k deps | false ↦ ok no_step ])
      go deps e true a = h deps (rw (e, entries_of) (a refl))
      go deps e false a = p

  cascade_pending-Inv :
      (id : String) (x : Exec) (q : List String)
      → Inv w x
      → Ensures CInv (cascade_pending w id (x, q))
  unfolding cascade_pending
  cascade_pending-Inv id x q i =
      ready-Inv CInv id x (x, q)
        (λ deps. index id w.wf.jobs >>= λ def. cascade_ready w id def (x, q)) i i
        λ deps h.
          Ensures-bind (λ _. Unit {0}) CInv (index id w.wf.jobs)
            (λ def. cascade_ready w id def (x, q)) (Ensures-any (index id w.wf.jobs))
            λ def _. cascade_ready-Inv id def x q i h

  cascade_one-Inv :
      (id : String) (x : Exec) (q : List String) → Inv w x → Ensures CInv (cascade_one w id (x, q))
  unfolding cascade_one
  cascade_one-Inv id x q i = elim (Bool-cases (contains_key id w.pre_succeeded)) [
    | inl e ↦ rw (e, Ensures) i
    | inr e ↦
        rw (e, Ensures)
          (Ensures-bind (λ _. Unit {0}) CInv (index id x.statuses) _
            (Ensures-any (index id x.statuses))
            λ s _. elim (Bool-cases (is_pending s)) [
              | inl p ↦ rw (p, Ensures) (cascade_pending-Inv id x q i)
              | inr p ↦ rw (p, Ensures) i
            ])
  ]

  cascade_each-Inv :
      (ids : List String) (c : Cascade) → CInv c → Ensures CInv (cascade_each w ids c)
  unfolding cascade_each
  cascade_each-Inv [] c i = i
  cascade_each-Inv (id ∷ ids) c i =
      Ensures-bind CInv CInv (cascade_one w id c) (cascade_each w ids)
        (cascade_one-Inv id c.0 c.1 i) (cascade_each-Inv ids)

  cascade-Inv :
      (fuel : ℕ) (q : List String) (x : Exec) → Inv w x → Ensures (Inv w) (cascade w fuel q x)
  unfolding cascade
  cascade-Inv zero q x i = tt
  cascade-Inv (suc fuel) [] x i = i
  cascade-Inv (suc fuel) (id ∷ q) x i =
      Ensures-bind CInv (Inv w) (cascade_each w (entries_of id w.dag.dependents) (x, q))
        (λ c. cascade w fuel c.1 c.0) (cascade_each-Inv (entries_of id w.dag.dependents) (x, q) i)
        λ c j. cascade-Inv fuel c.1 c.0 j

  release_ready-Inv :
      (id : String) (def : JobDefinition) (deps : List String) (x : Exec)
      → Inv w x
      → DepsDone w id x
      → Ensures (Inv w) (release_ready w id def deps x)
  unfolding release_ready
  release_ready-Inv id def deps x i h = elim (Bool-cases (foreach_child_failed w def x)) [
    | inl e ↦ rw (e, Ensures) (mark-Inv w id cancelled x i refl refl)
    | inr e ↦
        rw (e, Ensures)
          (Ensures-bind (λ _. Unit {0}) (Inv w) (any_skipped x.statuses deps) _
            (Ensures-any (any_skipped x.statuses deps))
            λ b _. elim (Bool-cases (skips w def b x.statuses)) [
              | inl s ↦
                  rw (s, Ensures)
                    (Ensures-bind (Inv w) (Inv w) (skip_job w id x)
                      (λ y. cascade w (cascade_fuel w y) (id ∷ []) y) (skip_job-Inv w id x i)
                      λ y j. cascade-Inv (cascade_fuel w y) (id ∷ []) y j)
              | inr s ↦ rw (s, Ensures) (start_job-Inv w true id x i h)
            ])
  ]

  release_dependent-Inv :
      (id : String) (x : Exec) → Inv w x → Ensures (Inv w) (release_dependent w id x)
  unfolding release_dependent
  release_dependent-Inv id x i = elim (Bool-cases (contains_key id w.pre_succeeded)) [
    | inl e ↦ rw (e, Ensures) i
    | inr e ↦
        rw (e, Ensures)
          (ready-Inv (Inv w) id x x
            (λ deps. index id w.wf.jobs >>= λ def. release_ready w id def deps x) i i
            λ deps h.
              Ensures-bind (λ _. Unit {0}) (Inv w) (index id w.wf.jobs)
                (λ def. release_ready w id def deps x) (Ensures-any (index id w.wf.jobs))
                λ def _. release_ready-Inv id def deps x i h)
  ]

  release_dependents-Inv :
      (ids : List String) (x : Exec) → Inv w x → Ensures (Inv w) (release_dependents w ids x)
  unfolding release_dependents
  release_dependents-Inv [] x i = i
  release_dependents-Inv (id ∷ ids) x i =
      Ensures-bind (Inv w) (Inv w) (release_dependent w id x) (release_dependents w ids)
        (release_dependent-Inv id x i) (release_dependents-Inv ids)

  cancel_siblings-Inv :
      (id : String) (ss : List String) (x : Exec)
      → Inv w x
      → Ensures (Inv w) (cancel_siblings w id ss x)
  unfolding cancel_siblings
  cancel_siblings-Inv id [] x i = i
  cancel_siblings-Inv id (s ∷ ss) x i =
      Ensures-bind (Inv w) (Inv w)
        (if not (s == id) && is_waiting (lookup s x.statuses) then mark w s cancelled x else ok x)
        (cancel_siblings w id ss)
        (elim (Bool-cases (not (s == id) && is_waiting (lookup s x.statuses))) [
          | inl e ↦ rw (e, Ensures) (mark-Inv w s cancelled x i refl refl)
          | inr e ↦ rw (e, Ensures) i
        ])
        (cancel_siblings-Inv id ss)

  abbrev RInv : Exec × Bool → Type 0
  RInv r = Inv w r.0

  on_failed-Inv : (id : String) (x : Exec) → Inv w x → Ensures RInv (on_failed w id x)
  unfolding on_failed
  on_failed-Inv id x i = elim (Option-cases (find_parent w id w.foreach_map)) [
    | inl e ↦ rw (e, Ensures) i
    | inr (p, e) ↦
        rw (e, Ensures)
          (elim (Bool-cases (parent_fails_fast w p.0)) [
            | inl t ↦
                rw (t, Ensures)
                  (Ensures-bind (Inv w) RInv (cancel_siblings w id p.1 x) (λ y. ok (y, true))
                    (cancel_siblings-Inv id p.1 x i) (λ y j. j))
            | inr t ↦ rw (t, Ensures) i
          ])
  ]

  -- The state once the verdict is set: it is set after the write.
  abbrev settle : JobStatus → Exec → Exec
  settle (failed elapsed reason) x = record x { overall_success = false }
  settle _ x = x

  recorded-Inv :
      (id : String) (s : JobStatus) (x : Exec)
      → is_report s ≡ true
      → Inv w x
      → Inv w (
          settle s (record x {
            upserts = (id, s) ∷ x.upserts;
            statuses = insert id s x.statuses;
            in_flight = x.in_flight - 1;
          }))
  recorded-Inv id (failed elapsed reason) x r i = record {
    backed = marked-backed w id (failed elapsed reason) x i;
    history = (λ h. cc, i.history);
    verdict = refl;
  }
  recorded-Inv id (succeeded elapsed) x r i = record {
    backed = marked-backed w id (succeeded elapsed) x i;
    history = (λ h. cc, i.history);
    verdict = i.verdict;
  }
  recorded-Inv id _ x r i = cc

  record_event-Inv :
      (ev : JobEvent) (x : Exec)
      → is_report ev.status ≡ true
      → Inv w x
      → Ensures (λ y. Inv w (settle ev.status y)) (record_event w ev x)
  unfolding record_event
  record_event-Inv ev x r i = elim (Bool-cases (w.accepts (length x.upserts))) [
    | inl e ↦ rw (e, Ensures) (recorded-Inv ev.job_id ev.status x r i)
    | inr e ↦ rw (e, Ensures) tt
  ]

  on_status-Inv :
      (ev : JobEvent) (s : JobStatus) (y : Exec)
      → Inv w (settle s y)
      → Ensures RInv (on_status w ev s y)
  unfolding on_status
  on_status-Inv ev (succeeded elapsed) y i = store (ev.output) i
    where
      store :
          (out : Option Bytes)
          → Inv w y
          → Inv w (record (store_output w ev.job_id out y) {
            job_results =
                (store_output w ev.job_id out y).job_results
                ++ from_succeeded_with_metrics ev.job_id elapsed ev.compile_us ev.instantiate_us
                    ev.execute_us
                  ∷ [];
          })
      store none k = record { backed = k.backed; history = k.history; verdict = k.verdict }
      store (some b) k = record { backed = k.backed; history = k.history; verdict = k.verdict }
  on_status-Inv ev (failed elapsed reason) y i =
      on_failed-Inv ev.job_id _
        (record { backed = i.backed; history = i.history; verdict = i.verdict })
  on_status-Inv ev _ y i = i

  on_event-Inv :
      (ev : JobEvent) (x : Exec)
      → is_report ev.status ≡ true
      → Inv w x
      → Ensures RInv (on_event w ev x)
  unfolding on_event
  on_event-Inv ev x r i =
      Ensures-bind (λ y. Inv w (settle ev.status y)) RInv (record_event w ev x) _
        (record_event-Inv ev x r i)
        λ y j.
          Ensures-bind RInv RInv (on_status w ev ev.status y) _ (on_status-Inv ev ev.status y j)
            after
    where
      after :
          (a : Exec × Bool)
          → RInv a
          → Ensures RInv (elim a.1 [
            | true ↦ ok (a.0, true)
            | false ↦ elim a.0.overall_success [
              | true ↦ release_dependents w (entries_of ev.job_id w.dag.dependents) a.0 >>= λ x3.
                  ok (x3, false)
              | false ↦ ok (a.0, false)
            ]
          ])
      after (y, true) j = j
      after (y, false) j = elim (Bool-cases y.overall_success) [
        | inl e ↦
            rw (e, Ensures)
              (Ensures-bind (Inv w) RInv
                (release_dependents w (entries_of ev.job_id w.dag.dependents) y)
                (λ z. ok (z, false))
                (release_dependents-Inv (entries_of ev.job_id w.dag.dependents) y j) (λ z k. k))
        | inr e ↦ rw (e, Ensures) j
      ]

  -- What holds of the state that the loop has come to.
  abbrev pub At : (Exec → Type 0) → Progress → Type 0
  At P (finished x) = P x
  At P (waits x) = P x

  pub event_loop-Inv :
      (evs : List JobEvent) (x : Exec)
      → all (λ ev. is_report ev.status) evs ≡ true
      → Inv w x
      → Ensures (At (Inv w)) (event_loop w evs x)
  unfolding event_loop
  event_loop-Inv [] x r i = elim (Bool-cases (nat_eq x.in_flight 0)) [
    | inl e ↦ rw e i
    | inr e ↦ rw e i
  ]
  event_loop-Inv (ev ∷ evs) x r i = elim (Bool-cases (nat_eq x.in_flight 0)) [
    | inl e ↦ rw (e, Ensures) i
    | inr e ↦
        rw (e, Ensures)
          (Ensures-bind RInv (At (Inv w)) (on_event w ev x) _ (on_event-Inv ev x (ground arith) i)
            λ a j. elim (Bool-cases a.1) [
              | inl s ↦ rw (s, Ensures) j
              | inr s ↦ rw (s, Ensures) (event_loop-Inv evs a.0 (ground arith) j)
            ])
  ]
