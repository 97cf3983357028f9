-- ===== src/Scheduler/Safe.antt =====
-- The whole of a run: its history is dependency-ordered, and its verdict is right.
use fluxion.Prelude.{
  ◌<◌, String, List, [], ◌∷◌, Map, some, Bool, true, false, not, ◌&&◌, ◌||◌, all, lookup, keys,
  count, contains_key, IsMap, All, ◌≡◌, refl, sym, ◌∙◌, subst, arith, eq_iff, Bool-cases, inl, inr,
}
use fluxion.Outcome.{ok, Ensures, Ensures-bind, Ensures-map, Ensures-both, Ensures-value}
use fluxion.State.{JobStatus, running, succeeded}
use fluxion.Workflow.Types.{JobDefinition}
use fluxion.Dag.Kahn.{entries_of}
use fluxion.Dag.Build.{deps_of_jobs, roots}
use fluxion.Dag.Notify.{IsMap-tail}
use fluxion.Dag.Correct.{roots_iff, IsMap-deps}
use fluxion.Scheduler.Run.{World, Exec, JobEvent, is_done, upsert_job, set_status, start_job}
use fluxion.Expand.Defs.{is_some}
use fluxion.Scheduler.Loop.{Progress, finished, waits, event_loop}
use fluxion.Scheduler.Start.{
  all_pending, initial, add_previous, check_remote, seed, start_roots, resumes, start_resumed,
  start, run_events, is_remote,
}
use fluxion.Scheduler.History.{
  done_in, IsDependencyOrdered, has_failed, Inv, DepsDone, upsert_job-eq, marked-Inv, start_job-Inv,
  start_job-upserts,
}
use fluxion.Scheduler.Ordered.{is_report, At, event_loop-Inv}

abbrev pub is_succeeded : JobStatus → Bool
is_succeeded (succeeded elapsed) = true
is_succeeded _ = false

-- The graph is that of the workflow, and what is taken over from a previous run did succeed.
pub record IsPrepared (w : World) : Type 0 where
  pub jobs : IsMap w.wf.jobs
  pub deps : w.dag.deps ≡ deps_of_jobs w.wf.jobs
  pub previous : all (λ e. is_succeeded e.1) w.pre_succeeded ≡ true

lookup-all_pending :
    (d : String) (s : JobStatus) (jobs : Map JobDefinition)
    → lookup d (all_pending jobs) ≡ some s
    → is_done s ≡ false
lookup-all_pending d s [] h = cc
lookup-all_pending d s ((j, def) ∷ jobs) h = ground (arith, lookup-all_pending d s jobs)

initial-Inv : (w : World) → Inv w (initial w.wf.jobs)
initial-Inv w = record {
  backed = λ d s h e. cc (e, lookup-all_pending d s w.wf.jobs h);
  history = tt;
  verdict = refl;
}

entries-of_built :
    (all_jobs jobs : Map JobDefinition)
    → IsMap jobs
    → ((k : String)
        → 0 < count k (keys jobs)
        → entries_of k (deps_of_jobs jobs) ≡ entries_of k (deps_of_jobs all_jobs))
    → All (λ e. entries_of e.0 (deps_of_jobs all_jobs) ≡ e.1.depends_on) jobs
entries-of_built all_jobs [] m h = tt
entries-of_built all_jobs ((id, def) ∷ jobs) m h = (
  sym (h id (ground (arith, eq_iff id id))) ∙ ground (arith, eq_iff id id),
  entries-of_built all_jobs jobs (IsMap-tail id def jobs m) (λ k p. ground (arith, m k, h k)),
)

module _ (w : World) where
  -- What was done in a previous run is in the history.
  abbrev Seeded : Exec → Type 0
  Seeded x = (d : String) → contains_key d w.pre_succeeded ≡ true → done_in d x.upserts ≡ true

  abbrev Ready : Exec → Type 0
  Ready x = Inv w x × Seeded x

  previous-Inv :
      (id : String) (s : JobStatus) (x : Exec)
      → Inv w x
      → is_succeeded s ≡ true
      → Inv w (add_previous id s (set_status w id s (record x { upserts = (id, s) ∷ x.upserts })))
  previous-Inv id (succeeded elapsed) x i r =
      let j = marked-Inv w id (succeeded elapsed) x i refl (λ h. cc) in
      record { backed = j.backed; history = j.history; verdict = j.verdict }
  previous-Inv id _ x i r = cc

  upserts-add_previous :
      (id : String) (s : JobStatus) (x : Exec) → (add_previous id s x).upserts ≡ x.upserts
  upserts-add_previous id (succeeded elapsed) x = refl
  upserts-add_previous id _ x = refl

  seed-Ready :
      (todo : Map JobStatus) (x : Exec)
      → Inv w x
      → all (λ e. is_succeeded e.1) todo ≡ true
      → ((d : String)
          → contains_key d w.pre_succeeded ≡ true
          → (contains_key d todo || done_in d x.upserts) ≡ true)
      → Ensures Ready (seed w todo x)
  unfolding seed
  seed-Ready [] x i r h = (i, h)
  seed-Ready ((id, s) ∷ todo) x i r h =
      Ensures-bind (λ x'. x' ≡ record x { upserts = (id, s) ∷ x.upserts }) Ready
        (upsert_job w id s x) (λ x'. seed w todo (add_previous id s (set_status w id s x')))
        (upsert_job-eq w id s x)
        λ x' e.
          subst (λ y. Ensures Ready (seed w todo (add_previous id s (set_status w id s y)))) (sym e)
            (seed-Ready todo
              (add_previous id s (set_status w id s (record x { upserts = (id, s) ∷ x.upserts })))
              (previous-Inv id s x i (ground arith)) (ground arith)
              (λ d k.
                rw
                  (upserts-add_previous id s
                    (set_status w id s (record x { upserts = (id, s) ∷ x.upserts })))
                  (ground (arith, h d k))))

  start_job-Ready :
      (b : Bool) (id : String) (x : Exec)
      → Ready x
      → DepsDone w id x
      → Ensures Ready (start_job w b id x)
  start_job-Ready b id x i h =
      Ensures-map (λ y. Inv w y × (y.upserts ≡ (id, running) ∷ x.upserts)) Ready
        (start_job w b id x) (λ y (j, e). (j, λ d k. rw e (ground (arith, i.1 d k))))
        (Ensures-both _ _ (start_job w b id x) (start_job-Inv w b id x i.0 h)
          (start_job-upserts w b id x))

  start_roots-Ready :
      (ids : List String) (x : Exec)
      → Ready x
      → All (λ id. entries_of id w.dag.deps ≡ []) ids
      → Ensures Ready (start_roots w ids x)
  unfolding start_roots
  start_roots-Ready [] x i a = i
  start_roots-Ready (id ∷ ids) x i a =
      Ensures-bind Ready Ready
        (elim (contains_key id w.pre_succeeded) [ true ↦ ok x | false ↦ start_job w false id x ])
        (start_roots w ids)
        (elim (Bool-cases (contains_key id w.pre_succeeded)) [
          | inl e ↦ rw (e, Ensures) i
          | inr e ↦ rw (e, Ensures) (start_job-Ready false id x i (rw a.0 tt))
        ])
        (λ y j. start_roots-Ready ids y j a.1)

  All-done :
      (x : Exec) (ds : List String)
      → Seeded x
      → all (λ d. contains_key d w.pre_succeeded) ds ≡ true
      → All (λ d. done_in d x.upserts ≡ true) ds
  All-done x [] s h = tt
  All-done x (d ∷ ds) s h = (s d (ground arith), All-done x ds s (ground arith))

  start_resumed-Ready :
      (jobs : Map JobDefinition) (x : Exec)
      → Ready x
      → All (λ e. entries_of e.0 w.dag.deps ≡ e.1.depends_on) jobs
      → Ensures Ready (start_resumed w jobs x)
  unfolding start_resumed
  start_resumed-Ready [] x i a = i
  start_resumed-Ready ((id, def) ∷ jobs) x i a =
      Ensures-bind Ready Ready
        (elim (resumes w id def) [ true ↦ start_job w true id x | false ↦ ok x ])
        (start_resumed w jobs)
        (elim (Bool-cases (resumes w id def)) [
          | inl e ↦
              rw (e, Ensures)
                (start_job-Ready true id x i
                  (rw a.0 (All-done x def.depends_on i.1 (ground arith))))
          | inr e ↦ rw (e, Ensures) i
        ])
        (λ y j. start_resumed-Ready jobs y j a.1)

  roots-empty :
      IsPrepared w
      → (ids : List String) → ((k : String) → 0 < count k ids → 0 < count k (roots w.dag))
      → All (λ id. entries_of id w.dag.deps ≡ []) ids
  roots-empty p [] h = tt
  roots-empty p (id ∷ ids) h = (
    (let found : lookup id w.dag.deps ≡ some [] =
          (roots_iff w.dag id (rw p.deps (IsMap-deps w.wf.jobs p.jobs))).0.0
            (h id (ground (arith, eq_iff id id))) in
        rw (found, entries_of) refl),
    roots-empty p ids (λ k q. h k (ground arith)),
  )

  check_remote-same :
      (jobs : Map JobDefinition) (x : Exec) → Ensures (λ y. y ≡ x) (check_remote w jobs x)
  unfolding check_remote
  check_remote-same [] x = refl
  check_remote-same ((id, def) ∷ jobs) x =
      elim (Bool-cases (
        is_remote def.executor
        && not (is_some def.worker)
        && (elim w.workers [ [] ↦ true | _ ↦ false ]))) [
          | inl e ↦ rw (e, Ensures) tt
          | inr e ↦ rw (e, Ensures) (check_remote-same jobs x)
        ]

  start-Ready : IsPrepared w → Ensures Ready (start w)
  unfolding start
  start-Ready p =
      Ensures-bind (λ y. y ≡ initial w.wf.jobs) Ready (check_remote w w.wf.jobs (initial w.wf.jobs))
        _ (check_remote-same w.wf.jobs (initial w.wf.jobs))
        λ x0 e.
          Ensures-bind Ready Ready (seed w w.pre_succeeded x0) _
            (seed-Ready w.pre_succeeded x0 (subst (Inv w) (sym e) (initial-Inv w)) p.previous
              (λ d k. ground (arith, k)))
            λ x1 r1.
              Ensures-bind Ready Ready (start_roots w (roots w.dag) x1) (start_resumed w w.wf.jobs)
                (start_roots-Ready (roots w.dag) x1 r1 (roots-empty p (roots w.dag) (λ k q. q)))
                λ x2 r2.
                  start_resumed-Ready w.wf.jobs x2 r2
                    (rw p.deps (entries-of_built w.wf.jobs w.wf.jobs p.jobs (λ k q. refl)))

  run_events-Inv :
      (events : List JobEvent)
      → IsPrepared w
      → all (λ ev. is_report ev.status) events ≡ true
      → Ensures (At w (Inv w)) (run_events w events)
  unfolding run_events
  run_events-Inv events p r =
      Ensures-bind Ready (At w (Inv w)) (start w) (event_loop w events) (start-Ready p)
        λ x i. event_loop-Inv w events x r i.0

abbrev pub state_of : Progress → Exec
state_of (finished x) = x
state_of (waits x) = x

at_state : (w : World) (P : Exec → Type 0) (g : Progress) → At w P g → P (state_of g)
at_state w P (finished x) h = h
at_state w P (waits x) h = h

-- Whatever jobs report, and in whatever order, the writes of a run to the store are dependency
-- ordered: a job is marked as running only when each job that it depends on has been marked as
-- succeeded, skipped or cancelled. The graph is assumed to be built from the workflow, whose job
-- names are distinct, and what is taken over from a previous run to have succeeded.
pub run_events-IsDependencyOrdered :
    (w : World) (events : List JobEvent) (g : Progress)
    → IsPrepared w
    → all (λ ev. is_report ev.status) events ≡ true
    → run_events w events ≡ ok g
    → IsDependencyOrdered w.dag.deps (state_of g).upserts
run_events-IsDependencyOrdered w events g p r e =
    (at_state w (Inv w) g (
      Ensures-value (At w (Inv w)) (run_events w events) g (run_events-Inv w events p r) e)).history

-- A run counts as a success exactly as long as no job is marked as failed in the writes to the store,
-- under the assumptions of the theorem above.
pub run_events-verdict :
    (w : World) (events : List JobEvent) (g : Progress)
    → IsPrepared w
    → all (λ ev. is_report ev.status) events ≡ true
    → run_events w events ≡ ok g
    → (state_of g).overall_success ≡ not (has_failed (state_of g).upserts)
run_events-verdict w events g p r e =
    (at_state w (Inv w) g (
      Ensures-value (At w (Inv w)) (run_events w events) g (run_events-Inv w events p r) e)).verdict
