-- ===== src/Scheduler/Failover.antt =====
-- run_with_failover of crates/fluxion-host/src/scheduler.rs: a job is offered to one worker after
-- another. What a worker replies is a parameter.
use fluxion.Prelude.{
  String, List, [], ◌∷◌, ◌++◌, Bool, true, false, not, ◌&&◌, All, ◌≡◌, ◌⊎◌, inl, inr, refl, ap, ◌∙◌,
  sym, subst,
}
use mathlib.Core.List.{append_assoc}
use fluxion.Outcome.{Outcome, ok, err, panic, unreachable_code}
use fluxion.Scheduler.Workers.{WorkerInfo}
use fluxion.Workflow.Validate.{◌<>◌, join}

-- A result, or an error and whether it is one that another worker may not have.
pub data Reply {ℓ} (A : Type ℓ) : Type ℓ where
  answered : A → Reply A
  refused : (message : String) (is_failover : Bool) → Reply A

abbrev pub is_last {ℓ} : {A : Type ℓ} → List A → Bool
is_last [] = true
is_last (x ∷ xs) = false

-- format!("{}: {e}", worker.url)
abbrev pub attempt : WorkerInfo → String → String
attempt w message = w.url <> ": " <> message

abbrev pub dispatch_failed : List String → String
dispatch_failed tried = "job dispatch failed [" <> join "; " tried <> "]"

module _ {ℓ} {A : Type ℓ} (run_remote : WorkerInfo → Reply A) where
  -- The loop, from the attempts made so far on. Behind it no code is reached.
  unfoldable pub failover_from : List String → List WorkerInfo → Outcome String A
  failover_from tried [] = panic unreachable_code
  failover_from tried (w ∷ ws) = elim (run_remote w) [
    | answered r ↦ ok r
    | refused message is_failover ↦ elim (is_failover && not (is_last ws)) [
      | true ↦ failover_from (tried ++ attempt w message ∷ []) ws
      | false ↦ err (dispatch_failed (tried ++ attempt w message ∷ []))
    ]
  ]

  unfoldable pub run_with_failover : List WorkerInfo → Outcome String A
  unfolding failover_from
  run_with_failover workers = failover_from [] workers

  -- The errors of the workers of a list.
  abbrev pub attempts : List WorkerInfo → List String
  attempts [] = []
  attempts (w ∷ ws) = elim (run_remote w) [
    | answered r ↦ attempts ws
    | refused message is_failover ↦ attempt w message ∷ attempts ws
  ]

  abbrev pub IsUnreachable : WorkerInfo → Type ℓ
  IsUnreachable w = (message : String) × (run_remote w ≡ refused message true)

  -- The worker that ends the search, and what the job gets from it.
  abbrev pub Stops :
      List WorkerInfo → WorkerInfo → List WorkerInfo → List String → Outcome String A → Type ℓ
  Stops pre w post tried result =
      ((r : A) × (run_remote w ≡ answered r) × (result ≡ ok r))
      ⊎ ((message : String) × (f : Bool) × (run_remote w ≡ refused message f)
          × ((f ≡ false) ⊎ (post ≡ []))
          × (result ≡ err (dispatch_failed (tried ++ attempts (pre ++ w ∷ [])))))

  -- Behind a worker that could not be reached, the search is the rest's.
  Stops-cons :
      (v : WorkerInfo) (message : String) (pre : List WorkerInfo) (w : WorkerInfo)
      (post : List WorkerInfo) (tried : List String) (result : Outcome String A)
      → run_remote v ≡ refused message true
      → Stops pre w post (tried ++ attempt v message ∷ []) result
      → Stops (v ∷ pre) w post tried result
  Stops-cons v message pre w post tried result h (inl s) = inl s
  Stops-cons v message pre w post tried result h (inr (m, f, e, why, out)) = inr (
    m,
    f,
    e,
    why,
    out
        ∙ ap (λ t. err (dispatch_failed t))
            (append_assoc tried (attempt v message ∷ []) (attempts (pre ++ w ∷ []))
              ∙ ap (λ t. tried ++ t) (sym (attempts-cons v message (pre ++ w ∷ []) h))),
  )
    where
      attempts-cons :
          (v : WorkerInfo) (message : String) (ws : List WorkerInfo)
          → run_remote v ≡ refused message true
          → attempts (v ∷ ws) ≡ attempt v message ∷ attempts ws
      attempts-cons v message ws h = rw (h, attempts) refl

  abbrev pub Found : List String → List WorkerInfo → Type ℓ
  Found tried ws =
      (pre : List WorkerInfo) × (w : WorkerInfo) × (post : List WorkerInfo) × (ws ≡ pre ++ w ∷ post)
      × All IsUnreachable pre
      × Stops pre w post tried (failover_from tried ws)

  attempts-of_one :
      (v : WorkerInfo) (message : String) (f : Bool)
      → run_remote v ≡ refused message f
      → attempts (v ∷ []) ≡ attempt v message ∷ []
  attempts-of_one v message f h = rw (h, attempts) refl

  Found-here :
      (tried : List String) (v : WorkerInfo) (vs : List WorkerInfo) (message : String) (f : Bool)
      → run_remote v ≡ refused message f
      → (f ≡ false) ⊎ (vs ≡ [])
      → failover_from tried (v ∷ vs) ≡ err (dispatch_failed (tried ++ attempt v message ∷ []))
      → Found tried (v ∷ vs)
  Found-here tried v vs message f h why out =
      ([], v, vs, refl, tt, inr (message, f, h, why, rw (attempts-of_one v message f h) out))

  Found-later :
      (tried : List String) (v u : WorkerInfo) (us : List WorkerInfo) (message : String)
      → run_remote v ≡ refused message true
      → failover_from tried (v ∷ u ∷ us) ≡ failover_from (tried ++ attempt v message ∷ []) (u ∷ us)
      → Found (tried ++ attempt v message ∷ []) (u ∷ us)
      → Found tried (v ∷ u ∷ us)
  Found-later tried v u us message h same (pre, w, post, split, far, stop) = (
    v ∷ pre,
    w,
    post,
    ap (λ l. v ∷ l) split,
    ((message, h), far),
    Stops-cons v message pre w post tried (failover_from tried (v ∷ u ∷ us)) h
        (subst (Stops pre w post (tried ++ attempt v message ∷ [])) (sym same) stop),
  )

  failover_from-Found :
      (tried : List String) (v : WorkerInfo) (vs : List WorkerInfo) → Found tried (v ∷ vs)
  unfolding failover_from
  failover_from-Found tried v [] = last (run_remote v) refl
    where
      last : (reply : Reply A) → run_remote v ≡ reply → Found tried (v ∷ [])
      last (answered r) e = ([], v, [], refl, tt, inl (r, e, rw (e, failover_from) refl))
      last (refused message false) e =
          Found-here tried v [] message false e (inl refl) (rw (e, failover_from) refl)
      last (refused message true) e =
          Found-here tried v [] message true e (inr refl) (rw (e, failover_from) refl)
  failover_from-Found tried v (u ∷ us) =
      further (run_remote v) refl (λ m. failover_from-Found (tried ++ attempt v m ∷ []) u us)
    where
      further :
          (reply : Reply A)
          → run_remote v ≡ reply
          → ((m : String) → Found (tried ++ attempt v m ∷ []) (u ∷ us))
          → Found tried (v ∷ u ∷ us)
      further (answered r) e later =
          ([], v, u ∷ us, refl, tt, inl (r, e, rw (e, failover_from) refl))
      further (refused message false) e later =
          Found-here tried v (u ∷ us) message false e (inl refl) (rw (e, failover_from) refl)
      further (refused message true) e later =
          Found-later tried v u us message e (rw (e, failover_from) refl) (later message)

-- A job that is offered to some workers ends at one of them: those before it could not be reached,
-- and it answered, which is the job's result, or it gave an error that is no failure to reach it or
-- there is no worker behind it, and the job fails with the errors of all that were tried.
pub run_with_failover-cases :
    {A : Type 0} (run_remote : WorkerInfo → Reply A) (v : WorkerInfo) (vs : List WorkerInfo)
    → (pre : List WorkerInfo) × (w : WorkerInfo) × (post : List WorkerInfo) × (v ∷ vs
        ≡ pre ++ w ∷ post)
      × All (IsUnreachable run_remote) pre
      × Stops run_remote pre w post [] (run_with_failover run_remote (v ∷ vs))
unfolding run_with_failover
run_with_failover-cases run_remote v vs = failover_from-Found run_remote [] v vs
