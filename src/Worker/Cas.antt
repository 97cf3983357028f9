-- ===== src/Worker/Cas.antt =====
-- The store of components: what is found under a digest has that digest.
use Prim.Native.Char.{code}
use fluxion.Prelude.{
  to_lower, eq_ignore_ascii_case, ℕ, String, Map, Option, none, some, Bool, true, false, ◌&&◌, ◌||◌,
  leb, nat_eq, lookup, contains_key, ◌≡◌, refl, sym, ap, subst, ◌∙◌, inl, inr, arith, Bool-cases,
  String-cases, lookup-insert, lookup-of_key,
}
use fluxion.Outcome.{Outcome, ok, err, panic}
use fluxion.Host.{Ran}
use fluxion.Scheduler.FanIn.{Bytes}
use fluxion.Worker.Handlers.{
  Machine, WorkerState, RunRequest, Refusal, after_failure, handle_cas_put, component_bytes,
  component_of, by_digest, prepared, run_found, run_result, ran, handle_run, inner_found,
  inner_result, run_request_inner, handle_submit_job, run_task,
}
use fluxion.Worker.Steps.{
  fresh_worker, Step, uploaded, called, submitted, ended, Steps, Steps-preserve,
}

is_hex_digit : ℕ → Bool
is_hex_digit c = (leb 48 c && leb c 57) || (leb 65 c && leb c 70) || (leb 97 c && leb c 102)

unfoldable pub is_hex : String → Bool
unfolding is_hex_digit
is_hex String.[] = true
is_hex (String.◌∷◌ c s) = is_hex_digit (code c) && is_hex s

-- A digit is one of either case or none.
is_hex_digit-to_lower :
    (c d : ℕ)
    → nat_eq (to_lower c) (to_lower d) ≡ true
    → is_hex_digit c ≡ true
    → is_hex_digit d ≡ true
unfolding to_lower is_hex_digit
is_hex_digit-to_lower c d e h = ground arith

-- Upper and lower case apart, two hexadecimal texts are the same or neither is one.
is_hex-eq_ignore_ascii_case :
    (a b : String) → eq_ignore_ascii_case a b ≡ true → is_hex a ≡ true → is_hex b ≡ true
unfolding eq_ignore_ascii_case is_hex
is_hex-eq_ignore_ascii_case String.[] String.[] e h = refl
is_hex-eq_ignore_ascii_case String.[] (String.◌∷◌ d b) e h = cc
is_hex-eq_ignore_ascii_case (String.◌∷◌ c a) String.[] e h = cc
is_hex-eq_ignore_ascii_case (String.◌∷◌ c a) (String.◌∷◌ d b) e h =
    ground (arith, is_hex-eq_ignore_ascii_case a b, is_hex_digit-to_lower (code c) (code d))

-- SHA-256 digests are printed in hexadecimal, different hexadecimal names have different paths, and a
-- write that fails leaves nothing in the file.
pub record IsSound (m : Machine) : Type 0 where
  pub hex : (b : Bytes) → is_hex (m.sha256 b) ≡ true
  pub apart :
      (a b : String) → is_hex a ≡ true → is_hex b ≡ true → m.cas_path a ≡ m.cas_path b → a ≡ b
  pub atomic :
      (path : String) (bytes : Bytes) → m.can_write path ≡ false → m.partial path bytes ≡ none

module _ (m : Machine) where
  -- A file of the store stands under the name of its digest, in upper or lower case.
  abbrev pub IsNamed : String → Bytes → Type 0
  IsNamed path bytes =
      (d : String) × (path ≡ m.cas_path d) × (eq_ignore_ascii_case (m.sha256 bytes) d ≡ true)

  abbrev pub HasDigests : WorkerState → Type 0
  HasDigests w =
      (path : String) (bytes : Bytes) → lookup path w.files ≡ some bytes → IsNamed path bytes

  put-HasDigests :
      (sha256 : String) (body : Bytes) (w : WorkerState)
      → IsSound m
      → HasDigests w
      → HasDigests (handle_cas_put m sha256 body w).1
  unfolding handle_cas_put
  put-HasDigests sha256 body w s h =
      elim (Bool-cases (eq_ignore_ascii_case (m.sha256 body) sha256)) [
        | inr e ↦ rw e h
        | inl e ↦ elim (Bool-cases (m.can_write (m.cas_path sha256))) [
          | inr f ↦ rw (e, f, after_failure, s.atomic (m.cas_path sha256) body f) h
          | inl f ↦
              rw (e, f)
                λ path bytes found. elim (String-cases (m.cas_path sha256) path) [
                  | inl (same, t) ↦
                      let b : body ≡ bytes =
                        ground
                          (arith, found, t, lookup-insert (m.cas_path sha256) path body w.files) in
                      (
                        sha256,
                        sym same,
                        subst (λ x. eq_ignore_ascii_case (m.sha256 x) sha256 ≡ true) b e,
                      )
                  | inr (_, t) ↦ h path bytes (
                      ground (arith, found, t, lookup-insert (m.cas_path sha256) path body w.files))
                ]
        ]
      ]

  component_of-files :
      (d sent : Option String) (w : WorkerState) → (component_of m d sent w).1.files ≡ w.files
  component_of-files none sent w = refl
  component_of-files (some d) sent w = by (lookup (m.cas_path d) w.files)
    where
      by : (found : Option Bytes) → (by_digest m d found sent w).1.files ≡ w.files
      by (some bytes) = refl
      by none = refl

  handle_run-files : (req : RunRequest) (w : WorkerState) → (handle_run m req w).1.files ≡ w.files
  unfolding handle_run prepared component_bytes
  handle_run-files req w =
      run (prepared m req w).0 (prepared m req w).1
      ∙ component_of-files req.component_sha256 req.component w
    where
      ended_with : (r : Ran) (v : WorkerState) → (run_result m r v).1.files ≡ v.files
      ended_with (Ran.returned output t) v = refl
      ended_with (Ran.failed error) v = refl
      ended_with (Ran.joined error) v = refl

      run :
          (found : Outcome Refusal (Bytes × Bytes)) (v : WorkerState)
          → (run_found m req found v).1.files ≡ v.files
      run (ok (component, input)) v = ended_with (ran m req component input) v
      run (err error) v = refl
      run (panic f) v = refl

  run_task-files :
      (id : String) (req : RunRequest) (w : WorkerState) → (run_task m id req w).files ≡ w.files
  unfolding run_task run_request_inner prepared component_bytes
  run_task-files id req w =
      run (prepared m req w).0 (prepared m req w).1
      ∙ component_of-files req.component_sha256 req.component w
    where
      ended_with : (r : Ran) (v : WorkerState) → (inner_result m r v).1.files ≡ v.files
      ended_with (Ran.returned output t) v = refl
      ended_with (Ran.failed error) v = refl
      ended_with (Ran.joined error) v = refl

      run :
          (found : Outcome Refusal (Bytes × Bytes)) (v : WorkerState)
          → (inner_found m req found v).1.files ≡ v.files
      run (ok (component, input)) v = ended_with (ran m req component input) v
      run (err error) v = refl
      run (panic f) v = refl

  with_files : (v w : WorkerState) → w.files ≡ v.files → HasDigests v → HasDigests w
  with_files v w e h path bytes found =
      h path bytes (ap (λ (f : Map Bytes). lookup path f) (sym e) ∙ found)

  Step-HasDigests : IsSound m → (w x : WorkerState) → Step m w x → HasDigests w → HasDigests x
  unfolding handle_submit_job
  Step-HasDigests s w x (uploaded sha256 body) h = put-HasDigests sha256 body w s h
  Step-HasDigests s w x (called req) h = with_files w x (handle_run-files req w) h
  Step-HasDigests s w x (submitted id req fresh) h = with_files w x refl h
  Step-HasDigests s w x (ended id req found) h = with_files w x (run_task-files id req w) h

  pub component_bytes-digest :
      (files : Map Bytes) (w : WorkerState) (req : RunRequest) (d : String) (bytes : Bytes)
      → IsSound m
      → HasDigests (fresh_worker files)
      → Steps m (fresh_worker files) w
      → req.component_sha256 ≡ some d
      → is_hex d ≡ true
      → contains_key (m.cas_path d) w.files ≡ true
      → (component_bytes m req w).0 ≡ ok bytes
      → eq_ignore_ascii_case (m.sha256 bytes) d ≡ true
  unfolding component_bytes
  component_bytes-digest files w req d bytes s start steps e hex known out =
      let (b, found) = lookup-of_key (m.cas_path d) w.files known in
      let (d', path, named) =
        Steps-preserve m HasDigests (Step-HasDigests s) (fresh_worker files) steps start
          (m.cas_path d) b found in
      let same : d ≡ d' =
        s.apart d d' hex (is_hex-eq_ignore_ascii_case (m.sha256 b) d' named (s.hex b)) path in
      let stored_b : (component_of m (some d) req.component w).0 ≡ ok bytes =
        ap (λ o. (component_of m o req.component w).0) (sym e) ∙ out in
      let bs : b ≡ bytes = read b found stored_b in
      subst (λ x. eq_ignore_ascii_case (m.sha256 x) d ≡ true) bs
        (subst (λ x. eq_ignore_ascii_case (m.sha256 b) x ≡ true) (sym same) named)
    where
      read :
          (b : Bytes)
          → lookup (m.cas_path d) w.files ≡ some b
          → (component_of m (some d) req.component w).0 ≡ ok bytes
          → b ≡ bytes
      read b found out =
          let q : (by_digest m d (some b) req.component w).0 ≡ ok bytes =
            ap (λ o. (by_digest m d o req.component w).0) (sym found) ∙ out in
          ground arith
