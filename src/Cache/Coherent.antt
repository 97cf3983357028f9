-- ===== src/Cache/Coherent.antt =====
-- What the caches hold is what compiling gives.
use fluxion.Prelude.{
  String, Map, Option, none, some, Bool, true, strip_prefix, lookup, insert, remove, if◌then◌else◌,
  ◌⊎◌, inl, inr, ◌≡◌, refl, sym, ap, subst, ◌∙◌, arith, rsplit_once, rsplit_once-at, IsChar,
  strip_prefix-append, lookup-insert, lookup-remove, String-cases,
}
use text.Mathlib.TextLemmas.{append_assoc}
use fluxion.Outcome.{Outcome, ok, err, ◌>>=◌}
use fluxion.Workflow.Validate.{◌<>◌}
use fluxion.Expand.Defs.{or_error, get_or_else}
use fluxion.Scheduler.FanIn.{Bytes}
use fluxion.Cache.Disk.{Wasm, Lru, result, artifact, load_found, load_file, store_artifact}

-- A lookup changes no later answer, and what is found is what was put under the key, or was there.
pub record IsLru {A : Type 0} (l : Lru A) : Type 0 where
  pub looked_up : (j k : String) (c : l.Cache) → (l.get j (l.get k c).1).0 ≡ (l.get j c).0
  pub was_put :
      (j k : String) (a b : A) (c : l.Cache)
      → (l.get j (l.put k a c)).0 ≡ some b
      → ((j ≡ k) × (a ≡ b)) ⊎ ((l.get j c).0 ≡ some b)

-- The files of different keys differ.
artifact-inj : (dir a b : String) → artifact dir a ≡ artifact dir b → a ≡ b
artifact-inj dir a b h =
    let name : some (a <> ".cwasm") ≡ some (b <> ".cwasm") =
      sym (strip a) ∙ (ap (strip_prefix (dir <> "/")) h ∙ strip b) in
    let parts : rsplit_once 0x2e (a <> ".cwasm") ≡ rsplit_once 0x2e (b <> ".cwasm") =
      ap (λ s. rsplit_once 0x2e (get_or_else "" s)) name in
    let same : some (a, "cwasm") ≡ some (b, "cwasm") =
      sym (rsplit_once-at 0x2e "." dot-IsChar a "cwasm" refl)
      ∙ (parts ∙ rsplit_once-at 0x2e "." dot-IsChar b "cwasm" refl) in
    cc same
  where
    dot-IsChar : IsChar 0x2e "."
    dot-IsChar = (".", refl, refl)

    strip : (x : String) → strip_prefix (dir <> "/") (artifact dir x) ≡ some (x <> ".cwasm")
    strip x =
        ap (strip_prefix (dir <> "/")) (sym (append_assoc dir "/" (x <> ".cwasm")))
        ∙ strip_prefix-append (dir <> "/") (x <> ".cwasm")

module _ (w : Wasm) where
  open w use {Component, Pre, sha256, precompile, deserialize, instantiate_pre}

  abbrev pub compile_artifact : String ⊎ Bytes → Outcome String Component
  compile_artifact (inl e) = err e
  compile_artifact (inr bytes) = or_error "incompatible artifact" (deserialize bytes)

  -- Without a cache.
  abbrev pub compile : Bytes → Outcome String Component
  compile wasm_bytes = compile_artifact (precompile wasm_bytes)

  abbrev pub link : Bytes → Outcome String Pre
  link wasm_bytes = compile wasm_bytes >>= λ c. result (instantiate_pre c)

  -- A file that is read under the key of some bytes is what compiling them gives.
  abbrev pub IsDisk : String → Map Bytes → Type 0
  IsDisk dir files =
      (wasm bytes : Bytes) (c : Component)
      → lookup (artifact dir (sha256 wasm)) files ≡ some bytes
      → deserialize bytes ≡ some c
      → compile wasm ≡ ok c

  -- The same for what an LRU cache has under the key.
  abbrev pub IsKept : {A : Type 0} (l : Lru A) → (Bytes → Outcome String A) → l.Cache → Type 0
  IsKept {A} l made c =
      (wasm : Bytes) (a : A) → (l.get (sha256 wasm) c).0 ≡ some a → made wasm ≡ ok a

  module _ (collision_free : (a b : Bytes) → sha256 a ≡ sha256 b → a ≡ b) where
    pub get-IsKept :
        {A : Type 0} (l : Lru A) (made : Bytes → Outcome String A) (k : String) (c : l.Cache)
        → IsLru l
        → IsKept l made c
        → IsKept l made (l.get k c).1
    get-IsKept l made k c i h wasm a e = h wasm a (sym (i.looked_up (sha256 wasm) k c) ∙ e)

    pub put-IsKept :
        {A : Type 0} (l : Lru A) (made : Bytes → Outcome String A) (wasm : Bytes) (a : A)
        (c : l.Cache)
        → IsLru l
        → made wasm ≡ ok a
        → IsKept l made c
        → IsKept l made (l.put (sha256 wasm) a c)
    put-IsKept l made wasm a c i m h other b e =
        elim (i.was_put (sha256 other) (sha256 wasm) a b c e) [
          | inl (same, q) ↦ ap made (collision_free other wasm same) ∙ (m ∙ ap ok q)
          | inr q ↦ h other b q
        ]

    module _ (dir : String) where
      remove-IsDisk :
          (file : String) (files : Map Bytes) → IsDisk dir files → IsDisk dir (remove file files)
      remove-IsDisk file files h wasm bytes c e =
          h wasm bytes c (ground (arith, lookup-remove file (artifact dir (sha256 wasm)) files))

      pub load_file-IsDisk :
          (wasm : Bytes) (files : Map Bytes)
          → IsDisk dir files
          → IsDisk dir (load_file w (artifact dir (sha256 wasm)) files).1
            × ((c : Component)
                → (load_file w (artifact dir (sha256 wasm)) files).0 ≡ some c
                → compile wasm ≡ ok c)
      load_file-IsDisk wasm files h = by (lookup (artifact dir (sha256 wasm)) files) refl
        where
          file : String
          file = artifact dir (sha256 wasm)

          read :
              (bytes : Bytes) (o : Option Component)
              → lookup file files ≡ some bytes
              → deserialize bytes ≡ o
              → (let r : Option Component × Map Bytes = elim o [
                | some c ↦ (some c, files)
                | none ↦ (none, remove file files)
              ] in
                  IsDisk dir r.1 × ((c : Component) → r.0 ≡ some c → compile wasm ≡ ok c))
          read bytes (some c) f e = (h, λ d q. h wasm bytes d f (e ∙ q))
          read bytes none f e = (remove-IsDisk file files h, λ d q. cc)

          by :
              (found : Option Bytes)
              → lookup file files ≡ found
              → IsDisk dir (load_found w file found files).1
                × ((c : Component)
                    → (load_found w file found files).0 ≡ some c
                    → compile wasm ≡ ok c)
          by none f = (h, λ d q. cc)
          by (some bytes) f = read bytes (deserialize bytes) f refl

      pub store_artifact-IsDisk :
          (can_write : String → Bool) (wasm : Bytes) (files : Map Bytes)
          → ((file : String) → can_write file ≡ true)
          → IsDisk dir files
          → IsDisk dir
              (store_artifact w can_write (artifact dir (sha256 wasm)) (precompile wasm) files).1
            × ((store_artifact w can_write (artifact dir (sha256 wasm)) (precompile wasm) files).0
                ≡ compile wasm)
      store_artifact-IsDisk can_write wasm files writes h = by (precompile wasm) refl
        where
          file : String
          file = artifact dir (sha256 wasm)

          inserted :
              (bytes : Bytes) → precompile wasm ≡ inr bytes → IsDisk dir (insert file bytes files)
          inserted bytes e other found c f d =
              elim (String-cases file (artifact dir (sha256 other))) [
                | inl (same, t) ↦
                    let w_eq =
                      collision_free other wasm
                        (sym (artifact-inj dir (sha256 wasm) (sha256 other) same)) in
                    let b_eq : bytes ≡ found =
                      ground (
                        arith,
                        f,
                        t,
                        lookup-insert file (artifact dir (sha256 other)) bytes files,
                      ) in
                    ap compile w_eq
                    ∙ (ap compile_artifact e
                        ∙ ap (or_error "incompatible artifact") (ap deserialize b_eq ∙ d))
                | inr (_, t) ↦
                    h other found c
                      (ground
                        (arith, f, t, lookup-insert file (artifact dir (sha256 other)) bytes files))
                      d
              ]

          by :
              (made : String ⊎ Bytes)
              → precompile wasm ≡ made
              → IsDisk dir (store_artifact w can_write file made files).1
                × ((store_artifact w can_write file made files).0 ≡ compile_artifact made)
          by (inl why) e = (h, refl)
          by (inr bytes) e =
              subst
                (λ b.
                  let r : Outcome String Component × Map Bytes =
                    (if b
                      then (
                        or_error "incompatible artifact" (deserialize bytes),
                        insert file bytes files,
                      )
                      else (err "cannot write the artifact", files)) in
                  IsDisk dir r.1 × (r.0 ≡ compile_artifact (inr bytes)))
                (sym (writes file)) (inserted bytes e, refl)
