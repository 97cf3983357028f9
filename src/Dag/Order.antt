-- ===== src/Dag/Order.antt =====
-- What a topological order of a dependency map is, independently of the algorithm that finds one.
use fluxion.Prelude.{
  ℕ, ◌+◌, ◌<◌, ◌≤◌, String, List, [], ◌∷◌, ◌++◌, count, count-append, length, keys, All, nat_eq,
  if◌then◌else◌, ◌≡◌, refl, arith, eq_iff,
}
use mathlib.Core.List.{append-nil, append_assoc}
use fluxion.Dag.Kahn.{Deps, entries_of}

-- Behind `seen`, each job of the list stands behind all the jobs that it depends on.
abbrev pub IsOrdered : Deps → List String → List String → Type 0
IsOrdered deps seen [] = Unit
IsOrdered deps seen (k ∷ ks) =
    All (λ d. 0 < count d seen) (entries_of k deps) × IsOrdered deps (seen ++ k ∷ []) ks

-- Each key of the map stands in the order as often as it is a key, and behind its dependencies.
pub record IsTopoOrder (deps : Deps) (order : List String) : Type 0 where
  pub complete : (k : String) → count k order ≡ count k (keys deps)
  pub ordered : IsOrdered deps [] order

-- How many entries of a list of dependencies are not placed yet.
abbrev pub unmet : List String → List String → ℕ
unmet o [] = 0
unmet o (d ∷ ds) = (if nat_eq (count d o) 0 then 1 else 0) + unmet o ds

pub unmet-nil : (ds : List String) → unmet [] ds ≡ length ds
unmet-nil [] = refl
unmet-nil (d ∷ ds) = omega (arith, unmet-nil ds)

pub unmet-snoc :
    (o : List String) (job : String) (ds : List String)
    → count job o ≡ 0
    → unmet (o ++ job ∷ []) ds + count job ds ≡ unmet o ds
unmet-snoc o job [] h = refl
unmet-snoc o job (d ∷ ds) h =
    ground (arith, unmet-snoc o job ds h, count-append d o (job ∷ []), eq_iff d job, eq_iff job d)

pub unmet-zero : (o ds : List String) → unmet o ds ≡ 0 → All (λ d. 0 < count d o) ds
unmet-zero o [] h = tt
unmet-zero o (d ∷ ds) h = (ground arith, unmet-zero o ds (ground arith))

pub unmet-of_all :
    (seen o ds : List String)
    → All (λ d. 0 < count d seen) ds
    → ((k : String) → 0 < count k seen → 0 < count k o)
    → unmet o ds ≡ 0
unmet-of_all seen o [] h all = refl
unmet-of_all seen o (d ∷ ds) h all = ground (arith, all d h.0, unmet-of_all seen o ds h.1 all)

pub IsOrdered-snoc :
    (deps : Deps) (seen o : List String) (k : String)
    → IsOrdered deps seen o
    → All (λ d. 0 < count d (seen ++ o)) (entries_of k deps)
    → IsOrdered deps seen (o ++ k ∷ [])
IsOrdered-snoc deps seen [] k h a = (rw append-nil at a, tt)
IsOrdered-snoc deps seen (x ∷ o) k h a =
    (h.0, IsOrdered-snoc deps (seen ++ x ∷ []) o k h.1 (rw (append_assoc seen (x ∷ []) o) a))

pub unmet_mono :
    (o o' ds : List String) → ((k : String) → count k o ≤ count k o') → unmet o' ds ≤ unmet o ds
unmet_mono o o' [] h = omega arith
unmet_mono o o' (d ∷ ds) h = ground (arith, h d, unmet_mono o o' ds h)

pub unmet-cons :
    (o : List String) (x : String) (ds : List String)
    → count x o ≡ 0
    → unmet (x ∷ o) ds + count x ds ≡ unmet o ds
unmet-cons o x [] h = refl
unmet-cons o x (d ∷ ds) h = ground (arith, unmet-cons o x ds h, eq_iff d x, eq_iff x d)

pub unmet-le-length : (o ds : List String) → unmet o ds ≤ length ds
unmet-le-length o [] = omega arith
unmet-le-length o (d ∷ ds) = ground (arith, unmet-le-length o ds)
