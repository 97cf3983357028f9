-- ===== src/Dag/Positions.antt =====
-- Where jobs stand in a topological order: each stands behind the jobs that it depends on.
use fluxion.Prelude.{
  ℕ, suc, ◌<◌, String, List, [], ◌∷◌, ◌++◌, count, count-append, keys, lookup, All, if◌then◌else◌,
  ◌==◌, ◌≡◌, ◌⊎◌, inl, inr, refl, arith, subst, String-cases, Option-cases, count-keys_pos,
  contains_key-of_lookup,
}
use fluxion.Dag.Kahn.{Deps, entries_of}
use fluxion.Dag.Order.{IsOrdered, IsTopoOrder}

-- The number of entries before the first `k`.
abbrev pub pos : String → List String → ℕ
pos k [] = 0
pos k (x ∷ xs) = if x == k then 0 else suc (pos k xs)

pub All-at : (P : String → Type 0) (ds : List String) (d : String) → All P ds → 0 < count d ds → P d
All-at P [] d a h = absurd (omega arith)
All-at P (x ∷ ds) d a h = elim (String-cases x d) [
  | inl (e, _) ↦ subst P e a.0
  | inr (_, e) ↦ All-at P ds d a.1 (ground arith)
]

module _ (deps : Deps) (a d : String) (named : 0 < count d (entries_of a deps)) where
  pub dep-before :
      (seen t : List String)
      → IsOrdered deps seen t
      → count a seen ≡ 0
      → 0 < count a t
      → (0 < count d seen) ⊎ ((0 < count d t) × (pos d t < pos a t))
  dep-before seen [] h new p = absurd (omega arith)
  dep-before seen (x ∷ t) h new p = elim (String-cases x a) [
    | inl (e, _) ↦ inl (
        All-at (λ j. 0 < count j seen) (entries_of a deps) d
          (subst (λ (y : String). All (λ j. 0 < count j seen) (entries_of y deps)) e h.0) named)
    | inr (_, e) ↦
        let later =
          dep-before (seen ++ x ∷ []) t h.1 (ground (arith, count-append a seen (x ∷ [])))
            (ground arith) in
        ground (arith, later, count-append d seen (x ∷ []))
  ]

  -- In a whole order a dependency has its place, and that is nearer the front.
  pub dep-placed :
      (t : List String)
      → IsOrdered deps [] t
      → 0 < count a t
      → (0 < count d t) × (pos d t < pos a t)
  dep-placed t h p = elim (dep-before [] t h refl p) [
    | inl impossible ↦ absurd (omega arith)
    | inr placed ↦ placed
  ]

-- What a job of a map with a topological order depends on is itself a key.
pub dep-known :
    (deps : Deps) (order : List String) (a d : String)
    → IsTopoOrder deps order
    → 0 < count d (entries_of a deps)
    → 0 < count d (keys deps)
dep-known deps order a d topo named = elim (Option-cases (lookup a deps)) [
  | inl missing ↦ absurd (ground arith)
  | inr (ds, found) ↦
      let (placed, _) = dep-placed deps a d named order topo.ordered (
        ground (
          arith,
          topo.complete a,
          count-keys_pos a deps (contains_key-of_lookup a deps ds found),
        )) in
      omega (arith, topo.complete d)
]
