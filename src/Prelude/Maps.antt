-- ===== src/Prelude/Maps.antt =====
-- A map from names as its list of entries, in the order in which it is iterated.
use Prim.Native.Nat.{suc, ◌≤◌, ◌<◌}
use Prim.Native.String.{String}
use mathlib.Core.Path.{◌≡◌, refl, ap}
use mathlib.Core.Logic.{inl, inr}
use mathlib.Core.Bool.{Bool, true, false, ◌||◌}
use mathlib.Core.Option.{Option, none, some}
use mathlib.Core.List.{List, [], ◌∷◌}
use native.Mathlib.Omega.{arith}
use text.Mathlib.Text.{◌==◌}
use text.Mathlib.TextEquality.{eq_iff}
use fluxion.Prelude.Tests.{if◌then◌else◌, Bool-cases}
use fluxion.Prelude.Lists.{count, length}

abbrev pub Map {ℓ} : Type ℓ → Type ℓ
Map V = List (String × V)

module _ {ℓ} {V : Type ℓ} where
  abbrev pub keys : Map V → List String
  keys [] = []
  keys ((k, v) ∷ m) = k ∷ keys m

  -- m.get(k)
  abbrev pub lookup : String → Map V → Option V
  lookup k [] = none
  lookup k ((j, v) ∷ m) = if j == k then some v else lookup k m

  -- m.contains_key(k)
  abbrev pub contains_key : String → Map V → Bool
  contains_key k [] = false
  contains_key k ((j, v) ∷ m) = j == k || contains_key k m

  -- m.insert(k, v): the value of a key that is there is replaced in its place.
  abbrev pub insert : String → V → Map V → Map V
  insert k v [] = (k, v) ∷ []
  insert k v ((j, w) ∷ m) = let rest = insert k v m in if j == k then (k, v) ∷ m else (j, w) ∷ rest

  -- m.remove(k)
  abbrev pub remove : String → Map V → Map V
  remove k [] = []
  remove k ((j, w) ∷ m) = let rest = remove k m in if j == k then rest else (j, w) ∷ rest

  pub lookup-insert :
      (k j : String) (v : V) (m : Map V)
      → lookup j (insert k v m) ≡ (if k == j then some v else lookup j m)
  lookup-insert k j v [] = refl
  lookup-insert k j v ((i, w) ∷ m) =
      ground (arith, eq_iff k j, eq_iff i k, eq_iff i j, lookup-insert k j v m)

  pub lookup-remove :
      (k j : String) (m : Map V) → lookup j (remove k m) ≡ (if k == j then none else lookup j m)
  lookup-remove k j [] = ground arith
  lookup-remove k j ((i, w) ∷ m) =
      ground (arith, eq_iff k j, eq_iff i k, eq_iff i j, lookup-remove k j m)

  pub lookup-of_key :
      (k : String) (m : Map V) → contains_key k m ≡ true → (v : V) × (lookup k m ≡ some v)
  lookup-of_key k [] h = cc
  lookup-of_key k ((j, v) ∷ m) h = elim (Bool-cases (j == k)) [
    | inl e ↦ (v, rw e)
    | inr e ↦ rw e (lookup-of_key k m (rw e at h))
  ]

  pub contains_key-of_lookup :
      (k : String) (m : Map V) (v : V) → lookup k m ≡ some v → contains_key k m ≡ true
  contains_key-of_lookup k [] v h = cc
  contains_key-of_lookup k ((j, w) ∷ m) v h = ground (arith, contains_key-of_lookup k m v)

  pub lookup-of_missing : (k : String) (m : Map V) → contains_key k m ≡ false → lookup k m ≡ none
  lookup-of_missing k [] h = refl
  lookup-of_missing k ((j, w) ∷ m) h = ground (arith, lookup-of_missing k m)

  pub count-keys_pos : (k : String) (m : Map V) → contains_key k m ≡ true → 0 < count k (keys m)
  count-keys_pos k [] h = cc
  count-keys_pos k ((j, w) ∷ m) h = ground (arith, count-keys_pos k m)

  pub count-keys_zero : (k : String) (m : Map V) → contains_key k m ≡ false → count k (keys m) ≡ 0
  count-keys_zero k [] h = refl
  count-keys_zero k ((j, w) ∷ m) h = ground (arith, count-keys_zero k m)

  pub count-keys_of_none : (k : String) (m : Map V) → lookup k m ≡ none → count k (keys m) ≡ 0
  count-keys_of_none k [] h = refl
  count-keys_of_none k ((j, w) ∷ m) h = ground (arith, count-keys_of_none k m)

  pub length-keys : (m : Map V) → length (keys m) ≡ length m
  length-keys [] = refl
  length-keys ((j, w) ∷ m) = ap suc (length-keys m)

  pub contains_key-insert :
      (k j : String) (v : V) (m : Map V)
      → contains_key j (insert k v m) ≡ (k == j || contains_key j m)
  contains_key-insert k j v [] = refl
  contains_key-insert k j v ((i, w) ∷ m) =
      ground (arith, eq_iff k j, eq_iff i k, eq_iff i j, contains_key-insert k j v m)

-- Each key stands once, as in a hash map or an index map.
abbrev pub IsMap {ℓ} : {V : Type ℓ} → Map V → Type 0
IsMap m = (k : String) → count k (keys m) ≤ 1
