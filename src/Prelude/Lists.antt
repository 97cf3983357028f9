-- ===== src/Prelude/Lists.antt =====
-- Lists of names: how often a name stands in a list, and what follows for lengths.
use Prim.Native.Nat.{ℕ, zero, suc, ◌+◌, ◌≤◌, ◌<◌}
use Prim.Native.String.{String}
use mathlib.Core.Path.{◌≡◌, refl, ap}
use mathlib.Core.Bool.{Bool, true, false, ◌||◌, ◌&&◌}
use mathlib.Core.Option.{Option, none, some}
use mathlib.Core.List.{List, [], ◌∷◌, ◌++◌, map}
use native.Mathlib.Omega.{arith}
use text.Mathlib.Text.{◌==◌}
use text.Mathlib.TextEquality.{eq_iff}
use fluxion.Prelude.Tests.{if◌then◌else◌}

module _ {ℓ} {A : Type ℓ} where
  abbrev pub length : List A → ℕ
  length [] = 0
  length (x ∷ xs) = suc (length xs)

  abbrev pub any : (A → Bool) → List A → Bool
  any p [] = false
  any p (x ∷ xs) = p x || any p xs

  abbrev pub all : (A → Bool) → List A → Bool
  all p [] = true
  all p (x ∷ xs) = p x && all p xs

  -- `retain`, `filter`: what passes the test, in order.
  abbrev pub keep : (A → Bool) → List A → List A
  keep p [] = []
  keep p (x ∷ xs) = let rest = keep p xs in if p x then x ∷ rest else rest

  abbrev pub get_elem? : List A → ℕ → Option A
  get_elem? [] i = none
  get_elem? (x ∷ xs) zero = some x
  get_elem? (x ∷ xs) (suc i) = get_elem? xs i

  pub length-append : (xs ys : List A) → length (xs ++ ys) ≡ length xs + length ys
  length-append [] ys = omega arith
  length-append (x ∷ xs) ys = omega (arith, length-append xs ys)

module _ {ℓ} {A : Type ℓ} where
  pub length-map {κ} : {B : Type κ} (f : A → B) (xs : List A) → length (map f xs) ≡ length xs
  length-map f [] = refl
  length-map f (x ∷ xs) = ap suc (length-map f xs)

  abbrev pub All {κ} : (A → Type κ) → List A → Type κ
  All P [] = Unit
  All P (x ∷ xs) = P x × All P xs

pub All-map {ℓ} :
    {A : Type ℓ} (P Q : A → Type 0) (xs : List A) → ((x : A) → P x → Q x) → All P xs → All Q xs
All-map P Q [] f h = tt
All-map P Q (x ∷ xs) f h = (f x h.0, All-map P Q xs f h.1)

pub All-append {ℓ} :
    {A : Type ℓ} (P : A → Type 0) (xs ys : List A) → All P xs → All P ys → All P (xs ++ ys)
All-append P [] ys hx hy = hy
All-append P (x ∷ xs) ys hx hy = (hx.0, All-append P xs ys hx.1 hy)

-- How often `k` stands in the list.
abbrev pub count : String → List String → ℕ
count k [] = 0
count k (x ∷ xs) = (if x == k then 1 else 0) + count k xs

abbrev pub contains : String → List String → Bool
contains k [] = false
contains k (x ∷ xs) = x == k || contains k xs

pub count-append : (k : String) (xs ys : List String) → count k (xs ++ ys) ≡ count k xs + count k ys
count-append k [] ys = omega arith
count-append k (x ∷ xs) ys = omega (arith, count-append k xs ys)

pub contains-count : (k : String) (xs : List String) → contains k xs ≡ true → 0 < count k xs
contains-count k (x ∷ xs) h = ground (arith, contains-count k xs)
contains-count k [] h = ground arith

pub not-contains-count : (k : String) (xs : List String) → contains k xs ≡ false → count k xs ≡ 0
not-contains-count k (x ∷ xs) h = ground (arith, not-contains-count k xs)
not-contains-count k [] h = refl

-- The list without the first `k`.
abbrev erase : String → List String → List String
erase k [] = []
erase k (x ∷ xs) = let rest = erase k xs in if x == k then xs else x ∷ rest

count-erase :
    (k j : String) (xs : List String)
    → 0 < count k xs
    → count j (erase k xs) + (if k == j then 1 else 0) ≡ count j xs
count-erase k j [] h = absurd (omega arith)
count-erase k j (x ∷ xs) h = ground (arith, count-erase k j xs, eq_iff x k, eq_iff x j, eq_iff k j)

length-erase :
    (k : String) (xs : List String) → 0 < count k xs → suc (length (erase k xs)) ≡ length xs
length-erase k [] h = absurd (omega arith)
length-erase k (x ∷ xs) h = ground (arith, length-erase k xs)

-- A list that holds each name at most as often as another is no longer.
pub length-le_of_count :
    (xs ys : List String) → ((k : String) → count k xs ≤ count k ys) → length xs ≤ length ys
length-le_of_count [] ys h = omega arith
length-le_of_count (x ∷ xs) ys h =
    let found : 0 < count x ys = ground (arith, h x, eq_iff x x) in
    let shorter : length xs ≤ length (erase x ys) =
      length-le_of_count xs (erase x ys) (λ k. ground (arith, h k, count-erase x k ys found)) in
    omega (arith, length-erase x ys found)

-- If it is as long, it holds each name as often.
pub count-eq_of_length :
    (xs ys : List String)
    → ((k : String) → count k xs ≤ count k ys)
    → length ys ≤ length xs
    → (k : String) → count k xs ≡ count k ys
count-eq_of_length [] [] h l k = refl
count-eq_of_length [] (y ∷ ys) h l k = absurd (omega arith)
count-eq_of_length (x ∷ xs) ys h l k =
    let found : 0 < count x ys = ground (arith, h x, eq_iff x x) in
    let same : count k xs ≡ count k (erase x ys) =
      count-eq_of_length xs (erase x ys) (λ j. ground (arith, h j, count-erase x j ys found))
        (omega (arith, length-erase x ys found)) k in
    ground (arith, count-erase x k ys found)
