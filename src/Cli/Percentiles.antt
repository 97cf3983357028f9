-- ===== src/Cli/Percentiles.antt =====
-- The numbers of a row of print_bench_row in crates/fluxion-cli/src/main.rs.
use fluxion.Prelude.{
  ℕ, zero, suc, ◌+◌, ◌-◌, ◌*◌, ◌/◌, ◌%◌, ◌^◌, ◌≤◌, ◌<◌, String, List, [], ◌∷◌, ltb, leb, length,
  All, All-map, ◌≡◌, refl, sym, ap, subst, ◌∙◌, inl, inr, arith, Bool-cases, if◌then◌else◌,
}
use fluxion.Outcome.{Outcome, ok, Returns, ◌>>=◌}
use fluxion.Store.Tables.{insert_by}
use fluxion.Cli.Bench.{BenchRow, sum, sorted, at, min_of, average, bench_row}

abbrev id : ℕ → ℕ
id x = x

-- Each is no larger than those behind it.
abbrev Ascending : List ℕ → Type 0
Ascending [] = Unit
Ascending (x ∷ xs) = All (λ y. x ≤ y) xs × Ascending xs

All-insert : (P : ℕ → Type 0) (x : ℕ) (xs : List ℕ) → P x → All P xs → All P (insert_by id x xs)
All-insert P x [] h a = (h, tt)
All-insert P x (y ∷ ys) h a = elim (Bool-cases (ltb y x)) [
  | inl e ↦ rw e (a.0, All-insert P x ys h a.1)
  | inr e ↦ rw e (h, a)
]

insert-Ascending : (x : ℕ) (xs : List ℕ) → Ascending xs → Ascending (insert_by id x xs)
insert-Ascending x [] a = (tt, tt)
insert-Ascending x (y ∷ ys) a = elim (Bool-cases (ltb y x)) [
  | inl e ↦ rw e (All-insert (λ z. y ≤ z) x ys (ground arith) a.0, insert-Ascending x ys a.1)
  | inr e ↦
      let l : x ≤ y = ground arith in
      rw e ((l, All-map (λ z. y ≤ z) (λ z. x ≤ z) ys (λ z h. omega arith) a.0), a)
]

sorted-Ascending : (xs : List ℕ) → Ascending (sorted xs)
sorted-Ascending [] = tt
sorted-Ascending (x ∷ xs) = insert-Ascending x (sorted xs) (sorted-Ascending xs)

length-insert : (x : ℕ) (xs : List ℕ) → length (insert_by id x xs) ≡ suc (length xs)
length-insert x [] = refl
length-insert x (y ∷ ys) = ground (arith, length-insert x ys)

length-sorted : (xs : List ℕ) → length (sorted xs) ≡ length xs
length-sorted [] = refl
length-sorted (x ∷ xs) = omega (arith, length-insert x (sorted xs), length-sorted xs)

sum-insert : (x : ℕ) (xs : List ℕ) → sum (insert_by id x xs) ≡ x + sum xs
sum-insert x [] = refl
sum-insert x (y ∷ ys) = ground (arith, sum-insert x ys)

sum-sorted : (xs : List ℕ) → sum (sorted xs) ≡ sum xs
sum-sorted [] = refl
sum-sorted (x ∷ xs) = omega (arith, sum-insert x (sorted xs), sum-sorted xs)

-- The element at an index, where there is one.
abbrev nth : List ℕ → ℕ → ℕ
nth [] i = 0
nth (x ∷ xs) zero = x
nth (x ∷ xs) (suc i) = nth xs i

at-nth : (xs : List ℕ) (i : ℕ) → i < length xs → at {E = String} xs i ≡ ok (nth xs i)
at-nth [] i h = absurd (omega arith)
at-nth (x ∷ xs) zero h = refl
at-nth (x ∷ xs) (suc i) h = at-nth xs i (omega arith)

All-nth : (P : ℕ → Type 0) (xs : List ℕ) (i : ℕ) → i < length xs → All P xs → P (nth xs i)
All-nth P [] i h a = absurd (omega arith)
All-nth P (x ∷ xs) zero h a = a.0
All-nth P (x ∷ xs) (suc i) h a = All-nth P xs i (omega arith) a.1

-- How many of the values are less than x, and how many are x at most.
abbrev pub below : ℕ → List ℕ → ℕ
below x [] = 0
below x (y ∷ ys) = if ltb y x then suc (below x ys) else below x ys

abbrev pub up_to : ℕ → List ℕ → ℕ
up_to x [] = 0
up_to x (y ∷ ys) = if leb y x then suc (up_to x ys) else up_to x ys

-- A value with k values before it in ascending order.
abbrev pub HasRank : List ℕ → ℕ → ℕ → Type 0
HasRank xs k x = (below x xs ≤ k) × (k < up_to x xs)

below-insert : (x y : ℕ) (ys : List ℕ) → below x (insert_by id y ys) ≡ below x (y ∷ ys)
below-insert x y [] = refl
below-insert x y (z ∷ zs) = ground (arith, below-insert x y zs)

up_to-insert : (x y : ℕ) (ys : List ℕ) → up_to x (insert_by id y ys) ≡ up_to x (y ∷ ys)
up_to-insert x y [] = refl
up_to-insert x y (z ∷ zs) = ground (arith, up_to-insert x y zs)

below-sorted : (x : ℕ) (xs : List ℕ) → below x (sorted xs) ≡ below x xs
below-sorted x [] = refl
below-sorted x (y ∷ ys) = ground (arith, below-insert x y (sorted ys), below-sorted x ys)

up_to-sorted : (x : ℕ) (xs : List ℕ) → up_to x (sorted xs) ≡ up_to x xs
up_to-sorted x [] = refl
up_to-sorted x (y ∷ ys) = ground (arith, up_to-insert x y (sorted ys), up_to-sorted x ys)

-- Nothing in a list is below a lower bound of it.
below_bound : (x z : ℕ) (xs : List ℕ) → All (λ y. z ≤ y) xs → x ≤ z → below x xs ≡ 0
below_bound x z [] a l = refl
below_bound x z (y ∷ ys) a l = ground (arith, below_bound x z ys a.1 l, a.0)

nth-HasRank : (xs : List ℕ) (i : ℕ) → Ascending xs → i < length xs → HasRank xs i (nth xs i)
nth-HasRank [] i a h = absurd (omega arith)
nth-HasRank (x ∷ xs) zero a h = (ground (arith, below_bound x x xs a.0 (omega arith)), ground arith)
nth-HasRank (x ∷ xs) (suc i) a h =
    let (l, u) = nth-HasRank xs i a.1 (omega arith) in
    let least : x ≤ nth xs i = All-nth (λ y. x ≤ y) xs i (omega arith) a.0 in
    (ground arith, ground arith)

-- The row has the values of five ranks, and the mean rounded down.
abbrev pub IsRow : List ℕ → BenchRow → Type 0
IsRow xs r =
    HasRank xs (length xs / 2) r.p50
    × HasRank xs (length xs * 95 / 100) r.p95
    × HasRank xs (length xs * 99 / 100) r.p99
    × HasRank xs 0 r.min
    × HasRank xs (length xs - 1) r.max
    × (r.avg * length xs ≤ sum xs)
    × (sum xs < suc r.avg * length xs)

-- The rank of a value in the sorted list is that in the list.
HasRank-of_sorted : (us : List ℕ) (k x : ℕ) → HasRank (sorted us) k x → HasRank us k x
HasRank-of_sorted us k x h = omega (arith, below-sorted x us, up_to-sorted x us, h.0, h.1)

abbrev row : List ℕ → ℕ → Outcome String BenchRow
row xs avg =
    let n = length xs in
    do
      p50 ← at xs (n / 2)
      p95 ← at xs (min_of (n * 95 % 2 ^ 64 / 100) (n - 1))
      p99 ← at xs (min_of (n * 99 % 2 ^ 64 / 100) (n - 1))
      min ← at xs 0
      max ← at xs (n - 1)
      ok (record { avg = avg; p50 = p50; p95 = p95; p99 = p99; min = min; max = max })

of_sorted :
    (us xs : List ℕ)
    → sorted us ≡ xs
    → Ascending xs
    → 0 < length xs
    → length xs * 99 < 2 ^ 64
    → sum xs < 2 ^ 64
    → Returns (IsRow us) (average xs (length xs) >>= row xs)
of_sorted us [] e a h l s = absurd (omega arith)
of_sorted us (x ∷ xs) e a h l s =
    let n = suc (length xs) in
    let i95 = min_of (n * 95 % 2 ^ 64 / 100) (n - 1) in
    let i99 = min_of (n * 99 % 2 ^ 64 / 100) (n - 1) in
    let p95 : i95 ≡ n * 95 / 100 = ground arith in
    let p99 : i99 ≡ n * 99 / 100 = ground arith in
    let small : sum (x ∷ xs) % 2 ^ 64 ≡ sum (x ∷ xs) = omega arith in
    let many : length us ≡ n = sym (length-sorted us) ∙ ap length e in
    let total : sum us ≡ sum (x ∷ xs) = sym (sum-sorted us) ∙ ap sum e in
    rw
      (
        small,
        at-nth (x ∷ xs) (n / 2) (omega arith),
        p95,
        at-nth (x ∷ xs) (n * 95 / 100) (omega arith),
        p99,
        at-nth (x ∷ xs) (n * 99 / 100) (omega arith),
        at-nth (x ∷ xs) (n - 1) (omega arith),
        many,
        total,
      )
      (
        ranked (n / 2) (omega arith),
        ranked (n * 95 / 100) (omega arith),
        ranked (n * 99 / 100) (omega arith),
        ranked 0 (omega arith),
        ranked (n - 1) (omega arith),
        omega arith,
        omega arith,
      )
  where
    ranked : (i : ℕ) → i < suc (length xs) → HasRank us i (nth (x ∷ xs) i)
    ranked i k =
        HasRank-of_sorted us i (nth (x ∷ xs) i)
          (subst (λ l. HasRank l i (nth (x ∷ xs) i)) (sym e) (nth-HasRank (x ∷ xs) i a k))

-- For at least one measured value the row is printed without a panic: its minimum, median, 95th and
-- 99th percentile and maximum are the values that have no other, a half, 95 and 99 hundredths, rounded
-- down, and all others before them in ascending order, and its average is the mean, rounded down. The
-- sum of the values fits in 64 bits, and so does 99 times their number.
pub bench_row-IsRow :
    (us_values : List ℕ)
    → 0 < length us_values
    → length us_values * 99 < 2 ^ 64
    → sum us_values < 2 ^ 64
    → Returns (IsRow us_values) (bench_row us_values)
unfolding bench_row
bench_row-IsRow us_values h l s =
    of_sorted us_values (sorted us_values) refl (sorted-Ascending us_values)
      (omega (arith, length-sorted us_values)) (omega (arith, length-sorted us_values))
      (omega (arith, sum-sorted us_values))
