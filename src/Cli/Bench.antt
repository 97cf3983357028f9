-- ===== src/Cli/Bench.antt =====
-- cmd_bench and print_bench_row of crates/fluxion-cli/src/main.rs. The run of the component and the
-- text of a number with two decimals are parameters.
use fluxion.Prelude.{
  ℕ, zero, suc, ◌+◌, ◌-◌, ◌*◌, ◌/◌, ◌%◌, ◌^◌, String, List, [], ◌∷◌, none, some, leb, nat_eq,
  decimal, length, get_elem?, map, if◌then◌else◌,
}
use fluxion.Outcome.{Outcome, ok, err, panic, missing_key, division_by_zero, ◌>>=◌}
use fluxion.Workflow.Validate.{◌<>◌}
use fluxion.Host.{JobMetrics}
use fluxion.Store.Tables.{order_by}

-- In microseconds.
pub record BenchRow : Type 0 where
  pub avg : ℕ
  pub p50 : ℕ
  pub p95 : ℕ
  pub p99 : ℕ
  pub min : ℕ
  pub max : ℕ

abbrev pub sum : List ℕ → ℕ
sum [] = 0
sum (x ∷ xs) = x + sum xs

abbrev pub sorted : List ℕ → List ℕ
sorted us_values = order_by (λ x. x) us_values

-- v[i]
abbrev pub at {ℓ} : {E : Type 0} {A : Type ℓ} → List A → ℕ → Outcome E A
at xs i = elim (get_elem? xs i) [ none ↦ panic missing_key | some x ↦ ok x ]

abbrev pub min_of : ℕ → ℕ → ℕ
min_of a b = if leb a b then a else b

-- The sum wraps around in a release build.
abbrev pub average : List ℕ → ℕ → Outcome String ℕ
average xs zero = panic division_by_zero
average xs (suc n) = ok (sum xs % 2 ^ 64 / suc n)

-- The numbers that print_bench_row prints for some label. Products wrap around in a release build.
unfoldable pub bench_row : List ℕ → Outcome String BenchRow
bench_row us_values =
    let xs = sorted us_values in
    let n = length xs in
    do
      avg ← average xs n
      p50 ← at xs (n / 2)
      p95 ← at xs (min_of (n * 95 % 2 ^ 64 / 100) (n - 1))
      p99 ← at xs (min_of (n * 99 % 2 ^ 64 / 100) (n - 1))
      min ← at xs 0
      max ← at xs (n - 1)
      ok (record { avg = avg; p50 = p50; p95 = p95; p99 = p99; min = min; max = max })

-- as_micros() as u64
abbrev pub micros : ℕ → ℕ
micros t = t / 1000 % 2 ^ 64

abbrev pub total_of : JobMetrics → ℕ
total_of m = (micros m.compile + micros m.instantiate + micros m.execute) % 2 ^ 64

unfoldable pub rows_of : List JobMetrics → Outcome String (List BenchRow)
unfolding bench_row
rows_of ts = do
  compile ← bench_row (map (λ (t : JobMetrics). micros t.compile) ts)
  instantiate ← bench_row (map (λ (t : JobMetrics). micros t.instantiate) ts)
  execute ← bench_row (map (λ (t : JobMetrics). micros t.execute) ts)
  total ← bench_row (map total_of ts)
  ok (compile ∷ instantiate ∷ execute ∷ total ∷ [])

module _ (Machine : Type 0) (run_component : Machine → Outcome String JobMetrics × Machine) where
  -- The loop of the warmup, and of the timed runs: the metrics of `n` runs, or the first failure.
  unfoldable pub measured :
      ℕ → (ℕ → String) → ℕ → Machine → Outcome String (List JobMetrics) × Machine
  measured i label zero m = (ok [], m)
  measured i label (suc n) m =
      let (r, m') = run_component m in
      elim r [
        | ok t ↦
            (let (rest, m'') = measured (suc i) label n m' in (rest >>= (λ ts. ok (t ∷ ts)), m''))
        | err e ↦ (err (label (suc i) <> " failed: " <> e), m')
        | panic f ↦ (panic f, m')
      ]

  -- The rows compile, instantiate, execute and total of the table.
  unfoldable pub cmd_bench : ℕ → ℕ → Machine → Outcome String (List BenchRow)
  unfolding measured decimal
  cmd_bench runs warmup m =
      let (warm, m1) = measured 0 (λ i. "warmup run") warmup m in
      if nat_eq runs 0
      then err "--runs must be at least 1"
      else (do _ ← warm; ts ← (measured 0 (λ i. "run " <> decimal i) runs m1).0; rows_of ts)

unfoldable pub fmt_us : (ℕ → ℕ → String) → ℕ → String
unfolding decimal
fmt_us two_decimals us =
    if leb 1_000_000 us
    then two_decimals us 1_000_000 <> "s"
    else if leb 1_000 us
    then two_decimals us 1_000 <> "ms"
    else decimal us <> "µs"
