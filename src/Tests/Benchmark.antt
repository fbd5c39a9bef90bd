-- ===== src/Tests/Benchmark.antt =====
-- benchmark.go: small benchmarks, and the theorems at them.
use yab.Prelude.{ℕ, ◌+◌, ◌*◌, List, ◌∷◌, none, some, ◌⊎◌, [], false, true, ◌≡◌, ◌↔◌, refl}
use yab.Prelude.Int.{ℤ, pos, ltb_ℤ}
use yab.Options.{BenchmarkOptions}
use yab.Limiter.{new}
use yab.Benchmark.{start_benchmark, run_with}
use yab.BenchState.{BenchmarkState}
use yab.BenchState.Event.{Event, answered, Counts, concat}
use yab.Benchmark.Workers.{fill_states, run_workers, run_workers-Counts}
use yab.Benchmark.Limits.{start_benchmark-unlimited_iff}

-- Ten requests at most, one per second, for half a second.
abbrev half_second : BenchmarkOptions
half_second = record {
  max_requests = pos 10;
  max_duration = pos 500_000_000;
  num_cpus = pos 0;
  connections = pos 1;
  warmup_requests = pos 0;
  concurrency = 1;
  rps = pos 1;
  statsd_host_port = [];
  per_peer_stats = false;
  format = [];
}

-- Half a request is cut off to none.
abbrev no_requests : ℤ → ℤ → ℤ
no_requests rps duration = pos 0

start_benchmark-unlimited_iff_example :
    (m : ℤ) × (start_benchmark no_requests half_second ≡ run_with m)
    × (((new m).unlimited ≡ true)
        ↔ (ltb_ℤ (pos 0) half_second.rps ≡ true)
          × (ltb_ℤ (pos 0) half_second.max_duration ≡ true)
          × (no_requests half_second.rps half_second.max_duration ≡ pos 0))
start_benchmark-unlimited_iff_example =
    start_benchmark-unlimited_iff no_requests half_second 9 refl refl

-- Worker `j` of connection `i` makes one call, which takes 10 * i + j.
abbrev one_call : ℕ → ℕ → List Event
one_call i j = answered (pos (10 * i + j)) ∷ []

run_workers-Counts_example :
    ((2 * 2 ≡ 0) × (run_workers one_call 2 2 ≡ none))
    ⊎ ((s : BenchmarkState) × (run_workers one_call 2 2 ≡ some s)
        × Counts (concat (fill_states one_call 2 0 2)) s)
run_workers-Counts_example = run_workers-Counts one_call 2 2
