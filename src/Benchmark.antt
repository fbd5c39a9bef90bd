-- ===== src/Benchmark.antt =====
-- benchmark.go and handler.go: the options of a benchmark, the limit it runs with, and which state
-- each of its workers has.
--
-- The product of the rate and the duration in seconds, which the code computes in float64, is the
-- parameter `rps_max`.
pub mod Limits
pub mod Starts
pub mod Workers
use yab.Prelude.{
  ℕ, suc, ◌+◌, ◌*◌, Bool, true, false, not, ◌&&◌, ◌||◌, Option, none, some, ◌==◌, if◌then◌else◌,
}
use yab.Prelude.Int.{ℤ, pos, negsuc, ltb_ℤ, int_comparable}
use yab.Options.{BenchmarkOptions}

pub data OptionsError : Type 0 where
  negative_duration negative_max_requests : OptionsError

-- `validate`
unfoldable pub validate : BenchmarkOptions → Option OptionsError
validate o =
    if ltb_ℤ o.max_duration (pos 0)
    then some negative_duration
    else if ltb_ℤ o.max_requests (pos 0)
    then some negative_max_requests
    else none

-- `enabled`
unfoldable pub enabled : BenchmarkOptions → Bool
enabled o = not (o.max_duration == pos 0) || not (o.max_requests == pos 0)

-- `getNumConnections`, for a non-negative GOMAXPROCS
unfoldable pub get_num_connections : BenchmarkOptions → ℕ → ℤ
get_num_connections o go_max_procs =
    if ltb_ℤ (pos 0) o.connections then o.connections else pos (go_max_procs * 2)

-- `shouldMakeInitialRequest`
unfoldable pub should_make_initial_request : BenchmarkOptions → Bool
unfolding enabled
should_make_initial_request o = not (enabled o && o.warmup_requests == pos 0)

-- What `runBenchmark` does at its beginning: stop with an error, do nothing, or run with this maximum
-- of requests.
pub data Start : Type 0 where
  invalid : OptionsError → Start
  disabled : Start
  run_with : ℤ → Start

module _ (rps_max : ℤ → ℤ → ℤ) where
  -- The maximum of requests, capped by rate and duration.
  unfoldable pub capped_max_requests : BenchmarkOptions → ℤ
  capped_max_requests o =
      if ltb_ℤ (pos 0) o.rps && ltb_ℤ (pos 0) o.max_duration
      then (let most = rps_max o.rps o.max_duration in
          if ltb_ℤ most o.max_requests || o.max_requests == pos 0 then most else o.max_requests)
      else o.max_requests

  unfoldable pub start_benchmark : BenchmarkOptions → Start
  unfolding validate enabled capped_max_requests
  start_benchmark o = elim (validate o) [
    | some e ↦ invalid e
    | none ↦ if enabled o then run_with (capped_max_requests o) else disabled
  ]

-- The index of the state of worker `j` of connection `i`.
abbrev pub state_index : ℕ → ℕ → ℕ → ℕ
state_index concurrency i j = i * concurrency + j
