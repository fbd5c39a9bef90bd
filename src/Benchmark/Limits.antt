-- ===== src/Benchmark/Limits.antt =====
-- When a benchmark runs without a limit on its requests, and the indices of its workers' states.
use Prim.Native.Nat.mul
use native.Mathlib.Nat.{zero-mul}
use yab.Prelude.{ℕ, zero, suc, ◌*◌, ◌<◌, true, false, ◌≡◌, ◌↔◌, refl, ap, ap₂, arith}
use yab.Prelude.Int.{ℤ, pos, ltb_ℤ, beq_ℤ_iff, int_comparable}
use yab.Options.{BenchmarkOptions}
use yab.Limiter.{new}
use yab.Benchmark.{validate, enabled, capped_max_requests, start_benchmark, run_with, state_index}

module _ (rps_max : ℤ → ℤ → ℤ) where
  -- A benchmark with a maximum of requests above 0 and no negative duration starts, and its run has
  -- no limit on the requests exactly when a rate and a duration above 0 are given whose product is 0
  -- requests.
  pub start_benchmark-unlimited_iff :
      (o : BenchmarkOptions) (quota : ℕ)
      → o.max_requests ≡ pos (suc quota)
      → (ltb_ℤ o.max_duration (pos 0) ≡ false)
      → (m : ℤ) × (start_benchmark rps_max o ≡ run_with m)
        × (((new m).unlimited ≡ true)
            ↔ (ltb_ℤ (pos 0) o.rps ≡ true)
              × (ltb_ℤ (pos 0) o.max_duration ≡ true)
              × (rps_max o.rps o.max_duration ≡ pos 0))
  unfolding start_benchmark validate enabled capped_max_requests
  start_benchmark-unlimited_iff o quota e d =
      let given = beq_ℤ_iff o.max_requests (pos 0) in
      let capped = beq_ℤ_iff (capped_max_requests rps_max o) (pos 0) in
      let most = rps_max o.rps o.max_duration in
      (
        capped_max_requests rps_max o,
        ground (arith, given),
        (λ h. ground (arith, given, capped), λ h. ground (arith, given, capped)),
      )

state_index-bound :
    (concurrency connections i j : ℕ)
    → i < connections
    → j < concurrency
    → state_index concurrency i j < connections * concurrency
state_index-bound c (suc n) zero j h k = omega (arith, mul.suc n c, zero-mul c)
state_index-bound c (suc n) (suc i) j h k =
    omega (arith, mul.suc n c, mul.suc i c, state_index-bound c n i j (omega arith) k)
state_index-bound c zero i j h k = absurd (omega arith)

state_index-injective :
    (c i j i' j' : ℕ)
    → j < c
    → j' < c
    → state_index c i j ≡ state_index c i' j'
    → (i ≡ i') × (j ≡ j')
state_index-injective c zero j zero j' h h' e = (refl, omega (arith, zero-mul c))
state_index-injective c zero j (suc i') j' h h' e = absurd (omega (arith, zero-mul c, mul.suc i' c))
state_index-injective c (suc i) j zero j' h h' e = absurd (omega (arith, zero-mul c, mul.suc i c))
state_index-injective c (suc i) j (suc i') j' h h' e =
    let rest = state_index-injective c i j i' j' h h' (omega (arith, mul.suc i c, mul.suc i' c)) in
    (ap suc rest.0, rest.1)

-- Each worker, number `j` of its connection `i`, has a state of its own: its index lies within the
-- states that are made, and no other worker has the same.
pub state_index-own :
    (concurrency connections i j i' j' : ℕ)
    → i < connections
    → j < concurrency
    → j' < concurrency
    → (state_index concurrency i j < connections * concurrency)
      × ((state_index concurrency i j ≡ state_index concurrency i' j') ↔ (i ≡ i') × (j ≡ j'))
state_index-own c n i j i' j' h k k' = (
  state_index-bound c n i j h k,
  (λ e. state_index-injective c i j i' j' k k' e, λ (e, f). ap₂ (state_index c) e f),
)
