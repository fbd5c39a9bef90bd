-- ===== src/Tests/Limiter.antt =====
-- limiter: runs of one goroutine in `More` and one in `Stop`, and the theorems at them.
use yab.Prelude.{ℕ, zero, suc, ◌≤◌, false, ◌≡◌, refl, arith}
use yab.Prelude.Int.{pos, ◌-ℤ◌}
use yab.Limiter.{new, more_step, stop_step}
use yab.Limiter.System.{System, start, after_more, after_stop, Reach, here, later, work, stop}
use yab.Limiter.Quota.{granted-le-quota, granted-eq-quota}
use yab.Limiter.Stopped.{stop_closes_once, stop_no_more_grants}

-- Goroutine 0 makes steps of `More`.
abbrev working : ℕ → System → System
working zero s = s
working (suc n) s = let t = working n s in after_more t 0 (more_step t.run (t.pc 0))

working-Reach : (n : ℕ) {s : System} → Reach s n (working n s)
working-Reach zero = here
working-Reach (suc n) = later (working-Reach n) (work 0)

-- Goroutine 7 makes steps of `Stop`.
abbrev stopping : ℕ → System → System
stopping zero s = s
stopping (suc n) s = let t = stopping n s in after_stop t 7 (stop_step t.run (t.stop_pc 7))

stopping-Reach : (n : ℕ) {s : System} → Reach s n (stopping n s)
stopping-Reach zero = here
stopping-Reach (suc n) = later (stopping-Reach n) (stop 7)

granted-le-quota_example : (working 8 (start (new (pos 1)))).granted ≤ 1
granted-le-quota_example =
    granted-le-quota 1 8 (working 8 (start (new (pos 1)))) (omega arith) (omega arith)
      (working-Reach 8)

-- Of two calls of `More` in a run for one request, the second returns false.
granted-eq-quota_example : (working 8 (start (new (pos 1)))).granted ≡ 1
unfolding more_step ◌-ℤ◌
granted-eq-quota_example =
    granted-eq-quota 1 8 (working 8 (start (new (pos 1)))) (omega arith) (omega arith)
      (working-Reach 8) refl (omega arith)

stop_closes_once_example : (stopping 3 (start (new (pos 5)))).run.closed ≡ false
unfolding stop_step
stop_closes_once_example =
    stop_closes_once 5 3 7 (stopping 3 (start (new (pos 5)))) (omega arith) (stopping-Reach 3) refl

stop_no_more_grants_example :
    (working 4 (stopping 4 (start (new (pos 5))))).grants 0
    ≡ (stopping 4 (start (new (pos 5)))).grants 0
unfolding stop_step
stop_no_more_grants_example =
    stop_no_more_grants 5 4 4 0 (stopping 4 (start (new (pos 5))))
      (working 4 (stopping 4 (start (new (pos 5))))) (omega arith) (omega arith) (stopping-Reach 4)
      refl refl (working-Reach 4)
