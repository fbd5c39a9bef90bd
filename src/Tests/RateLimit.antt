-- ===== src/Tests/RateLimit.antt =====
-- ratelimit: a run at ten requests per second, and the theorems at concrete times.
use yab.Prelude.{[], ◌∷◌, ◌++◌, ◌≡◌, refl, some, ◌*◌, ◌/◌}
use yab.Prelude.{length}
use yab.Prelude.Int.{ℤ, pos, ◌+ℤ◌, ◌-ℤ◌, ◌≤ℤ◌}
use yab.RateLimit.{new, take_all, second}
use yab.RateLimit.Spacing.{take_all-rate, take_all-burst}

-- Of three calls at one time the last starts 0.2 s after the first.
three_at_once : (take_all (new 10) (pos 5 ∷ pos 5 ∷ pos 5 ∷ [])).last ≡ some (pos 200_000_005)
unfolding take_all new ◌+ℤ◌ ◌-ℤ◌
three_at_once = refl

take_all-rate_example :
    (last : ℤ) × ((take_all (new 10) (pos 5 ∷ pos 5 ∷ pos 7 ∷ [])).last ≡ some last)
    × (pos 5 +ℤ pos (length (pos 5 ∷ pos 7 ∷ []) * (second / 10)) ≤ℤ last)
take_all-rate_example = take_all-rate 10 (pos 5) (pos 5 ∷ pos 7 ∷ [])

take_all-burst_example :
    (a b : ℤ) × ((take_all (new 10) (pos 5 ∷ pos 9 ∷ [])).last ≡ some a)
    × ((take_all
          (new 10)
          (pos 5 ∷ (pos 9 ∷ []) ++ (pos 5_000_000_000 ∷ pos 5_000_000_001 ∷ []))).last
        ≡ some b)
    × (a +ℤ pos (length (pos 5_000_000_000 ∷ pos 5_000_000_001 ∷ []) * (second / 10))
        ≤ℤ b +ℤ pos (10 * second / 10))
take_all-burst_example =
    take_all-burst 10 (pos 5) (pos 9 ∷ []) (pos 5_000_000_000 ∷ pos 5_000_000_001 ∷ [])
