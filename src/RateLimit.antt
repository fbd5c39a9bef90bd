-- ===== src/RateLimit.antt =====
-- ratelimit/time_period.go: the limiter that spaces out calls of `Take`.
--
-- Times are nanoseconds on the clock of `time.Now`, durations are integers; both are unbounded here,
-- so the saturation of `Sub` and the overflow of an int64 after 292 years are left out. A call of
-- `take` is given the time that `time.Now` returned and which arm of the `select` was ready. The lock
-- makes the calls follow one another.
pub mod Spacing
use yab.Prelude.{
  ℕ, suc, ◌+◌, ◌*◌, ◌/◌, ◌^◌, Bool, true, false, Option, none, some, List, [], ◌∷◌, if◌then◌else◌,
}
use yab.Prelude.Int.{ℤ, pos, negsuc, ◌+ℤ◌, ◌-ℤ◌, ltb_ℤ}

abbrev pub second : ℕ
second = 1_000_000_000

-- `timePeriod`; `last` is `none` for the zero time.
pub record TimePeriod : Type 0 where
  pub last : Option ℤ
  pub sleep_for : ℤ
  pub per_request : ℕ
  pub max_slack : ℤ

-- `New`, for a positive `rps`; the caller never passes another.
unfoldable pub new : ℕ → TimePeriod
new rps = record {
  last = none;
  sleep_for = pos 0;
  per_request = second / rps;
  max_slack = pos 0 -ℤ pos (10 * second / rps);
}

-- The arm of the `select` that is taken, where there is a sleep.
pub data Arm : Type 0 where
  timer cancel : Arm

-- `Take` from the computation of `sleepFor` on, for a previous call at `last`.
unfoldable pub take_again : TimePeriod → ℤ → ℤ → Arm → TimePeriod × Bool
take_again t last cur arm =
    let wanted = t.sleep_for +ℤ (pos t.per_request -ℤ (cur -ℤ last)) in
    let sleep_for = if ltb_ℤ wanted t.max_slack then t.max_slack else wanted in
    if ltb_ℤ (pos 0) sleep_for
    then elim arm [
      | timer ↦ (record t { last = some (cur +ℤ sleep_for); sleep_for = pos 0 }, true)
      | cancel ↦ (record t { last = some cur; sleep_for = sleep_for }, false)
    ]
    else (record t { last = some cur; sleep_for = sleep_for }, true)

unfoldable pub take_from : Option ℤ → TimePeriod → ℤ → Arm → TimePeriod × Bool
unfolding take_again
take_from none t cur arm = (record t { last = some cur }, true)
take_from (some last) t cur arm = take_again t last cur arm

unfoldable pub take : TimePeriod → ℤ → Arm → TimePeriod × Bool
unfolding take_from
take t = take_from t.last t

-- A row of calls, at these times, none of which is cancelled.
unfoldable pub take_all : TimePeriod → List ℤ → TimePeriod
unfolding take
take_all t [] = t
take_all t (cur ∷ curs) = take_all (take t cur timer).0 curs

-- `dummy`, the limiter of `NewInfinite`
unfoldable pub take_infinite : Arm → Bool
take_infinite arm = true
