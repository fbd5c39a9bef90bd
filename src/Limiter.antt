-- ===== src/Limiter.antt =====
-- limiter/limiter.go: a benchmark run that is limited by a number of requests, by a rate, and by
-- `Stop`. `More` and `Stop` are called by many goroutines at once; each atomic access to the shared
-- `Run` is one step here, and the steps of all goroutines interleave in any order.
--
-- `requestsLeft` is an int64 that wraps round. The rate limiter decides only how long a goroutine
-- stays in `take_unlimited` or `take_limited`; what its `Take` returns is ignored by `More`.
pub mod System
pub mod Quota
pub mod Stopped
use yab.Prelude.{ℕ, ◌^◌, ◌-◌, Bool, true, false, ◌==◌, if◌then◌else◌}
use yab.Prelude.Int.{ℤ, pos, negsuc, ◌-ℤ◌, ltb_ℤ, leb_ℤ, int_comparable}

-- `Run`; `closed` says that the channel `cancel` is closed.
pub record Run : Type 0 where
  pub unlimited : Bool
  pub requests_left : ℤ
  pub closed : Bool
  pub cancelled : Bool

-- `New`, as far as the shared fields go
abbrev pub new : ℤ → Run
new max_requests = record {
  unlimited = max_requests == pos 0;
  requests_left = max_requests;
  closed = false;
  cancelled = false;
}

-- `Dec` of an atomic int64
unfoldable pub dec64 : ℤ → ℤ
dec64 x = if x == negsuc (2 ^ 63 - 1) then pos (2 ^ 63 - 1) else x -ℤ pos 1

-- Where a goroutine stands: outside of `More`, before the load of `requestsLeft`, in one of the two
-- calls of `Take`, or before the `Dec`.
pub data Pc : Type 0 where
  outside load_left take_unlimited take_limited before_dec : Pc

-- What a step of `More` returns to the caller, if it returns.
pub data Answer : Type 0 where
  going yes_more no_more : Answer

pub record Moved : Type 0 where
  pub run : Run
  pub pc : Pc
  pub answer : Answer

abbrev move : Run → Pc → Answer → Moved
move r p a = record { run = r; pc = p; answer = a }

-- One step of `More`.
unfoldable pub more_step : Run → Pc → Moved
unfolding dec64
more_step r outside = move r (if r.unlimited then take_unlimited else load_left) going
more_step r take_unlimited = move r outside yes_more
more_step r load_left =
    move r (if leb_ℤ (pos 0) r.requests_left then take_limited else before_dec) going
more_step r take_limited = move r before_dec going
more_step r before_dec =
    let left = dec64 r.requests_left in
    move (record r { requests_left = left }) outside
      (if leb_ℤ (pos 0) left then yes_more else no_more)

-- Where a goroutine stands in `Stop`: outside, or behind the `Swap`, or behind one of the two stores.
pub data StopPc : Type 0 where
  stop_outside swapped left_stored unlimited_stored : StopPc

-- One step of `Stop`.
unfoldable pub stop_step : Run → StopPc → Run × StopPc
stop_step r stop_outside =
    if r.cancelled then (r, stop_outside) else (record r { cancelled = true }, swapped)
stop_step r swapped = (record r { requests_left = pos 0 }, left_stored)
stop_step r left_stored = (record r { unlimited = false }, unlimited_stored)
stop_step r unlimited_stored = (record r { closed = true }, stop_outside)
