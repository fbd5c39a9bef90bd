-- ===== src/BenchState.antt =====
-- bench_state.go: the counters that each benchmark worker keeps, and their merging.
--
-- The metrics that a state sends to its statsd client are listed in `sent`, the latest last. Counters
-- are Go ints, which are unbounded here. A state's `errors` map is an association list.
pub mod Message
pub mod Event
pub mod Merge
use yab.Prelude.{
  ℕ, suc, ◌+◌, Bool, true, false, ◌||◌, List, [], ◌∷◌, ◌++◌, Option, none, some, Text, codes, ◌==◌,
  nat_comparable, text_comparable, ltb, if◌then◌else◌,
}
use yab.Prelude.Assoc.{Assoc}
use yab.Prelude.Int.{ℤ}

pub data Metric : Type 0 where
  inc : Text → Metric
  timing : Text → ℤ → Metric

-- `benchmarkState`
pub record BenchmarkState : Type 0 where
  pub sent : List Metric
  pub errors : Assoc Text ℕ
  pub total_errors : ℕ
  pub total_success : ℕ
  pub total_requests : ℕ
  pub latencies : List ℤ
  pub total_stream_messages_sent : ℕ
  pub total_stream_messages_received : ℕ

abbrev pub new_benchmark_state : BenchmarkState
new_benchmark_state = record {
  sent = [];
  errors = [];
  total_errors = 0;
  total_success = 0;
  total_requests = 0;
  latencies = [];
  total_stream_messages_sent = 0;
  total_stream_messages_received = 0;
}

-- The loop of `errorToMessage`, with `consecutiveDigits` and the bytes that are left.
unfoldable pub message_from : ℕ → Text → Text
message_from consecutive_digits [] = []
message_from consecutive_digits (c ∷ cs) =
    let other = c ∷ message_from 0 cs in
    let first_digit = b'X' ∷ message_from (consecutive_digits + 1) cs in
    let later_digit = message_from (consecutive_digits + 1) cs in
    if ltb c b'0' || ltb b'9' c
    then other
    else if ltb 1 (consecutive_digits + 1)
    then later_digit
    else first_digit

unfoldable pub error_to_message : Text → Text
unfolding message_from
error_to_message = message_from 0

-- `m[k] += v`
unfoldable pub add_count : Text → ℕ → Assoc Text ℕ → Assoc Text ℕ
add_count k v [] = (k, v) ∷ []
add_count k v ((j, w) ∷ m) =
    let rest = add_count k v m in if j == k then (j, w + v) ∷ m else (j, w) ∷ rest

abbrev pub record_request : BenchmarkState → BenchmarkState
record_request s = record s { total_requests = s.total_requests + 1 }

-- `recordError`, for the text of an error; that it is not nil is seen to by the only caller.
unfoldable pub record_error : Text → BenchmarkState → BenchmarkState
record_error err s = record (record_request s) {
  errors = add_count (error_to_message err) 1 s.errors;
  total_errors = s.total_errors + 1;
  sent = s.sent ++ inc (codes "error") ∷ [];
}

unfoldable pub record_latency : ℤ → BenchmarkState → BenchmarkState
record_latency d s = record (record_request s) {
  latencies = s.latencies ++ d ∷ [];
  total_success = s.total_success + 1;
  sent = s.sent ++ inc (codes "success") ∷ timing (codes "latency") d ∷ [];
}

unfoldable pub record_stream_messages : ℕ → ℕ → BenchmarkState → BenchmarkState
record_stream_messages sent received s = record s {
  total_stream_messages_sent = s.total_stream_messages_sent + sent;
  total_stream_messages_received = s.total_stream_messages_received + received;
}

-- The loop of `merge` over the errors of the other state.
unfoldable pub merge_errors : Assoc Text ℕ → Assoc Text ℕ → Assoc Text ℕ
merge_errors m [] = m
merge_errors m ((k, v) ∷ es) = merge_errors (add_count k v m) es

unfoldable pub merge : BenchmarkState → BenchmarkState → BenchmarkState
merge s other = record s {
  errors = merge_errors s.errors other.errors;
  latencies = s.latencies ++ other.latencies;
  total_errors = s.total_errors + other.total_errors;
  total_success = s.total_success + other.total_success;
  total_requests = s.total_requests + other.total_requests;
  total_stream_messages_received =
      s.total_stream_messages_received + other.total_stream_messages_received;
  total_stream_messages_sent = s.total_stream_messages_sent + other.total_stream_messages_sent;
}
