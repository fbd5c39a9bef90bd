-- ===== src/BenchState/Event.antt =====
-- What the workers of a benchmark record, and what a list of outcomes adds up to.
use yab.Prelude.{
  ℕ, suc, ◌+◌, List, [], ◌∷◌, ◌++◌, ◌≡◌, Text, ◌==◌, nat_comparable, text_comparable, if◌then◌else◌,
  length,
}
use yab.Prelude.Assoc.{Assoc}
use yab.Prelude.Int.{ℤ}
use yab.BenchState.{
  BenchmarkState, new_benchmark_state, error_to_message, record_error, record_latency,
  record_stream_messages, merge,
}

-- What a worker records for one call.
pub data Event : Type 0 where
  failed : Text → Event
  answered : ℤ → Event
  streamed : ℤ → ℕ → ℕ → Event

-- The body of `runWorker` behind the call, for a call with this outcome.
unfoldable pub record_event : Event → BenchmarkState → BenchmarkState
unfolding record_error record_latency record_stream_messages
record_event (failed err) s = record_error err s
record_event (answered d) s = record_latency d s
record_event (streamed d sent received) s =
    record_stream_messages sent received (record_latency d s)

unfoldable pub replay : List Event → BenchmarkState → BenchmarkState
unfolding record_event
replay [] s = s
replay (e ∷ es) s = replay es (record_event e s)

-- `overall` in `runBenchmark`: all the states merged into the first one.
unfoldable pub merge_all : BenchmarkState → List BenchmarkState → BenchmarkState
unfolding merge
merge_all overall [] = overall
merge_all overall (s ∷ states) = merge_all (merge overall s) states

-- The number under which a text stands in the map of errors.
abbrev pub count : Text → Assoc Text ℕ → ℕ
count k [] = 0
count k ((j, v) ∷ m) = (if j == k then v else 0) + count k m

abbrev pub is_failure : Text → Event → ℕ
is_failure k (failed err) = if error_to_message err == k then 1 else 0
is_failure k _ = 0

-- What a list of outcomes adds up to, read off directly.
abbrev pub failures_of : Text → List Event → ℕ
failures_of k [] = 0
failures_of k (e ∷ es) = is_failure k e + failures_of k es

abbrev pub failures : List Event → ℕ
failures [] = 0
failures (failed _ ∷ es) = suc (failures es)
failures (_ ∷ es) = failures es

abbrev pub latencies_of : List Event → List ℤ
latencies_of [] = []
latencies_of (failed _ ∷ es) = latencies_of es
latencies_of (answered d ∷ es) = d ∷ latencies_of es
latencies_of (streamed d _ _ ∷ es) = d ∷ latencies_of es

abbrev pub messages_sent : List Event → ℕ
messages_sent [] = 0
messages_sent (streamed _ s _ ∷ es) = s + messages_sent es
messages_sent (_ ∷ es) = messages_sent es

abbrev pub messages_received : List Event → ℕ
messages_received [] = 0
messages_received (streamed _ _ r ∷ es) = r + messages_received es
messages_received (_ ∷ es) = messages_received es

-- The state counts these outcomes, each of them once.
pub record Counts (es : List Event) (s : BenchmarkState) : Type 0 where
  pub errors : (k : Text) → count k s.errors ≡ failures_of k es
  pub total_errors : s.total_errors ≡ failures es
  pub total_success : s.total_success ≡ length (latencies_of es)
  pub total_requests : s.total_requests ≡ length es
  pub latencies : s.latencies ≡ latencies_of es
  pub sent : s.total_stream_messages_sent ≡ messages_sent es
  pub received : s.total_stream_messages_received ≡ messages_received es

abbrev pub states_of : List (List Event) → List BenchmarkState
states_of [] = []
states_of (w ∷ ws) = replay w new_benchmark_state ∷ states_of ws

abbrev pub concat : List (List Event) → List Event
concat [] = []
concat (w ∷ ws) = w ++ concat ws
