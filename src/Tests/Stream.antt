-- ===== src/Tests/Stream.antt =====
-- handler.go: calls over a stream that never fails, and the theorems at them.
use yab.Prelude.{
  ℕ, ◌+◌, ◌*◌, ◌≤◌, Option, length, arith, List, [], ◌∷◌, none, some, inl, inr, ◌⊎◌, ◌≡◌, refl,
  Text, codes,
}
use yab.Stream.{
  benchmark_next_request, benchmark_handle_response, Error, StreamIoBenchmark, Transport, Received,
  message, no_message, at_end, Fault, new_stream_io_benchmark, benchmark_io, make_client_stream,
  Done,
}
use yab.Stream.Bidi.{Bidi, Turn, of_sender, of_receiver, sender_ended, start, make_bidi_stream}
use yab.Stream.Bidi.Order.{Recorded, recording, cancel_under, fresh}
use yab.Stream.Bidi.Order.Ends.{Finished, make_bidi_stream-Finished, make_bidi_stream-sender_ended}
use yab.Stream.Waiter.{new_interval_waiter, wait_all, Clock, last_of, wait_all-Clock}
use yab.Stream.Client.Ended.{Sends, Ends, make_client_stream-Ends}
use yab.Stream.Initializer.{
  StreamIoInitializer, no_more, one_more, all_requests, after_requests, new_stream_io_initializer,
  all_requests-Reads,
}

-- The state is the list of messages that the stream still gives.
abbrev receive_next : List Text → List Text × Received
receive_next [] = ([], no_message at_end)
receive_next (m ∷ ms) = (ms, message m)

abbrev steady : Transport (List Text)
steady = record { send = λ m w. (w, none); receive = receive_next; close = λ w. (w, none) }

abbrev read_next : List Text → List Text × (Fault ⊎ Text)
read_next [] = ([], inl at_end)
read_next (m ∷ ms) = (ms, inr m)

make_client_stream-Ends_example :
    (k : ℕ) × (w : List Text) × (f : Option Fault) × (d : Done StreamIoBenchmark (List Text))
    × (make_client_stream benchmark_io steady 3
          (new_stream_io_benchmark (codes "a" ∷ codes "b" ∷ []))
          (codes "x" ∷ [])
        ≡ some d)
    × Sends steady (codes "a" ∷ codes "b" ∷ []) (codes "x" ∷ []) k w f
    × Ends steady (codes "a" ∷ codes "b" ∷ []) k w f d
make_client_stream-Ends_example =
    make_client_stream-Ends steady (codes "a" ∷ codes "b" ∷ []) (codes "x" ∷ [])

-- One of two messages was read before.
all_requests-Reads_example :
    (t : StreamIoInitializer (List Text)) × (all_requests read_next 4
        (after_requests read_next 1 (new_stream_io_initializer (codes "a" ∷ codes "b" ∷ [])))
      ≡ some (t, inr (codes "a" ∷ codes "b" ∷ [])))
all_requests-Reads_example =
    all_requests-Reads read_next (codes "a" ∷ codes "b" ∷ []) (codes "a" ∷ codes "b" ∷ []) 1 0
      (one_more refl (one_more refl (no_more refl)))

abbrev unchanged : List Text → List Text
unchanged w = w

-- One message each way, the goroutines in turns.
abbrev in_turns : List Turn
in_turns =
    of_sender ∷ of_receiver ∷ of_sender ∷ of_receiver ∷ of_sender ∷ of_receiver ∷ of_sender
    ∷ of_receiver ∷ of_receiver ∷ []

abbrev one_each_way : Bidi StreamIoBenchmark (Recorded (List Text))
one_each_way =
    make_bidi_stream benchmark_io (recording steady) (cancel_under unchanged) in_turns
      (start (new_stream_io_benchmark (codes "a" ∷ [])) (fresh (codes "x" ∷ [])))

make_bidi_stream-Finished_example : Finished (codes "a" ∷ []) none one_each_way
unfolding make_bidi_stream benchmark_next_request benchmark_handle_response
make_bidi_stream-Finished_example =
    make_bidi_stream-Finished steady unchanged (codes "a" ∷ []) in_turns (codes "x" ∷ []) none refl

make_bidi_stream-sender_ended_example : (e : Option Error) × (one_each_way.sender ≡ sender_ended e)
make_bidi_stream-sender_ended_example =
    make_bidi_stream-sender_ended steady unchanged (codes "a" ∷ []) in_turns (codes "x" ∷ [])
      (ground arith)

-- The second call of wait comes early and waits for the rest of the interval.
wait_all-Clock_example :
    (first : ℕ) × (later : List ℕ) × (wait_all (new_interval_waiter 10) ((5, 5) ∷ (8, 15) ∷ [])
      ≡ first ∷ later)
    × (length later ≡ 1)
    × (first + 10 * 1 ≤ last_of first later)
unfolding Clock
wait_all-Clock_example =
    wait_all-Clock 10 5 5 ((8, 15) ∷ []) (tt, ground arith, (ground arith, ground arith, tt))

abbrev no_failure : Text → Option Text
no_failure s = none
