-- ===== src/Stream/Call.antt =====
-- handler.go and benchmark_stream.go: a call of a streaming method, and its report in a benchmark.
--
-- `opened` is what `CallStream` gives, or `none` where the transport has no streams. A bidirectional
-- call runs under a schedule, the others with fuel for their loop; `none` is a call that has not
-- returned yet.
use yab.Prelude.{
  ℕ, List, [], ◌∷◌, Option, none, some, ◌⊎◌, inl, inr, ◌≡◌, refl, sym, ap, ◌∙◌, Text, length, arith,
}
use yab.Options.{MethodType, unary, client_stream, server_stream, bidirectional_stream}
use yab.Prelude.Int.{ℤ, ◌-ℤ◌}
use yab.Stream.{
  Error, StreamIo, Transport, Done, make_client_stream, make_server_stream, StreamIoBenchmark,
  new_stream_io_benchmark, benchmark_io,
}
use yab.Stream.Bidi.{
  Bidi, Turn, Receiver, receiving_body, handling, canceling, joining, returned, start,
  make_bidi_stream,
}
use yab.Stream.Bidi.Order.{Recorded, recording, cancel_under, fresh}
use yab.Stream.Bidi.Order.Ends.{Finished, make_bidi_stream-Finished}

pub data StreamCallError : Type 0 where
  no_streams : StreamCallError
  not_called : Text → StreamCallError
  failed : Error → StreamCallError
  not_successful : Text → StreamCallError

abbrev pub stream_failure : Option Error → Option StreamCallError
stream_failure none = none
stream_failure (some e) = some (failed e)

abbrev pub of_receiver_at : {S : Type 0} → S → Receiver → Option (S × Option StreamCallError)
of_receiver_at s (returned e) = some (s, stream_failure e)
of_receiver_at s _ = none

abbrev pub of_bidi : {S W : Type 0} → Bidi S W → Option (S × Option StreamCallError)
of_bidi b = of_receiver_at b.io b.receiver

abbrev pub of_done : {S W : Type 0} → Option (Done S W) → Option (S × Option StreamCallError)
of_done none = none
of_done (some d) = some (d.io, stream_failure d.error)

module _ {S W : Type 0} (io : StreamIo S) (tr : Transport W) (cancel : W → W) where
  -- The `switch` of `makeStreamRequest`.
  unfoldable pub run_stream :
      ℕ → List Turn → MethodType → S → W → Option (S × Option StreamCallError)
  run_stream fuel turns bidirectional_stream s w =
      of_bidi (make_bidi_stream io tr cancel turns (start s w))
  run_stream fuel turns client_stream s w = of_done (make_client_stream io tr fuel s w)
  run_stream fuel turns server_stream s w = of_done (make_server_stream io tr fuel s w)
  run_stream fuel turns unary s w = of_done (make_server_stream io tr fuel s w)

  -- `makeStreamRequest`
  unfoldable pub make_stream_request :
      ℕ → List Turn → MethodType → Option (Text ⊎ W) → S → Option (S × Option StreamCallError)
  unfolding run_stream
  make_stream_request fuel turns kind none s = some (s, some no_streams)
  make_stream_request fuel turns kind (some (inl e)) s = some (s, some (not_called e))
  make_stream_request fuel turns kind (some (inr w)) s = run_stream fuel turns kind s w

-- `benchmarkStreamCallReport`
pub record Report : Type 0 where
  pub latency : ℤ
  pub stream_messages_received : ℕ
  pub stream_messages_sent : ℕ

-- The loop over the responses: the first that is no success.
abbrev or_next : Option Text → Option StreamCallError → Option StreamCallError
or_next none rest = rest
or_next (some e) rest = some (not_successful e)

unfoldable pub check_responses : (Text → Option Text) → List Text → Option StreamCallError
check_responses check [] = none
check_responses check (r ∷ rs) = or_next (check r) (check_responses check rs)

module _ (check : Text → Option Text) (begin end : ℤ) where
  abbrev report_of : StreamIoBenchmark → Report
  report_of b = record {
    latency = end -ℤ begin;
    stream_messages_received = length b.stream_responses;
    stream_messages_sent = b.stream_requests_idx;
  }

  abbrev pub reported :
      Option (StreamIoBenchmark × Option StreamCallError) → Option (Report × Option StreamCallError)
  reported none = none
  reported (some (b, some e)) = some (report_of b, some e)
  reported (some (b, none)) = some (report_of b, check_responses check b.stream_responses)

  -- `benchmarkStreamMethod.Call`, with the times before and after the call
  unfoldable pub stream_call :
      {W : Type 0}
      → Transport W
      → (W → W)
      → ℕ
      → List Turn
      → MethodType
      → Option (Text ⊎ W)
      → List Text
      → Option (Report × Option StreamCallError)
  unfolding make_stream_request check_responses
  stream_call tr cancel fuel turns kind opened requests = reported (
      make_stream_request benchmark_io tr cancel fuel turns kind opened
        (new_stream_io_benchmark requests))

abbrev some_report : Report → Option StreamCallError → Option (Report × Option StreamCallError)
some_report r e = some (r, e)

report_inj : {r s : Report} {e f : Option StreamCallError} → some_report r e ≡ some (s, f) → r ≡ s
report_inj h = ground (arith, h)

not_reported : {r : Report} {e : Option StreamCallError} → none ≡ some_report r e → ⊥
not_reported h = ground (arith, h)

module _ (check : Text → Option Text) (begin end : ℤ) where
  reported-report :
      (b : StreamIoBenchmark) (e : Option Error) (report : Report) (err : Option StreamCallError)
      → reported check begin end (some (b, stream_failure e)) ≡ some (report, err)
      → report_of check begin end b ≡ report
  reported-report b none report err h = report_inj h
  reported-report b (some e) report err h = report_inj h

  module _ {W : Type 0} (rs : List Text) (b : Bidi StreamIoBenchmark (Recorded W)) where
    counts :
        (r : Receiver) (report : Report) (err : Option StreamCallError)
        → ((e : Option Error) → r ≡ returned e → Finished rs e b)
        → reported check begin end (of_receiver_at b.io r) ≡ some (report, err)
        → (report.stream_messages_sent ≡ length b.stream.out)
          × (report.stream_messages_received ≡ length b.stream.back)
    counts receiving_body report err finished h = absurd (not_reported h)
    counts (handling t) report err finished h = absurd (not_reported h)
    counts (canceling e) report err finished h = absurd (not_reported h)
    counts (joining e) report err finished h = absurd (not_reported h)
    counts (returned e) report err finished h =
        let f = finished e refl in
        let same = reported-report b.io e report err h in
        (
          ap (λ r. r.stream_messages_sent) (sym same) ∙ f.9,
          ap (λ r. r.stream_messages_received) (sym same) ∙ ap length f.6,
        )

  -- The report of a bidirectional call of a benchmark that has returned counts as sent the messages
  -- handed to the stream, and as received the messages that arrived.
  pub stream_call-counts :
      {W : Type 0} (tr : Transport W) (cancel : W → W) (fuel : ℕ) (ts : List Turn) (rs : List Text)
      (w : W) (report : Report) (err : Option StreamCallError)
      → stream_call check begin end
          (recording tr)
          (cancel_under cancel)
          fuel
          ts
          bidirectional_stream
          (some (inr (fresh w)))
          rs
        ≡ some (report, err)
      → let b =
          make_bidi_stream benchmark_io
            (recording tr)
            (cancel_under cancel)
            ts
            (start (new_stream_io_benchmark rs) (fresh w)) in
        (report.stream_messages_sent ≡ length b.stream.out)
        × (report.stream_messages_received ≡ length b.stream.back)
  unfolding stream_call make_stream_request run_stream
  stream_call-counts tr cancel fuel ts rs w report err h =
      let b =
        make_bidi_stream benchmark_io (recording tr) (cancel_under cancel) ts
          (start (new_stream_io_benchmark rs) (fresh w)) in
      counts rs b b.receiver report err (λ e k. make_bidi_stream-Finished tr cancel rs ts w e k) h
