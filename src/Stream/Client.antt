-- ===== src/Stream/Client.antt =====
-- A client-streaming call of a benchmark, against sending the list of messages one by one.
pub mod Ended
use yab.Prelude.{
  ℕ, suc, ◌+◌, List, [], ◌∷◌, ◌++◌, none, some, ◌≡◌, refl, ap, ◌∙◌, Text, arith, length,
  length-append, append_assoc, get_elem?-append, nat_comparable, inl, inr, Option-cases, Option,
  ◌⊎◌, codes,
}
use yab.Stream.{
  Error, eof, sending, receiving, reading_response, closing, Fault, at_end, fault, Received,
  message, unreadable, no_message, Done, done, client_receive, benchmark_handle_response, Transport,
  send_stream_message, client_loop, client_end, make_client_stream, StreamIoBenchmark,
  new_stream_io_benchmark, benchmark_next_request, benchmark_io,
}

-- A benchmark that has given out `before` and has `rest` left.
abbrev pub at : List Text → List Text → List Text → StreamIoBenchmark
at before rest responses = record {
  stream_requests = before ++ rest;
  stream_requests_idx = length before;
  stream_responses = responses;
}

pub next_request-at :
    (before : List Text) (r : Text) (rest responses : List Text)
    → benchmark_next_request (at before (r ∷ rest) responses)
      ≡ (record (at before (r ∷ rest) responses) { stream_requests_idx = length before + 1 }, inr r)
unfolding benchmark_next_request
next_request-at before r rest responses =
    rw (get_elem?-append before r rest) (ground (arith, length-append before (r ∷ rest)))

pub next_request-at_end :
    (before responses : List Text)
    → benchmark_next_request (at before [] responses) ≡ (at before [] responses, inl eof)
unfolding benchmark_next_request
next_request-at_end before responses = ground (arith, length-append before [])

pub at-shift :
    (before : List Text) (r : Text) (rest responses : List Text)
    → record (at before (r ∷ rest) responses) { stream_requests_idx = length before + 1 }
      ≡ at (before ++ r ∷ []) rest responses
at-shift before r rest responses =
    rw (append_assoc before (r ∷ []) rest, length-append before (r ∷ [])) refl

pub next_request-advance :
    (before : List Text) (r : Text) (rest responses : List Text)
    → benchmark_next_request (at before (r ∷ rest) responses)
      ≡ (at (before ++ r ∷ []) rest responses, inr r)
next_request-advance before r rest responses =
    next_request-at before r rest responses
    ∙ ap (λ b. (b, inr r)) (at-shift before r rest responses)

module _ {W : Type 0} (tr : Transport W) where
  -- The messages sent one by one, up to the first that fails, and counted from `k` on: the stream,
  -- the count, and the error, which is the end of the messages where none failed.
  unfoldable pub send_each : ℕ → List Text → W → W × ℕ × Error
  send_each k [] w = (w, k, eof)
  send_each k (r ∷ rs) w =
      let b = send_stream_message benchmark_io tr r w in
      elim b.1 [ some e ↦ (b.0, k + 1, e) | none ↦ send_each (k + 1) rs b.0 ]

  abbrev pub after_sending : List Text → W × ℕ × Error → StreamIoBenchmark × W × Error
  after_sending rs (w, k, e) =
      (record (new_stream_io_benchmark rs) { stream_requests_idx = k }, w, e)

  client_loop-at :
      (rest before : List Text) (w : W)
      → client_loop benchmark_io tr (suc (length rest)) (at before rest []) w
        ≡ some (after_sending (before ++ rest) (send_each (length before) rest w))
  unfolding client_loop send_each
  client_loop-at [] before w = cc (next_request-at_end before [])
  client_loop-at (r ∷ rest) before w =
      let sent = send_stream_message benchmark_io tr r w in
      let next = next_request-advance before r rest [] in
      elim (Option-cases sent.1) [
        | inl h ↦ cc (
          next,
          h,
          client_loop-at rest (before ++ r ∷ []) sent.0,
          append_assoc before (r ∷ []) rest,
          length-append before (r ∷ []),
        )
        | inr (e, h) ↦ cc (next_request-at before r rest [], h)
      ]

  pub make_client_stream-send_each :
      (rs : List Text) (w : W)
      → make_client_stream benchmark_io tr (suc (length rs)) (new_stream_io_benchmark rs) w
        ≡ some (client_end benchmark_io tr (after_sending rs (send_each 0 rs w)))
  unfolding make_client_stream
  make_client_stream-send_each rs w = rw (make_client_stream, client_loop-at rs [] w) refl
