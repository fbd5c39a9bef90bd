-- ===== src/Stream/Server.antt =====
-- A server-streaming call of a benchmark: how many requests it takes, and the responses it keeps.
use yab.Prelude.{
  ℕ, suc, List, [], ◌∷◌, ◌++◌, none, some, ◌≡◌, ap, ◌∙◌, Text, length, append-nil, append_assoc,
  ◌⊎◌, arith,
}
use yab.Stream.{
  eof, more_than_one_message, message, no_message, at_end, Transport, done, server_loop,
  make_server_stream, server_send, server_second, StreamIoBenchmark, new_stream_io_benchmark,
  benchmark_next_request, benchmark_handle_response, benchmark_io, send_stream_message,
  close_send_stream,
}
use yab.Stream.Client.{at}

-- The message that is sent for these requests: the first one, or an empty one.
abbrev pub first_body : List Text → Text
first_body [] = []
first_body (r ∷ rs) = r

module _ {W : Type 0} (tr : Transport W) where
  -- From `w` on the stream gives these messages and then `io.EOF`, and is `w'` then.
  pub data Answers : W → List Text → W → Type 0 where
    ended : {w w' : W} → tr.receive w ≡ (w', no_message at_end) → Answers w [] w'
    gives :
        {w w' w'' : W} {m : Text} {ms : List Text}
        → tr.receive w ≡ (w', message m)
        → Answers w' ms w''
        → Answers w (m ∷ ms) w''

  abbrev kept_io : List Text → ℕ → List Text → StreamIoBenchmark
  kept_io rs k l = record { stream_requests = rs; stream_requests_idx = k; stream_responses = l }

  server_loop-message :
      (rs : List Text) (k : ℕ) (kept : List Text) (fuel : ℕ) {w w' : W} {m : Text}
      → tr.receive w ≡ (w', message m)
      → server_loop benchmark_io tr (suc fuel) (kept_io rs k kept) w
        ≡ server_loop benchmark_io tr fuel (kept_io rs k (kept ++ m ∷ [])) w'
  unfolding server_loop benchmark_handle_response
  server_loop-message rs k kept fuel e = cc e

  server_loop-Answers :
      (rs : List Text) (k : ℕ) (kept : List Text) {w w' : W} {ms : List Text}
      → Answers w ms w'
      → server_loop benchmark_io tr (suc (length ms)) (kept_io rs k kept) w
        ≡ some (kept_io rs k (kept ++ ms), w', eof)
  unfolding server_loop
  server_loop-Answers rs k kept (ended e) = cc (e, append-nil kept)
  server_loop-Answers rs k kept {w'} (gives {m} {ms} e a) =
      server_loop-message rs k kept (suc (length ms)) e
      ∙ server_loop-Answers rs k (kept ++ m ∷ []) a
      ∙ ap (λ l. some (kept_io rs k l, w', eof)) (append_assoc kept (m ∷ []) ms)

  -- With two requests or more, a server-streaming call of a benchmark is an error, and nothing is
  -- sent.
  pub make_server_stream-too_many :
      (r s : Text) (rs : List Text) (fuel : ℕ) (w : W)
      → make_server_stream benchmark_io tr fuel (new_stream_io_benchmark (r ∷ s ∷ rs)) w
        ≡ some (done (at (r ∷ s ∷ []) rs []) w (some more_than_one_message))
  unfolding make_server_stream server_second benchmark_next_request
  make_server_stream-too_many r s rs fuel w = ground arith

  -- With one request or none, if the message for it is sent and the sending side is closed, the call
  -- ends without an error and has kept all the messages that the stream gives before its end, in their
  -- order.
  pub make_server_stream-Answers :
      (rs ms : List Text) (w w' : W)
      → (length rs ≡ 0) ⊎ (length rs ≡ 1)
      → (send_stream_message benchmark_io tr (first_body rs) w).1 ≡ none
      → (close_send_stream benchmark_io tr
          (send_stream_message benchmark_io tr (first_body rs) w).0).1
        ≡ none
      → Answers
          (close_send_stream benchmark_io tr
            (send_stream_message benchmark_io tr (first_body rs) w).0).0
          ms
          w'
      → make_server_stream benchmark_io tr (suc (length ms)) (new_stream_io_benchmark rs) w
        ≡ some (done (at rs [] ms) w' none)
  unfolding make_server_stream server_second server_send benchmark_next_request
  make_server_stream-Answers [] ms w w' one sent closed a =
      cc (sent, closed, server_loop-Answers [] 0 [] a)
  make_server_stream-Answers (r ∷ []) ms w w' one sent closed a =
      cc (sent, closed, server_loop-Answers (r ∷ []) 1 [] a)
  make_server_stream-Answers (r ∷ s ∷ rs) ms w w' one sent closed a = absurd (ground arith)
