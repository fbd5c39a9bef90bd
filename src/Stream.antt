-- ===== src/Stream.antt =====
-- handler.go and benchmark_stream.go: calls that stream messages.
--
-- A stream is the one that the transport gives: its three calls are the parameters `Transport`, over
-- a state `W`. Waiting between messages and before closing takes time only. Loops run on fuel, and
-- give `none` where it is used up.
pub mod Initializer
pub mod Client
pub mod Server
pub mod Bidi
pub mod Waiter
pub mod Call
use yab.Prelude.{
  ℕ, zero, suc, ◌+◌, Bool, ◌⊎◌, inl, inr, List, [], ◌∷◌, ◌++◌, Option, none, some, Text, length,
  ◌==◌, nat_comparable, if◌then◌else◌, get_elem?,
}

-- What a call of the stream or of the reader of the input says when it fails: `io.EOF` or a text.
pub data Fault : Type 0 where
  at_end : Fault
  fault : Text → Fault

-- The errors that the functions below return; `index_out_of_range` is a panic.
pub data Error : Type 0 where
  eof more_than_one_message index_out_of_range : Error
  reading_input sending receiving reading_response closing serializing to_json : Text → Error

-- What `ReceiveMessage` gives, and what reading the body of its message gives.
pub data Received : Type 0 where
  message : Text → Received
  unreadable : Text → Received
  no_message : Fault → Received

pub record Transport (W : Type 0) : Type 0 where
  pub send : Text → W → W × Option Fault
  pub receive : W → W × Received
  pub close : W → W × Option Fault

-- `StreamIO`, over its state `S`
pub record StreamIo (S : Type 0) : Type 0 where
  pub next_request : S → S × (Error ⊎ Text)
  pub handle_response : Text → S → S × Option Error

-- The end of a call: the states, and the error that is returned.
pub record Done (S W : Type 0) : Type 0 where
  pub io : S
  pub stream : W
  pub error : Option Error

abbrev pub done : {S W : Type 0} → S → W → Option Error → Done S W
done s w e = record { io = s; stream = w; error = e }

abbrev pub send_error : Option Fault → Option Error
send_error none = none
send_error (some at_end) = some eof
send_error (some (fault t)) = some (sending t)

abbrev pub received : Received → Error ⊎ Text
received (message t) = inr t
received (unreadable t) = inl (reading_response t)
received (no_message at_end) = inl eof
received (no_message (fault t)) = inl (receiving t)

-- `Close` gives no `io.EOF` a meaning of its own.
abbrev pub close_error : (Fault → Text) → Option Fault → Option Error
close_error say none = none
close_error say (some f) = some (closing (say f))

abbrev pub fault_text : Fault → Text
fault_text at_end = b'E' ∷ b'O' ∷ b'F' ∷ []
fault_text (fault t) = t

module _ {S W : Type 0} (io : StreamIo S) (tr : Transport W) where
  abbrev pub send_stream_message : Text → W → W × Option Error
  send_stream_message body w = let a = tr.send body w in (a.0, send_error a.1)

  abbrev pub receive_stream_message : W → W × (Error ⊎ Text)
  receive_stream_message w = let a = tr.receive w in (a.0, received a.1)

  abbrev pub close_send_stream : W → W × Option Error
  close_send_stream w = let a = tr.close w in (a.0, close_error fault_text a.1)

  -- The loop of `makeClientStream`: the error that ends it.
  unfoldable pub client_loop : ℕ → S → W → Option (S × W × Error)
  client_loop zero s w = none
  client_loop (suc fuel) s w =
      let a = io.next_request s in
      elim a.1 [
        | inl e ↦ some (a.0, w, e)
        | inr body ↦
            let b = send_stream_message body w in
            elim b.1 [ some e ↦ some (a.0, b.0, e) | none ↦ client_loop fuel a.0 b.0 ]
      ]

  -- `makeClientStream` behind the closing of the sending side.
  unfoldable pub client_receive : S → W → Done S W
  client_receive s w =
      let a = receive_stream_message w in
      elim a.1 [
        | inl e ↦ done s a.0 (some e)
        | inr body ↦ let b = io.handle_response body s in done b.0 a.0 b.1
      ]

  -- `makeClientStream` behind its loop.
  unfoldable pub client_end : S × W × Error → Done S W
  unfolding client_receive
  client_end (s, w, eof) =
      let a = close_send_stream w in
      elim a.1 [ some e ↦ done s a.0 (some e) | none ↦ client_receive s a.0 ]
  client_end (s, w, e) = done s w (some e)

  unfoldable pub make_client_stream : ℕ → S → W → Option (Done S W)
  unfolding client_loop client_end
  make_client_stream fuel s w = elim (client_loop fuel s w) [
    | none ↦ none
    | some r ↦ some (client_end r)
  ]

  -- The loop of `makeServerStream`: the error that ends it.
  unfoldable pub server_loop : ℕ → S → W → Option (S × W × Error)
  server_loop zero s w = none
  server_loop (suc fuel) s w =
      let a = receive_stream_message w in
      elim a.1 [
        | inl e ↦ some (s, a.0, e)
        | inr body ↦
            let b = io.handle_response body s in
            elim b.1 [ some e ↦ some (b.0, a.0, e) | none ↦ server_loop fuel b.0 a.0 ]
      ]

  abbrev server_end : S × W × Error → Done S W
  server_end (s, w, eof) = done s w none
  server_end (s, w, e) = done s w (some e)

  -- `makeServerStream` behind the check of the requests.
  unfoldable pub server_send : ℕ → Text → S → W → Option (Done S W)
  unfolding server_loop
  server_send fuel body s w =
      let a = send_stream_message body w in
      elim a.1 [
        | some e ↦ some (done s a.0 (some e))
        | none ↦
            let b = close_send_stream a.0 in
            elim b.1 [
              | some e ↦ some (done s b.0 (some e))
              | none ↦ elim (server_loop fuel s b.0) [ none ↦ none | some r ↦ some (server_end r) ]
            ]
      ]

  -- The second `NextRequest` of `makeServerStream`, behind a first one that gave `body`.
  unfoldable pub server_second : ℕ → Text → S → W → Option (Done S W)
  unfolding server_send
  server_second fuel body s w =
      let a = io.next_request s in
      elim a.1 [
        | inr second ↦ some (done a.0 w (some more_than_one_message))
        | inl eof ↦ server_send fuel body a.0 w
        | inl e ↦ some (done a.0 w (some e))
      ]

  unfoldable pub make_server_stream : ℕ → S → W → Option (Done S W)
  unfolding server_send server_second
  make_server_stream fuel s w =
      let a = io.next_request s in
      elim a.1 [
        | inr body ↦ server_second fuel body a.0 w
        | inl eof ↦ server_send fuel [] a.0 w
        | inl e ↦ some (done a.0 w (some e))
      ]

-- `streamIOBenchmark`
pub record StreamIoBenchmark : Type 0 where
  pub stream_requests : List Text
  pub stream_requests_idx : ℕ
  pub stream_responses : List Text

abbrev pub new_stream_io_benchmark : List Text → StreamIoBenchmark
new_stream_io_benchmark rs = record {
  stream_requests = rs;
  stream_requests_idx = 0;
  stream_responses = [];
}

unfoldable pub benchmark_next_request : StreamIoBenchmark → StreamIoBenchmark × (Error ⊎ Text)
benchmark_next_request b =
    if length b.stream_requests == b.stream_requests_idx
    then (b, inl eof)
    else elim (get_elem? b.stream_requests b.stream_requests_idx) [
      | none ↦ (b, inl index_out_of_range)
      | some req ↦ (record b { stream_requests_idx = b.stream_requests_idx + 1 }, inr req)
    ]

unfoldable pub benchmark_handle_response :
    Text → StreamIoBenchmark → StreamIoBenchmark × Option Error
benchmark_handle_response res b =
    (record b { stream_responses = b.stream_responses ++ res ∷ [] }, none)

abbrev pub benchmark_io : StreamIo StreamIoBenchmark
benchmark_io = record {
  next_request = benchmark_next_request;
  handle_response = benchmark_handle_response;
}
