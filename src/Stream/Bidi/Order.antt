-- ===== src/Stream/Bidi/Order.antt =====
-- What a bidirectional call of a benchmark has sent and received, under every schedule.
pub mod Receiving
pub mod Ends
use yab.Prelude.{
  Bool, true, false, ℕ, suc, ◌+◌, List, [], ◌∷◌, ◌++◌, Option, none, some, ◌⊎◌, inl, inr, ◌≡◌, ◌≢◌,
  refl, sym, ap, ap₂, ◌∙◌, subst, Text, length, arith, append-nil, append_assoc, length-append,
  Option-cases,
}
use yab.Stream.{
  Error, eof, Received, message, Transport, Fault, send_stream_message, receive_stream_message,
  close_send_stream, unreadable, no_message, at_end, fault, received, benchmark_handle_response,
  StreamIoBenchmark, new_stream_io_benchmark, benchmark_io, benchmark_next_request,
}
use yab.Stream.Client.{at, next_request-at, next_request-at_end}
use yab.Stream.Bidi.Errors.{HasFailed, IsResult, Told, sent-Told, closed-Told}
use yab.Stream.Bidi.{
  Sender, fetching, closing, sending_body, aborting, sender_ended, Receiver, receiving_body,
  handling, canceling, joining, returned, Bidi, Turn, fetched, answered, handled, joined, of_sender,
  of_receiver, start, sent, bidi_result, sender_turn, receiver_turn, turn, make_bidi_stream,
}

-- A stream, with the messages handed to it and those that came from it, what the last receive gave,
-- what the last send or close gave, and whether that was a close.
pub record Recorded (W : Type 0) : Type 0 where
  pub under : W
  pub out : List Text
  pub back : List Text
  pub heard : Option Received
  pub told : Option Fault
  pub closed : Bool

abbrev pub arrived : Received → List Text
arrived (message t) = t ∷ []
arrived _ = []

abbrev pub recording : {W : Type 0} → Transport W → Transport (Recorded W)
recording tr = record {
  send = λ t w.
      let a = tr.send t w.under in
      (record w { under = a.0; out = w.out ++ t ∷ []; told = a.1; closed = false }, a.1);
  receive = λ w.
      let a = tr.receive w.under in
      (record w { under = a.0; back = w.back ++ arrived a.1; heard = some a.1 }, a.1);
  close =
      λ w. let a = tr.close w.under in (record w { under = a.0; told = a.1; closed = true }, a.1);
}

abbrev pub cancel_under : {W : Type 0} → (W → W) → Recorded W → Recorded W
cancel_under cancel w = record w { under = cancel w.under }

abbrev pub fresh : {W : Type 0} → W → Recorded W
fresh w = record { under = w; out = []; back = []; heard = none; told = none; closed = false }

-- The messages handed to the stream are the first of the requests `rs`, in their order; where none is
-- left to send, they are all of them.
unfoldable pub InOrder : List Text → Sender → List Text → ℕ → Type 0
InOrder rs fetching out idx = (rest : List Text) × (out ++ rest ≡ rs) × (idx ≡ length out)
InOrder rs (sending_body body) out idx =
    (rest : List Text) × (out ++ body ∷ rest ≡ rs) × (idx ≡ length out + 1)
InOrder rs closing out idx = (out ≡ rs) × (idx ≡ length out)
InOrder rs (aborting e) out idx = ⊥
InOrder rs (sender_ended none) out idx = (out ≡ rs) × (idx ≡ length out)
InOrder rs (sender_ended (some e)) out idx =
    (rest : List Text) × (out ++ rest ≡ rs) × (idx ≡ length out)

-- The responses kept are the messages that arrived, but for the one being handled.
unfoldable pub Kept : Receiver → List Text → List Text → Type 0
Kept (handling body) responses back = responses ++ body ∷ [] ≡ back
Kept _ responses back = responses ≡ back

-- A call that is to return does so for the last receive, which failed; when it has returned, it has
-- waited for the goroutine, and its result is that of the two errors.
unfoldable pub Joined : Receiver → Sender → Option Received → Type 0
Joined (returned r) s heard =
    (send_err : Option Error) × (receive_err : Error) × (s ≡ sender_ended send_err)
    × IsResult send_err receive_err r
    × HasFailed heard receive_err
Joined (canceling e) s heard = HasFailed heard e
Joined (joining e) s heard = HasFailed heard e
Joined _ s heard = Unit

at_requests :
    (b : StreamIoBenchmark) (before rest : List Text)
    → before ++ rest ≡ b.stream_requests
    → b.stream_requests_idx ≡ length before
    → b ≡ at before rest b.stream_responses
at_requests b before rest same idx =
    ap₂
      (λ l i. record {
        stream_requests = l;
        stream_requests_idx = i;
        stream_responses = b.stream_responses;
      })
      (sym same) idx

-- What holds of every state of a call with the requests `rs`.
abbrev pub Sound : {W : Type 0} → List Text → Bidi StreamIoBenchmark (Recorded W) → Type 0
Sound rs b =
    (b.io.stream_requests ≡ rs)
    × InOrder rs b.sender b.stream.out b.io.stream_requests_idx
    × Kept b.receiver b.io.stream_responses b.stream.back
    × Joined b.receiver b.sender b.stream.heard
    × Told b.sender b.stream.closed b.stream.told

pub next_request-some :
    (b : StreamIoBenchmark) (before : List Text) (r : Text) (rest : List Text)
    → before ++ r ∷ rest ≡ b.stream_requests
    → b.stream_requests_idx ≡ length before
    → benchmark_next_request b
      ≡ (record b { stream_requests_idx = b.stream_requests_idx + 1 }, inr r)
next_request-some b before r rest same idx =
    subst
      (λ c.
        benchmark_next_request c
        ≡ (record c { stream_requests_idx = c.stream_requests_idx + 1 }, inr r))
      (sym (at_requests b before (r ∷ rest) same idx))
      (next_request-at before r rest b.stream_responses)

pub next_request-none :
    (b : StreamIoBenchmark) (before : List Text)
    → before ++ [] ≡ b.stream_requests
    → b.stream_requests_idx ≡ length before
    → benchmark_next_request b ≡ (b, inl eof)
next_request-none b before same idx =
    subst (λ c. benchmark_next_request c ≡ (c, inl eof)) (sym (at_requests b before [] same idx))
      (next_request-at_end before b.stream_responses)

-- While the sender is at work the call has not returned.
working-Joined :
    (r : Receiver) {s : Sender} (s' : Sender) (heard : Option Received)
    → ((e : Option Error) → s ≢ sender_ended e)
    → Joined r s heard
    → Joined r s' heard
unfolding Joined
working-Joined (returned r) s' heard working (e, f, ended, same, failed) = absurd (working e ended)
working-Joined receiving_body s' heard working j = tt
working-Joined (handling t) s' heard working j = tt
working-Joined (canceling e) s' heard working j = j
working-Joined (joining e) s' heard working j = j

module _ {W : Type 0} (tr : Transport W) (cancel : W → W) where
  abbrev pub by_sender : Bidi StreamIoBenchmark (Recorded W) → Bidi StreamIoBenchmark (Recorded W)
  by_sender b = sender_turn benchmark_io (recording tr) (cancel_under cancel) b.sender b

  abbrev pub by_receiver : Bidi StreamIoBenchmark (Recorded W) → Bidi StreamIoBenchmark (Recorded W)
  by_receiver b = receiver_turn benchmark_io (recording tr) (cancel_under cancel) b.receiver b

module _ {W : Type 0} (tr : Transport W) (cancel : W → W) (rs : List Text) where
  fetch-Sound :
      (io : StreamIoBenchmark) (w : Recorded W) (r : Receiver)
      → Sound rs (record { io = io; stream = w; sender = fetching; receiver = r })
      → Sound rs
          (by_sender tr cancel (record { io = io; stream = w; sender = fetching; receiver = r }))
  unfolding sender_turn InOrder
  fetch-Sound io w r (same, ([], all, idx), kept, j, t) =
      subst (λ a. Sound rs (record { io = a.0; stream = w; sender = fetched a.1; receiver = r }))
        (sym (next_request-none io w.out (all ∙ sym same) idx))
        (
          same,
          (sym (append-nil w.out) ∙ all, idx),
          kept,
          working-Joined r closing w.heard (λ e. ground arith) j,
          t,
        )
  fetch-Sound io w r (same, (body ∷ rest, all, idx), kept, j, t) =
      subst (λ a. Sound rs (record { io = a.0; stream = w; sender = fetched a.1; receiver = r }))
        (sym (next_request-some io w.out body rest (all ∙ sym same) idx))
        (
          same,
          (rest, all, ap (λ n. n + 1) idx),
          kept,
          working-Joined r (sending_body body) w.heard (λ e. ground arith) j,
          t,
        )

  sent-InOrder :
      (e : Option Error) (out rest : List Text) (body : Text) (idx : ℕ)
      → out ++ body ∷ rest ≡ rs
      → idx ≡ length out + 1
      → InOrder rs (sent e) (out ++ body ∷ []) idx
  unfolding InOrder
  sent-InOrder none out rest body idx all n = (
    rest,
    append_assoc out (body ∷ []) rest ∙ all,
    omega (arith, n, length-append out (body ∷ [])),
  )
  sent-InOrder (some e) out rest body idx all n = (
    rest,
    append_assoc out (body ∷ []) rest ∙ all,
    omega (arith, n, length-append out (body ∷ [])),
  )

  ended-InOrder :
      (e : Option Error) (out rest : List Text) (idx : ℕ)
      → out ≡ rs
      → idx ≡ length out
      → InOrder rs (sender_ended e) out idx
  unfolding InOrder
  ended-InOrder none out rest idx all n = (all, n)
  ended-InOrder (some e) out rest idx all n = ([], append-nil out ∙ all, n)

  pub by_sender-Sound :
      (s : Sender) (io : StreamIoBenchmark) (w : Recorded W) (r : Receiver)
      → Sound rs (record { io = io; stream = w; sender = s; receiver = r })
      → Sound rs (by_sender tr cancel (record { io = io; stream = w; sender = s; receiver = r }))
  unfolding sender_turn InOrder
  by_sender-Sound fetching io w r v = fetch-Sound io w r v
  by_sender-Sound (sending_body body) io w r (same, (rest, all, idx), kept, j, t) = (
    same,
    sent-InOrder (send_stream_message benchmark_io (recording tr) body w).1 w.out rest body
        io.stream_requests_idx all idx,
    kept,
    working-Joined r (sent (send_stream_message benchmark_io (recording tr) body w).1) w.heard
        (λ e. ground arith) j,
    sent-Told (tr.send body w.under).1 false refl,
  )
  by_sender-Sound closing io w r (same, (all, n), kept, j, t) = (
    same,
    ended-InOrder (close_send_stream benchmark_io (recording tr) w).1 w.out []
        io.stream_requests_idx all n,
    kept,
    working-Joined r (sender_ended (close_send_stream benchmark_io (recording tr) w).1) w.heard
        (λ e. ground arith) j,
    closed-Told (tr.close w.under).1,
  )
  by_sender-Sound (aborting e) io w r (same, impossible, kept, j, t) = absurd impossible
  by_sender-Sound (sender_ended e) io w r v = v
