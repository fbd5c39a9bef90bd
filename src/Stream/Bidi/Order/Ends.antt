-- ===== src/Stream/Bidi/Order/Ends.antt =====
-- How a bidirectional call of a benchmark ends: its result, and that its sending goroutine ends.
use yab.Prelude.{
  ◌⊎◌, inl, inr, ℕ, suc, ◌+◌, ◌-◌, ◌*◌, ◌≤◌, List, [], ◌∷◌, ◌++◌, Option, none, some, ◌≡◌, refl,
  sym, ap, ◌∙◌, subst, Text, length, arith, append-nil, length-append,
}
use yab.Stream.{
  Error, Transport, send_stream_message, benchmark_handle_response, StreamIoBenchmark,
  new_stream_io_benchmark, benchmark_io,
}
use yab.Stream.Bidi.{
  Sender, fetching, closing, sending_body, aborting, sender_ended, Receiver, receiving_body,
  handling, canceling, joining, returned, Bidi, Turn, fetched, of_sender, of_receiver, start, sent,
  sender_turn, receiver_turn, turn, make_bidi_stream,
}
use yab.Stream.Bidi.Errors.{HasFailed, IsResult, IsSendError, Told}
use yab.Stream.Bidi.Order.{
  next_request-some, next_request-none, Recorded, recording, cancel_under, fresh, InOrder, Kept,
  Joined, Sound, by_sender, by_receiver, by_sender-Sound,
}
use yab.Stream.Bidi.Order.Receiving.{make_bidi_stream-Sound, start-Sound, by_receiver-Sound}

-- The call has returned `e`: the goroutine has ended, the result is that of the two errors, which are
-- what the last receive and the last send or close say, all that arrived is kept, and the messages sent
-- are the first of the requests, all of them unless sending failed.
abbrev pub Finished :
    {W : Type 0} → List Text → Option Error → Bidi StreamIoBenchmark (Recorded W) → Type 0
Finished rs e b =
    (send_err : Option Error) × (receive_err : Error) × (b.sender ≡ sender_ended send_err)
    × IsResult send_err receive_err e
    × HasFailed b.stream.heard receive_err
    × IsSendError b.stream.closed b.stream.told send_err
    × (b.io.stream_responses ≡ b.stream.back)
    × (rest : List Text) × (b.stream.out ++ rest ≡ rs)
    × (b.io.stream_requests_idx ≡ length b.stream.out)
    × ((rest ≡ []) ⊎ ((f : Error) × (send_err ≡ some f)))

ended-rest :
    {rs : List Text} (send_err : Option Error) (out : List Text) (idx : ℕ)
    → InOrder rs (sender_ended send_err) out idx
    → (rest : List Text) × (out ++ rest ≡ rs)
      × (idx ≡ length out)
      × ((rest ≡ []) ⊎ ((f : Error) × (send_err ≡ some f)))
unfolding InOrder
ended-rest none out idx (all, n) = ([], append-nil out ∙ all, n, inl refl)
ended-rest (some f) out idx (rest, all, n) = (rest, all, n, inr (f, refl))

Sound-Finished :
    {W : Type 0} {rs : List Text} (e : Option Error) (b : Bidi StreamIoBenchmark (Recorded W))
    → Sound rs b
    → b.receiver ≡ returned e
    → Finished rs e b
unfolding Joined Kept
Sound-Finished {rs} e b (same, order, kept, j, t) h =
    let k = subst (λ r. Kept r b.io.stream_responses b.stream.back) h kept in
    let l = subst (λ r. Joined r b.sender b.stream.heard) h j in
    let u = subst (λ s. Told s b.stream.closed b.stream.told) l.2 t in
    let o =
      ended-rest l.0 b.stream.out b.io.stream_requests_idx
        (subst (λ s. InOrder rs s b.stream.out b.io.stream_requests_idx) l.2 order) in
    (l.0, l.1, l.2, l.3, l.4, u, k, o.0, o.1, o.2, o.3)

-- Turns of the sender that are left, at most.
abbrev sender_left : ℕ → Sender → ℕ → ℕ
sender_left n fetching idx = 2 * (n - idx) + 2
sender_left n (sending_body t) idx = 2 * (n - idx) + 3
sender_left n closing idx = 1
sender_left n (aborting e) idx = 1
sender_left n (sender_ended e) idx = 0

abbrev left : {W : Type 0} → Bidi StreamIoBenchmark (Recorded W) → ℕ
left b = sender_left (length b.io.stream_requests) b.sender b.io.stream_requests_idx

abbrev pub sender_turns : List Turn → ℕ
sender_turns [] = 0
sender_turns (of_sender ∷ ts) = suc (sender_turns ts)
sender_turns (of_receiver ∷ ts) = sender_turns ts

left-ended :
    (n : ℕ) (s : Sender) (idx : ℕ)
    → sender_left n s idx ≡ 0
    → (e : Option Error) × (s ≡ sender_ended e)
left-ended n (sender_ended e) idx h = (e, refl)
left-ended n fetching idx h = absurd (omega (arith, h))
left-ended n (sending_body t) idx h = absurd (omega (arith, h))
left-ended n closing idx h = absurd (omega (arith, h))
left-ended n (aborting e) idx h = absurd (omega (arith, h))

sent-left : (e : Option Error) (n idx : ℕ) → sender_left n (sent e) idx ≤ 2 * (n - idx) + 2
sent-left none n idx = omega arith
sent-left (some e) n idx = omega arith

module _ {W : Type 0} (tr : Transport W) (cancel : W → W) (rs : List Text) where
  fetch-left :
      (io : StreamIoBenchmark) (w : Recorded W) (r : Receiver)
      → Sound rs (record { io = io; stream = w; sender = fetching; receiver = r })
      → suc (
          left
            (by_sender tr cancel (record { io = io; stream = w; sender = fetching; receiver = r })))
        ≤ left (record { io = io; stream = w; sender = fetching; receiver = r })
  unfolding sender_turn InOrder
  fetch-left io w r (same, ([], all, idx), kept, j, t) =
      subst
        (λ a.
          suc (sender_left (length a.0.stream_requests) (fetched a.1) a.0.stream_requests_idx)
          ≤ 2 * (length io.stream_requests - io.stream_requests_idx) + 2)
        (sym (next_request-none io w.out (all ∙ sym same) idx)) (omega arith)
  fetch-left io w r (same, (body ∷ rest, all, idx), kept, j, t) =
      subst
        (λ a.
          suc (sender_left (length a.0.stream_requests) (fetched a.1) a.0.stream_requests_idx)
          ≤ 2 * (length io.stream_requests - io.stream_requests_idx) + 2)
        (sym (next_request-some io w.out body rest (all ∙ sym same) idx))
        (omega (arith, idx, ap length (all ∙ sym same), length-append w.out (body ∷ rest)))

  by_sender-left :
      (s : Sender) (io : StreamIoBenchmark) (w : Recorded W) (r : Receiver)
      → Sound rs (record { io = io; stream = w; sender = s; receiver = r })
      → left (by_sender tr cancel (record { io = io; stream = w; sender = s; receiver = r }))
        ≤ sender_left (length io.stream_requests) s io.stream_requests_idx - 1
  unfolding sender_turn InOrder
  by_sender-left fetching io w r v = omega (arith, fetch-left io w r v)
  by_sender-left (sending_body t) io w r v = omega (
    arith,
    sent-left (send_stream_message benchmark_io (recording tr) t w).1 (length io.stream_requests)
        io.stream_requests_idx,
  )
  by_sender-left closing io w r v = omega arith
  by_sender-left (aborting e) io w r v = omega arith
  by_sender-left (sender_ended e) io w r v = omega arith

  by_receiver-left :
      (r : Receiver) (io : StreamIoBenchmark) (w : Recorded W) (s : Sender)
      → left (by_receiver tr cancel (record { io = io; stream = w; sender = s; receiver = r }))
        ≡ sender_left (length io.stream_requests) s io.stream_requests_idx
  unfolding receiver_turn benchmark_handle_response
  by_receiver-left receiving_body io w s = refl
  by_receiver-left (handling t) io w s = refl
  by_receiver-left (canceling e) io w s = refl
  by_receiver-left (joining e) io w s = refl
  by_receiver-left (returned e) io w s = refl

  make_bidi_stream-left :
      (ts : List Turn) (b : Bidi StreamIoBenchmark (Recorded W))
      → Sound rs b
      → left (make_bidi_stream benchmark_io (recording tr) (cancel_under cancel) ts b)
        ≤ left b - sender_turns ts
  unfolding make_bidi_stream turn
  make_bidi_stream-left [] b v = omega arith
  make_bidi_stream-left (of_sender ∷ ts) b v = omega (
    arith,
    by_sender-left b.sender b.io b.stream b.receiver v,
    make_bidi_stream-left ts (by_sender tr cancel b)
        (by_sender-Sound tr cancel rs b.sender b.io b.stream b.receiver v),
  )
  make_bidi_stream-left (of_receiver ∷ ts) b v = omega (
    arith,
    by_receiver-left b.receiver b.io b.stream b.sender,
    make_bidi_stream-left ts (by_receiver tr cancel b)
        (by_receiver-Sound tr cancel rs b.receiver b.io b.stream b.sender v),
  )

  -- Under every schedule, a bidirectional call of a benchmark that has returned has waited for its
  -- goroutine. Its result is the error of sending if there is one other than io.EOF, else that of
  -- receiving if it is another than io.EOF, else none: the error of receiving is what the last receive
  -- failed with, and that of sending what the last send failed with or what the close of the sending side
  -- gave, if it came to that. The responses kept are all the messages that arrived, in their order; and
  -- the messages handed to the stream are the first of the requests, in their order, as many as were
  -- taken, and all of them if sending ended without an error.
  pub make_bidi_stream-Finished :
      (ts : List Turn) (w : W) (e : Option Error)
      → (make_bidi_stream benchmark_io
          (recording tr)
          (cancel_under cancel)
          ts
          (start (new_stream_io_benchmark rs) (fresh w))).receiver
        ≡ returned e
      → Finished rs e (
          make_bidi_stream benchmark_io
            (recording tr)
            (cancel_under cancel)
            ts
            (start (new_stream_io_benchmark rs) (fresh w)))
  make_bidi_stream-Finished ts w e h =
      Sound-Finished e
        (make_bidi_stream benchmark_io (recording tr) (cancel_under cancel) ts
          (start (new_stream_io_benchmark rs) (fresh w)))
        (make_bidi_stream-Sound tr cancel rs ts (start (new_stream_io_benchmark rs) (fresh w))
          (start-Sound tr cancel rs w))
        h

  -- Under every schedule that gives the sending goroutine two turns for each request and two more,
  -- that goroutine has ended, so that the wait for it is over.
  pub make_bidi_stream-sender_ended :
      (ts : List Turn) (w : W)
      → 2 * length rs + 2 ≤ sender_turns ts
      → (e : Option Error) × ((make_bidi_stream benchmark_io
            (recording tr)
            (cancel_under cancel)
            ts
            (start (new_stream_io_benchmark rs) (fresh w))).sender
          ≡ sender_ended e)
  make_bidi_stream-sender_ended ts w enough =
      let b =
        make_bidi_stream benchmark_io (recording tr) (cancel_under cancel) ts
          (start (new_stream_io_benchmark rs) (fresh w)) in
      left-ended (length b.io.stream_requests) b.sender b.io.stream_requests_idx (
        omega (
          arith,
          make_bidi_stream-left ts (start (new_stream_io_benchmark rs) (fresh w))
              (start-Sound tr cancel rs w),
        ))
