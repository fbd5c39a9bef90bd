-- ===== src/Stream/Client/Ended.antt =====
-- What a client-streaming call of a benchmark does to its stream, call by call, and how it ends.
use yab.Prelude.{
  ℕ, suc, ◌+◌, List, [], ◌∷◌, none, some, ◌≡◌, refl, ap, ◌∙◌, Text, arith, length, nat_comparable,
  inl, inr, Option-cases, Option, ◌⊎◌, codes,
}
use yab.Stream.{
  Error, eof, sending, receiving, reading_response, closing, Fault, at_end, fault, Received,
  message, unreadable, no_message, Done, done, client_receive, benchmark_handle_response, Transport,
  client_end, make_client_stream, StreamIoBenchmark, new_stream_io_benchmark, benchmark_io,
}
use yab.Stream.Client.{send_each, after_sending, make_client_stream-send_each}

-- The error that a failed receive means.
abbrev pub IsFault : Received → Error → Type 0
IsFault (message t) e = ⊥
IsFault (unreadable t) e = e ≡ reading_response t
IsFault (no_message at_end) e = e ≡ eof
IsFault (no_message (fault t)) e = e ≡ receiving t

abbrev pub said : Fault → Text
said at_end = codes "EOF"
said (fault t) = t

-- A benchmark with the requests `rs`, `k` of which were taken, and the responses `ms`.
abbrev pub asked : List Text → ℕ → List Text → StreamIoBenchmark
asked rs k ms = record { stream_requests = rs; stream_requests_idx = k; stream_responses = ms }

module _ {W : Type 0} (tr : Transport W) where
  -- `Sends rs w k w' f`: of the messages `rs` the first `k` were handed to the stream, which went from
  -- `w` to `w'`; the last of them failed with `f`, or else none failed and they are all.
  pub data Sends : List Text → W → ℕ → W → Option Fault → Type 0 where
    all_sent : {w : W} → Sends [] w 0 w none
    failed :
        {r : Text} {rs : List Text} {w : W} {f : Fault}
        → (tr.send r w).1 ≡ some f
        → Sends (r ∷ rs) w 1 (tr.send r w).0 (some f)
    sent :
        {r : Text} {rs : List Text} {w w' : W} {k : ℕ} {f : Option Fault}
        → (tr.send r w).1 ≡ none
        → Sends rs (tr.send r w).0 k w' f
        → Sends (r ∷ rs) w (suc k) w' f

  -- The sending is over without an error other than `io.EOF`.
  abbrev pub IsOver : Option Fault → Type 0
  IsOver f = (f ≡ none) ⊎ (f ≡ some at_end)

  -- How a call ends whose sending left the stream in `w` with `f`.
  pub data Ends (rs : List Text) (k : ℕ) (w : W) (f : Option Fault)
      : Done StreamIoBenchmark W → Type 0 where
    not_sent :
        {t : Text} → f ≡ some (fault t) → Ends rs k w f (done (asked rs k []) w (some (sending t)))
    not_closed :
        {g : Fault}
        → IsOver f
        → (tr.close w).1 ≡ some g
        → Ends rs k w f (done (asked rs k []) (tr.close w).0 (some (closing (said g))))
    not_received :
        {m : Received} {e : Error}
        → IsOver f
        → (tr.close w).1 ≡ none
        → (tr.receive (tr.close w).0).1 ≡ m
        → IsFault m e
        → Ends rs k w f (done (asked rs k []) (tr.receive (tr.close w).0).0 (some e))
    answered :
        {m : Text}
        → IsOver f
        → (tr.close w).1 ≡ none
        → (tr.receive (tr.close w).0).1 ≡ message m
        → Ends rs k w f (done (asked rs k (m ∷ [])) (tr.receive (tr.close w).0).0 none)

  abbrev error_of : Option Fault → Error
  error_of none = eof
  error_of (some at_end) = eof
  error_of (some (fault t)) = sending t

  send_each-failed :
      (k : ℕ) (r : Text) (rs : List Text) (w : W) (f : Fault)
      → (tr.send r w).1 ≡ some f
      → send_each tr k (r ∷ rs) w ≡ ((tr.send r w).0, k + 1, error_of (some f))
  unfolding send_each
  send_each-failed k r rs w at_end e = rw (send_each, e) refl
  send_each-failed k r rs w (fault t) e = rw (send_each, e) refl

  send_each-sent :
      (k : ℕ) (r : Text) (rs : List Text) (w : W)
      → (tr.send r w).1 ≡ none
      → send_each tr k (r ∷ rs) w ≡ send_each tr (k + 1) rs (tr.send r w).0
  unfolding send_each
  send_each-sent k r rs w e = rw (send_each, e) refl

  abbrev AreSent : ℕ → List Text → W → Type 0
  AreSent k rs w =
      (n : ℕ) × (w' : W) × (f : Option Fault) × Sends rs w n w' f
      × (send_each tr k rs w ≡ (w', k + n, error_of f))

  send_each-Sends : (rs : List Text) (k : ℕ) (w : W) → AreSent k rs w
  unfolding send_each
  send_each-Sends [] k w = (0, w, none, all_sent, ap (λ n. (w, n, eof)) (omega arith))
  send_each-Sends (r ∷ rs) k w = elim (Option-cases (tr.send r w).1) [
    | inr (f, e) ↦ (1, (tr.send r w).0, some f, failed e, send_each-failed k r rs w f e)
    | inl e ↦
        let (n, w', f, s, same) = send_each-Sends rs (k + 1) (tr.send r w).0 in
        (
          suc n,
          w',
          f,
          sent e s,
          send_each-sent k r rs w e ∙ same ∙ ap (λ i. (w', i, error_of f)) (omega arith),
        )
  ]

  module _ (rs : List Text) (k : ℕ) (w : W) (f : Option Fault) (over : IsOver f) where
    receive-Ends :
        (m : Received)
        → (tr.close w).1 ≡ none
        → (tr.receive (tr.close w).0).1 ≡ m
        → Ends rs k w f (client_receive benchmark_io tr (asked rs k []) (tr.close w).0)
    unfolding client_receive benchmark_handle_response
    receive-Ends (message m) e h = rw (client_receive, h) (answered over e h)
    receive-Ends (unreadable t) e h = rw (client_receive, h) (not_received over e h refl)
    receive-Ends (no_message at_end) e h = rw (client_receive, h) (not_received over e h refl)
    receive-Ends (no_message (fault t)) e h = rw (client_receive, h) (not_received over e h refl)

    close-Ends :
        (g : Option Fault)
        → (tr.close w).1 ≡ g
        → Ends rs k w f (client_end benchmark_io tr (asked rs k [], w, eof))
    unfolding client_end
    close-Ends (some at_end) e = rw (client_end, e) (not_closed over e)
    close-Ends (some (fault t)) e = rw (client_end, e) (not_closed over e)
    close-Ends none e = rw (client_end, e) (receive-Ends (tr.receive (tr.close w).0).1 e refl)

  client_end-Ends :
      (rs : List Text) (k : ℕ) (w : W) (f : Option Fault)
      → Ends rs k w f (client_end benchmark_io tr (asked rs k [], w, error_of f))
  unfolding client_end
  client_end-Ends rs k w none = close-Ends rs k w none (inl refl) (tr.close w).1 refl
  client_end-Ends rs k w (some at_end) =
      close-Ends rs k w (some at_end) (inr refl) (tr.close w).1 refl
  client_end-Ends rs k w (some (fault t)) = not_sent refl

  -- A client-streaming call of a benchmark, with fuel for one round more than it has messages, ends. It
  -- hands the messages to the stream in their order, up to the first that fails. If none fails, or if
  -- one fails with `io.EOF`, it closes the sending side and, unless that fails, waits for one response,
  -- which it keeps; what fails is the error returned. Else the error of sending is returned.
  pub make_client_stream-Ends :
      (rs : List Text) (w : W)
      → (k : ℕ) × (w' : W) × (f : Option Fault) × (d : Done StreamIoBenchmark W)
        × (make_client_stream benchmark_io tr (suc (length rs)) (new_stream_io_benchmark rs) w
            ≡ some d)
        × Sends rs w k w' f
        × Ends rs k w' f d
  make_client_stream-Ends rs w =
      let (n, w', f, s, same) = send_each-Sends rs 0 w in
      (
        n,
        w',
        f,
        client_end benchmark_io tr (asked rs n [], w', error_of f),
        make_client_stream-send_each tr rs w
            ∙ ap (λ a. some (client_end benchmark_io tr (after_sending tr rs a)))
                (same ∙ ap (λ i. (w', i, error_of f)) (omega arith)),
        s,
        client_end-Ends rs n w' f,
      )
