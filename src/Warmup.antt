-- ===== src/Warmup.antt =====
-- bench_method.go and benchmark_unary.go: warming up the connections of a benchmark, and its unary calls.
--
-- Each goroutine of warmTransports writes to places of its own, and all are waited for, so what they leave
-- does not depend on their order. `make` is getTransport, and `call i t j` the error, if there is one, of
-- call j of connection i on the transport t, in whatever order the calls are made.
pub mod Connections
use yab.Prelude.{
  ℕ, zero, suc, ◌+◌, ◌%◌, List, [], ◌∷◌, Option, none, some, ◌⊎◌, inl, inr, Text, length, get_elem?,
}
use yab.Prelude.Int.{ℤ, ◌-ℤ◌}
use yab.Options.{TransportOptions}

-- `peerBalancer`, with the start that `rand.Intn` gives: a peer and its index. `none` is a panic.
unfoldable pub peer_balancer : List Text → ℕ → ℕ → Option (Text × ℕ)
peer_balancer peers start_offset i =
    let offset = (start_offset + i) % length peers in
    elim (get_elem? peers offset) as (λ _. Option (Text × ℕ)) [
      | none ↦ none
      | some p ↦ some (p, offset)
    ]

-- `peerTransport`
pub record PeerTransport (T : Type 0) : Type 0 where
  pub transport : T
  pub peer_id : ℕ

-- What `warmTransports` returns; `panicked`: there is no peer.
pub data Warmed (T : Type 0) : Type 0 where
  panicked : Warmed T
  not_warmed : Text → Warmed T
  warmed : List (PeerTransport T) → Warmed T

abbrev pub or_rest : Option Text → Option Text → Option Text
or_rest none rest = rest
or_rest (some e) rest = some e

-- `rand.Intn` panics where there are no peers.
abbrev pub unless_no_peers : {T : Type 0} → List Text → Warmed T → Warmed T
unless_no_peers [] w = panicked
unless_no_peers (p ∷ ps) w = w

-- The loop of `warmTransport`: the first error, from call `j` on.
unfoldable pub first_error : (ℕ → Option Text) → ℕ → ℕ → Option Text
first_error call j zero = none
first_error call j (suc n) = let rest = first_error call (suc j) n in or_rest (call j) rest

abbrev pub unless_failed {ℓ} : {T : Type ℓ} → T → Option Text → Text ⊎ T
unless_failed t none = inr t
unless_failed t (some e) = inl e

module _ {T : Type 0} (make : TransportOptions → Text ⊎ T) (call : ℕ → T → ℕ → Option Text)
    (t_opts : TransportOptions) (start_offset warmup_requests : ℕ) where
  abbrev pub warm_made : ℕ → Text ⊎ T → Text ⊎ T
  warm_made i (inl e) = inl e
  warm_made i (inr t) = unless_failed t (first_error (call i t) 0 warmup_requests)

  -- `warmTransport`
  unfoldable pub warm_transport : ℕ → TransportOptions → Text ⊎ T
  unfolding first_error
  warm_transport i opts = warm_made i (make opts)

  -- One goroutine: the place in `transports` with its error.
  abbrev pub at_peer : ℕ → Text ⊎ T → Option (Text ⊎ PeerTransport T)
  at_peer index (inl e) = some (inl e)
  at_peer index (inr t) = some (inr (record { transport = t; peer_id = index }))

  abbrev pub of_peer : ℕ → Option (Text × ℕ) → Option (Text ⊎ PeerTransport T)
  of_peer i none = none
  of_peer i (some (p, index)) = at_peer index (warm_transport i (record t_opts { peers = p ∷ [] }))

  unfoldable pub connection : ℕ → Option (Text ⊎ PeerTransport T)
  unfolding peer_balancer warm_transport
  connection i = of_peer i (peer_balancer t_opts.peers start_offset i)

  -- A connection in front of the others, of which the first error is reported.
  abbrev pub add : Option (Text ⊎ PeerTransport T) → Warmed T → Warmed T
  add none ts = panicked
  add (some r) panicked = panicked
  add (some (inl e)) ts = not_warmed e
  add (some (inr t)) (not_warmed e) = not_warmed e
  add (some (inr t)) (warmed ts) = warmed (t ∷ ts)

  unfoldable pub connections : ℕ → ℕ → Warmed T
  unfolding connection
  connections i zero = warmed []
  connections i (suc n) = add (connection i) (connections (suc i) n)

  -- `warmTransports`
  unfoldable pub warm_transports : ℕ → Warmed T
  unfolding connections
  warm_transports n = unless_no_peers t_opts.peers (connections 0 n)

-- `benchmarkUnaryMethod.Call`, with the times before and after the request, and the response or the error:
-- the latency and the error.
unfoldable pub unary_call :
    {R : Type 0} → (R → Option Text) → (start end : ℤ) → Text ⊎ R → ℤ × Option Text
unary_call check_success start end (inl e) = (end -ℤ start, some e)
unary_call check_success start end (inr res) = (end -ℤ start, check_success res)
