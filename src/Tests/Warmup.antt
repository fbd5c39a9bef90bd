-- ===== src/Tests/Warmup.antt =====
-- bench_method.go: two connections to two peers, and the theorem at them.
use yab.Prelude.{ℕ, [], ◌∷◌, Option, none, ◌≡◌, ◌≢◌, ◌↔◌, ◌⊎◌, inr, refl, Text, codes, false, List}
use yab.Prelude.Int.{pos}
use yab.Options.{TransportOptions}
use yab.Warmup.{warmed, PeerTransport, warm_transports}
use yab.Warmup.Connections.{AreWarm, warm_transports-AreWarm}

abbrev two_peers : TransportOptions
two_peers = record {
  service_name = codes "echo";
  peers = codes "a:1" ∷ codes "b:2" ∷ [];
  peer_list = [];
  caller_name = codes "me";
  routing_key = [];
  routing_delegate = [];
  shard_key = [];
  rpc_encoding = [];
  jaeger = false;
  no_jaeger = false;
  force_jaeger_sample = false;
  transport_headers = [];
  http_method = [];
  use_http2 = false;
  grpc_max_response_size = pos 0;
}

-- A transport is the list of its peers here.
abbrev peers_of : TransportOptions → Text ⊎ List Text
peers_of opts = inr opts.peers

abbrev never_fails : ℕ → List Text → ℕ → Option Text
never_fails i t j = none

abbrev in_turn : List (PeerTransport (List Text))
in_turn =
    record { transport = codes "b:2" ∷ []; peer_id = 1 }
    ∷ record { transport = codes "a:1" ∷ []; peer_id = 0 }
    ∷ []

two_connections : warm_transports peers_of never_fails two_peers 1 10 2 ≡ warmed in_turn
unfolding warm_transports
two_connections = refl

warm_transports-AreWarm_example :
    (warm_transports peers_of never_fails two_peers 1 10 2 ≡ warmed in_turn)
    ↔ (two_peers.peers ≢ []) × AreWarm peers_of never_fails two_peers 1 10 0 2 in_turn
warm_transports-AreWarm_example =
    warm_transports-AreWarm peers_of never_fails two_peers 1 10 2 in_turn
