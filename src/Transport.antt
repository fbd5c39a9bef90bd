-- ===== src/Transport.antt =====
-- transport.go: the peers of a call and the transport that is made for it.
--
-- `net.SplitHostPort` (whether it takes the text), `url.ParseRequestURI` (scheme and host), the
-- resolving of a peer list (`url.Parse` and `peerprovider.Resolve` in one) and the address that
-- `tchannel.ListenIP` gives are parameters.
pub mod Laws
use yab.Prelude.{
  ℕ, zero, suc, Bool, true, false, not, ◌&&◌, List, [], ◌∷◌, ◌++◌, Option, none, some, ◌⊎◌, inl,
  inr, Text, codes, ◌==◌, text_comparable, if◌then◌else◌, is_nil, map,
}
use yab.Prelude.Assoc.{Assoc}
use yab.Prelude.Int.{ℤ}
use yab.Options.{Protocol, unknown, http, tchannel, grpc, Encoding, encoding_name, TransportOptions}
use yab.Resolve.{has_prefix, contains, Resolved}

pub data TransportError : Type 0 where
  service_required caller_required tracer_required peer_required peer_options : TransportError
  mixed_protocols : Text → Text → TransportError
  peer_list_failed : Text → TransportError
  empty_peer_list : Text → TransportError

-- What the three constructors of transports are given.
pub record TchannelOptions : Type 0 where
  pub source_service : Text
  pub target_service : Text
  pub routing_delegate : Text
  pub routing_key : Text
  pub shard_key : Text
  pub peers : List Text
  pub encoding : Text
  pub transport_opts : Assoc Text Text

pub record GrpcOptions : Type 0 where
  pub addresses : List Text
  pub caller : Text
  pub encoding : Text
  pub routing_key : Text
  pub routing_delegate : Text
  pub max_response_size : ℤ

pub record HttpOptions : Type 0 where
  pub http_method : Text
  pub source_service : Text
  pub target_service : Text
  pub routing_delegate : Text
  pub routing_key : Text
  pub shard_key : Text
  pub encoding : Text
  pub urls : List Text
  pub use_http2 : Bool

pub data Made : Type 0 where
  new_tchannel : TchannelOptions → Made
  new_grpc : GrpcOptions → Made
  new_http : HttpOptions → Made

abbrev localhost : Text
localhost = codes "localhost:"

-- `strings.TrimPrefix`, for a text that has the prefix
abbrev drop_prefix : Text → Text → Text
drop_prefix s [] = s
drop_prefix [] (p ∷ ps) = []
drop_prefix (c ∷ s) (p ∷ ps) = drop_prefix s ps

-- `remapLocalHost`, with the text of the local address
unfoldable pub remap_local_host : Text → List Text → List Text
remap_local_host ip [] = []
remap_local_host ip (hp ∷ host_ports) =
    (if has_prefix hp localhost then ip ++ codes ":" ++ drop_prefix hp localhost else hp)
    ∷ remap_local_host ip host_ports

module _ (is_host_port : Text → Bool) (parse_request_uri : Text → Option (Text × Text)) where
  -- `parsePeer`: protocol and host
  unfoldable pub parse_peer : Text → Text × Text
  parse_peer peer =
      if is_host_port peer && not (contains peer (codes "://"))
      then ([], peer)
      else elim (parse_request_uri peer) [ none ↦ ([], peer) | some u ↦ u ]

  -- The loop of `ensureSameProtocol`.
  unfoldable pub same_protocol : Text → List Text → TransportError ⊎ Text
  unfolding parse_peer
  same_protocol last [] = inr last
  same_protocol last (hp ∷ peers) =
      let p = (parse_peer hp).0 in
      let rest = same_protocol last peers in
      if last == p then rest else inl (mixed_protocols last p)

  -- `ensureSameProtocol`, for at least one peer.
  unfoldable pub ensure_same_protocol : Text → List Text → TransportError ⊎ Text
  unfolding same_protocol
  ensure_same_protocol peer peers = same_protocol (parse_peer peer).0 peers

  -- `getHosts`
  unfoldable pub get_hosts : List Text → List Text
  unfolding parse_peer
  get_hosts [] = []
  get_hosts (p ∷ peers) = (parse_peer p).1 ∷ get_hosts peers

  -- `loadTransportPeers` behind the resolving of a peer list.
  unfoldable pub check_peers : List Text → TransportError ⊎ (Text × List Text)
  unfolding ensure_same_protocol
  check_peers [] = inl peer_required
  check_peers (p ∷ peers) = elim (ensure_same_protocol p peers) [
    | inl e ↦ inl e
    | inr scheme ↦ inr (scheme, p ∷ peers)
  ]

  -- `loadTransportPeers`
  unfoldable pub load_transport_peers :
      (Text → Text ⊎ List Text) → TransportOptions → TransportError ⊎ (Text × List Text)
  unfolding check_peers
  load_transport_peers resolve opts =
      if is_nil opts.peer_list
      then check_peers opts.peers
      else if not (is_nil opts.peers)
      then inl peer_options
      else elim (resolve opts.peer_list) [
        | inl e ↦ inl (peer_list_failed e)
        | inr [] ↦ inl (empty_peer_list opts.peer_list)
        | inr (p ∷ peers) ↦ check_peers (p ∷ peers)
      ]

  -- The transport of the protocol. A text that is empty stands for no encoding of its own in
  -- `rpc_encoding`.
  unfoldable pub make_transport : Text → TransportOptions → Resolved → Made
  unfolding get_hosts remap_local_host
  make_transport ip opts resolved = elim resolved.protocol [
    | tchannel ↦ new_tchannel (record {
      source_service = opts.caller_name;
      target_service = opts.service_name;
      routing_delegate = opts.routing_delegate;
      routing_key = opts.routing_key;
      shard_key = opts.shard_key;
      peers = remap_local_host ip (get_hosts opts.peers);
      encoding = encoding_name resolved.enc;
      transport_opts = opts.transport_headers;
    })
    | grpc ↦ new_grpc (record {
      addresses = get_hosts opts.peers;
      caller = opts.caller_name;
      encoding = if is_nil opts.rpc_encoding then encoding_name resolved.enc else opts.rpc_encoding;
      routing_key = opts.routing_key;
      routing_delegate = opts.routing_delegate;
      max_response_size = opts.grpc_max_response_size;
    })
    | _ ↦ new_http (record {
      http_method = opts.http_method;
      source_service = opts.caller_name;
      target_service = opts.service_name;
      routing_delegate = opts.routing_delegate;
      routing_key = opts.routing_key;
      shard_key = opts.shard_key;
      encoding = encoding_name resolved.enc;
      urls = opts.peers;
      use_http2 = opts.use_http2;
    })
  ]

  -- `getTransport`, up to the call of the constructor; `tracer` says that there is one.
  unfoldable pub get_transport : Text → TransportOptions → Resolved → Bool → TransportError ⊎ Made
  unfolding make_transport
  get_transport ip opts resolved tracer =
      if is_nil opts.service_name
      then inl service_required
      else if is_nil opts.caller_name
      then inl caller_required
      else if tracer
      then inr (make_transport ip opts resolved)
      else inl tracer_required
