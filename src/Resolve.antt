-- ===== src/Resolve.antt =====
-- main.go, request.go and encoding/encoding.go: which protocol, encoding and serializer a request gets.
pub mod Laws
use yab.Prelude.{
  ℕ, Bool, true, false, not, ◌&&◌, ◌||◌, List, [], ◌∷◌, Option, none, some, Text, codes, ◌==◌,
  nat_comparable, text_comparable, if◌then◌else◌, is_nil,
}
use yab.Options.{
  Encoding, unspecified_encoding, json, thrift, raw, protobuf, Protocol, unknown, http, tchannel,
  grpc, RequestOptions, TransportOptions, Options,
}

-- `strings.HasPrefix` and `strings.Contains`
unfoldable pub has_prefix : Text → Text → Bool
has_prefix s [] = true
has_prefix [] (p ∷ ps) = false
has_prefix (c ∷ cs) (p ∷ ps) = c == p && has_prefix cs ps

unfoldable pub contains : Text → Text → Bool
unfolding has_prefix
contains [] sub = has_prefix [] sub
contains (c ∷ cs) sub = has_prefix (c ∷ cs) sub || contains cs sub

-- `RequestOptions.detectEncoding`
unfoldable pub detect_encoding : RequestOptions → Encoding
detect_encoding opts = elim opts.encoding [
  | unspecified_encoding ↦
      if contains opts.procedure (codes "::") || not (is_nil opts.thrift_file)
      then thrift
      else if contains opts.procedure (codes "/") || not (is_nil opts.file_descriptor_set)
      then protobuf
      else unspecified_encoding
  | given ↦ given
]

-- `resolvedProtocolEncoding`
pub record Resolved : Type 0 where
  pub protocol : Protocol
  pub enc : Encoding

abbrev resolved : Protocol → Encoding → Resolved
resolved p e = record { protocol = p; enc = e }

abbrev or_default : Encoding → Encoding → Encoding
or_default unspecified_encoding d = d
or_default e d = e

-- The second switch of `resolveProtocolEncoding`, where the peers name no protocol.
unfoldable pub resolve_by_encoding : Encoding → Bool → Resolved
resolve_by_encoding thrift health = resolved tchannel thrift
resolve_by_encoding protobuf health = resolved grpc protobuf
resolve_by_encoding json health = resolved http json
resolve_by_encoding raw health = resolved http raw
resolve_by_encoding unspecified_encoding health =
    if health then resolved tchannel thrift else resolved unknown unspecified_encoding

-- `resolveProtocolEncoding`
unfoldable pub resolve_protocol_encoding : Text → RequestOptions → Resolved
unfolding resolve_by_encoding
resolve_protocol_encoding scheme opts =
    let enc = detect_encoding opts in
    if scheme == codes "tchannel"
    then resolved tchannel (or_default enc thrift)
    else if scheme == codes "grpc"
    then resolved grpc (or_default enc protobuf)
    else if scheme == codes "http" || scheme == codes "https"
    then resolved http (or_default enc json)
    else resolve_by_encoding enc opts.health

-- `encoding.ThriftParams`
pub record ThriftParams : Type 0 where
  pub file : Text
  pub method : Text
  pub multiplexed : Bool
  pub envelope : Bool
  pub base64_response_envelope : Bool

-- Where Protobuf descriptors come from: `newProtoDescriptorProvider`, with the files, or with the
-- caller, service, routing delegate and routing key that are sent to the peers.
pub data DescriptorProvider : Type 0 where
  descriptor_set_bins : List Text → DescriptorProvider
  reflection : (caller service routing_delegate routing_key : Text) → List Text → DescriptorProvider

-- The serializer that `NewSerializer` builds, by the constructor it calls.
pub data Serializer : Type 0 where
  thrift_health : Serializer
  proto_health : Text → Serializer
  new_thrift : ThriftParams → Serializer
  new_protobuf : Text → DescriptorProvider → Serializer
  new_json : Text → Serializer
  new_raw : Text → Serializer

pub data SerializerError : Type 0 where
  health_and_procedure : SerializerError
  health_unsupported : Encoding → SerializerError
  missing_procedure : SerializerError
  unrecognized_encoding : SerializerError

pub data Choice : Type 0 where
  chosen : Serializer → Choice
  refused : SerializerError → Choice

-- `Encoding.GetHealth`
unfoldable pub get_health : Encoding → Text → Choice
get_health thrift service = chosen thrift_health
get_health protobuf service = chosen (proto_health service)
get_health e service = refused (health_unsupported e)

module _ (get_hosts : List Text → List Text) where
  unfoldable pub new_proto_descriptor_provider :
      RequestOptions → TransportOptions → DescriptorProvider
  new_proto_descriptor_provider r t =
      if not (is_nil r.file_descriptor_set)
      then descriptor_set_bins r.file_descriptor_set
      else reflection t.caller_name t.service_name t.routing_delegate t.routing_key
          (get_hosts t.peers)

  abbrev thrift_params : RequestOptions → Protocol → ThriftParams
  thrift_params r p = record {
    file = r.thrift_file;
    method = r.procedure;
    multiplexed = r.thrift_multiplexed;
    envelope = elim p [ tchannel ↦ false | grpc ↦ false | _ ↦ not r.thrift_disable_envelopes ];
    base64_response_envelope = r.thrift_base64_response_envelope;
  }

  -- `NewSerializer`, up to the errors of the constructors that it calls at its end.
  unfoldable pub new_serializer : Options → Resolved → Choice
  unfolding get_health new_proto_descriptor_provider
  new_serializer opts res =
      let r = opts.r_opts in
      if r.health
      then (if not (is_nil r.procedure)
          then refused health_and_procedure
          else get_health res.enc opts.t_opts.service_name)
      else elim res.enc [
        | thrift ↦ chosen (new_thrift (thrift_params r res.protocol))
        | protobuf ↦ chosen (new_protobuf r.procedure (new_proto_descriptor_provider r opts.t_opts))
        | json ↦
            if is_nil r.procedure then refused missing_procedure else chosen (new_json r.procedure)
        | raw ↦
            if is_nil r.procedure then refused missing_procedure else chosen (new_raw r.procedure)
        | unspecified_encoding ↦
            if is_nil r.procedure then refused missing_procedure else refused unrecognized_encoding
      ]
