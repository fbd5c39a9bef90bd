-- ===== src/Options.antt =====
-- options.go and encoding/encoding.go: the command line's options, encodings and their names.
--
-- An encoding is a Go string; `UnmarshalText` lets five values through. Durations are nanoseconds.
-- The fields that only pass a flag on to another field (`stringAlias`) are left out. The concurrency
-- of a benchmark is taken not to be negative.
use yab.Prelude.{
  ℕ, ◌+◌, Bool, ◌&&◌, List, Option, none, some, Text, codes, map, ◌==◌, text_comparable, leb,
  if◌then◌else◌,
}
use yab.Prelude.Assoc.{Assoc}
use yab.Prelude.Int.{ℤ}

pub data Encoding : Type 0 where
  unspecified_encoding json thrift raw protobuf : Encoding

pub data Protocol : Type 0 where
  unknown http tchannel grpc : Protocol

-- `encoding.MethodType`
pub data MethodType : Type 0 where
  unary client_stream server_stream bidirectional_stream : MethodType

-- `Encoding.String`
unfoldable pub encoding_name : Encoding → Text
encoding_name unspecified_encoding = codes ""
encoding_name json = codes "json"
encoding_name thrift = codes "thrift"
encoding_name raw = codes "raw"
encoding_name protobuf = codes "proto"

-- `strings.ToLower`, for texts in ASCII
unfoldable pub to_lower : ℕ → ℕ
to_lower c = if leb b'A' c && leb c b'Z' then c + 32 else c

-- `Encoding.UnmarshalText`
unfoldable pub unmarshal_text : Text → Option Encoding
unfolding to_lower
unmarshal_text text =
    let s = map to_lower text in
    if s == codes ""
    then some unspecified_encoding
    else if s == codes "json"
    then some json
    else if s == codes "thrift"
    then some thrift
    else if s == codes "raw"
    then some raw
    else if s == codes "proto"
    then some protobuf
    else none

pub record RequestOptions : Type 0 where
  pub encoding : Encoding
  pub thrift_file : Text
  pub file_descriptor_set : List Text
  pub procedure : Text
  pub request_json : Text
  pub request_file : Text
  pub headers : Assoc Text Text
  pub headers_json : Text
  pub headers_file : Text
  pub baggage : Assoc Text Text
  pub health : Bool
  pub timeout : ℤ
  pub yaml_template : Text
  pub template_args : Assoc Text Text
  pub thrift_disable_envelopes : Bool
  pub thrift_multiplexed : Bool
  pub thrift_base64_response_envelope : Bool
  pub alias_json : Bool
  pub alias_raw : Bool
  pub stream_interval : ℤ
  pub delay_close_send_stream : ℤ

pub record TransportOptions : Type 0 where
  pub service_name : Text
  pub peers : List Text
  pub peer_list : Text
  pub caller_name : Text
  pub routing_key : Text
  pub routing_delegate : Text
  pub shard_key : Text
  pub rpc_encoding : Text
  pub jaeger : Bool
  pub no_jaeger : Bool
  pub force_jaeger_sample : Bool
  pub transport_headers : Assoc Text Text
  pub http_method : Text
  pub use_http2 : Bool
  pub grpc_max_response_size : ℤ

pub record BenchmarkOptions : Type 0 where
  pub max_requests : ℤ
  pub max_duration : ℤ
  pub num_cpus : ℤ
  pub connections : ℤ
  pub warmup_requests : ℤ
  pub concurrency : ℕ
  pub rps : ℤ
  pub statsd_host_port : Text
  pub per_peer_stats : Bool
  pub format : Text

pub record Options : Type 0 where
  pub r_opts : RequestOptions
  pub t_opts : TransportOptions
  pub b_opts : BenchmarkOptions
  pub verbosity : List Bool
  pub display_version : Bool
  pub man_page : Bool

-- `setEncodingOptions`
unfoldable pub set_encoding_options : RequestOptions → RequestOptions
set_encoding_options r =
    let r' = if r.alias_json then record r { encoding = json } else r in
    if r.alias_raw then record r' { encoding = raw } else r'
