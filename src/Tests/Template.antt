-- ===== src/Tests/Template.antt =====
-- template.go: a template with a peer list, and the theorems at it.
use yab.Prelude.{Text, ◌⊎◌, inr, none, [], ◌∷◌, false, codes, text_comparable}
use yab.Prelude.Int.{pos}
use yab.Options.{unspecified_encoding, TransportOptions, Options}
use yab.Template.{Template}

abbrev pub same : Text → Text ⊎ Text
same s = inr s

abbrev pub by_list : Template Text
by_list = record {
  peers = [];
  peer = [];
  peer_list = codes "hosts.yaml";
  caller = [];
  service = codes "echo";
  thrift = [];
  procedure = codes "Echo::say";
  disable_thrift_envelope = none;
  shard_key = [];
  routing_key = [];
  routing_delegate = [];
  headers = [];
  baggage = [];
  jaeger = false;
  force_jaeger_sample = false;
  request = none;
  requests = none;
  timeout = pos 0;
}

abbrev plain_transport : TransportOptions
plain_transport = record {
  service_name = [];
  peers = codes "127.0.0.1:80" ∷ [];
  peer_list = [];
  caller_name = [];
  routing_key = [];
  routing_delegate = [];
  shard_key = [];
  rpc_encoding = [];
  jaeger = false;
  no_jaeger = false;
  force_jaeger_sample = false;
  transport_headers = [];
  http_method = [];
  use_http2 = false;
  grpc_max_response_size = pos 0;
}

abbrev pub plain : Options
plain = record {
  r_opts = record {
    encoding = unspecified_encoding;
    thrift_file = [];
    file_descriptor_set = [];
    procedure = [];
    request_json = [];
    request_file = [];
    headers = [];
    headers_json = [];
    headers_file = [];
    baggage = [];
    health = false;
    timeout = pos 0;
    yaml_template = [];
    template_args = [];
    thrift_disable_envelopes = false;
    thrift_multiplexed = false;
    thrift_base64_response_envelope = false;
    alias_json = false;
    alias_raw = false;
    stream_interval = pos 0;
    delay_close_send_stream = pos 0;
  };
  t_opts = plain_transport;
  b_opts = record {
    max_requests = pos 0;
    max_duration = pos 0;
    num_cpus = pos 0;
    connections = pos 0;
    warmup_requests = pos 0;
    concurrency = 1;
    rps = pos 0;
    statsd_host_port = [];
    per_peer_stats = false;
    format = [];
  };
  verbosity = [];
  display_version = false;
  man_page = false;
}
