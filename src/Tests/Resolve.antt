-- ===== src/Tests/Resolve.antt =====
-- main.go and request.go: choices of protocol and encoding.
use yab.Prelude.{false, [], some, ◌≡◌, refl, codes, text_comparable, text_beq}
use yab.Prelude.Int.{pos}
use yab.Options.{Encoding, json, unspecified_encoding, tchannel, RequestOptions, unmarshal_text}
use yab.Resolve.{detect_encoding, resolve_protocol_encoding, contains}

abbrev plain_options : Encoding → RequestOptions
plain_options e = record {
  encoding = e;
  thrift_file = [];
  file_descriptor_set = [];
  procedure = codes "Echo::say";
  request_json = [];
  request_file = [];
  headers = [];
  headers_json = [];
  headers_file = [];
  baggage = [];
  health = false;
  timeout = pos 0;
  yaml_template = [];
  template_args = [];
  thrift_disable_envelopes = false;
  thrift_multiplexed = false;
  thrift_base64_response_envelope = false;
  alias_json = false;
  alias_raw = false;
  stream_interval = pos 0;
  delay_close_send_stream = pos 0;
}

read_upper : unmarshal_text (codes "JSON") ≡ some json
unfolding unmarshal_text text_beq
read_upper = refl

resolve_thrift :
    (resolve_protocol_encoding [] (plain_options unspecified_encoding)).protocol ≡ tchannel
unfolding resolve_protocol_encoding detect_encoding contains text_beq
resolve_thrift = refl
