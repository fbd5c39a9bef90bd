-- ===== src/Tchannel.antt =====
-- transport/tchannel.go: the options and the headers of a TChannel call, and how its response is read.
--
-- The channel is that of the TChannel library. `getenv` is `os.Getenv`; decoding headers from JSON or from
-- TChannel's own form is a parameter, as are the parts of a response.
pub mod Identity
use yab.Prelude.{
  Bool, true, false, not, List, [], ◌∷◌, ◌++◌, Option, none, some, ◌⊎◌, inl, inr, Text, codes, ◌==◌,
  text_comparable, if◌then◌else◌, is_nil,
}
use yab.Prelude.Assoc.{Assoc, lookup, insert}
use yab.Transport.{TchannelOptions}

abbrev pub raw_headers_key : Text
raw_headers_key = codes "_raw_"

abbrev pub yab_client_header : Text
yab_client_header = codes "x-yab-client"

abbrev pub yab_source_header : Text
yab_source_header = codes "x-yab-source"

abbrev pub yab_dest_header : Text
yab_dest_header = codes "x-yab-dest"

abbrev pub yab_env_header : Text
yab_env_header = codes "x-yab-env"

-- The names of formats.
abbrev pub json_format : Text
json_format = codes "json"

abbrev pub raw_format : Text
raw_format = codes "raw"

-- `tchannel.CallOptions`
pub record CallOptions : Type 0 where
  pub format : Text
  pub routing_delegate : Text
  pub routing_key : Text
  pub shard_key : Text

-- `tchan`, without its channel and tracer
pub record Tchan : Type 0 where
  pub call_options : CallOptions
  pub caller_name : Text
  pub target_service : Text

-- The value of a key that is there, or else another.
abbrev or_else : Option Text → Text → Text
or_else none d = d
or_else (some v) d = v

-- `applyRPCOptions`
unfoldable pub apply_rpc_options : CallOptions → TchannelOptions → CallOptions
apply_rpc_options call_opts opts = record call_opts {
  routing_delegate = opts.routing_delegate;
  routing_key = opts.routing_key;
  shard_key = opts.shard_key;
}

-- `applyTChanOptions`
unfoldable pub apply_tchan_options : CallOptions → Assoc Text Text → CallOptions
apply_tchan_options call_opts opts = record {
  format = or_else (lookup (codes "as") opts) call_opts.format;
  routing_delegate = or_else (lookup (codes "rd") opts) call_opts.routing_delegate;
  routing_key = or_else (lookup (codes "rk") opts) call_opts.routing_key;
  shard_key = or_else (lookup (codes "sk") opts) call_opts.shard_key;
}

-- `NewTChannel`, where the channel is made
unfoldable pub new_tchannel : TchannelOptions → Tchan
unfolding apply_rpc_options apply_tchan_options
new_tchannel opts = record {
  call_options =
      apply_tchan_options
        (apply_rpc_options
          (record {
            format = opts.encoding;
            routing_delegate = [];
            routing_key = [];
            shard_key = [];
          })
          opts)
        opts.transport_opts;
  caller_name = or_else (lookup (codes "cn") opts.transport_opts) opts.source_service;
  target_service = opts.target_service;
}

-- The headers behind the guard of `addYabHeaders`.
unfoldable pub stamped : (Text → Text) → Tchan → Assoc Text Text → Assoc Text Text
stamped getenv t headers =
    let new_headers =
      insert yab_dest_header t.target_service (insert yab_client_header (codes "true") headers) in
    let udeploy_svc = getenv (codes "UDEPLOY_SERVICE_NAME") in
    if is_nil udeploy_svc
    then insert yab_source_header t.caller_name new_headers
    else insert yab_source_header udeploy_svc
        (insert yab_env_header (getenv (codes "UBER_RUNTIME_ENVIRONMENT")) new_headers)

-- `addYabHeaders`
unfoldable pub add_yab_headers : (Text → Text) → Tchan → Assoc Text Text → Assoc Text Text
unfolding stamped
add_yab_headers getenv t headers = elim (lookup raw_headers_key headers) [
  | some v ↦ headers
  | none ↦ stamped getenv t headers
]

-- What is written for the headers.
pub data Written : Type 0 where
  as_json : Assoc Text Text → Written
  verbatim : Text → Written
  as_thrift : Assoc Text Text → Written

-- The first function of `writeArgs`.
unfoldable pub write_headers : Text → Assoc Text Text → Written
write_headers format headers =
    let raw_headers : Written = elim (lookup raw_headers_key headers) [
      | some v ↦ verbatim v
      | none ↦ as_thrift headers
    ] in
    if format == json_format
    then as_json headers
    else if format == raw_format
    then raw_headers
    else as_thrift headers

-- `Call`, up to the headers on the wire; `inject` adds the trace.
unfoldable pub call_headers :
    (Text → Text) → (Assoc Text Text → Assoc Text Text) → Tchan → Assoc Text Text → Written
unfolding add_yab_headers write_headers
call_headers getenv inject t headers =
    write_headers t.call_options.format (inject (add_yab_headers getenv t headers))

-- The first function of `readResponse`.
module _ (decode_json read_thrift : Text → Text ⊎ Assoc Text Text) where
  unfoldable pub read_headers : Text → Text → Text ⊎ Assoc Text Text
  read_headers format header_bytes =
      let thrift_headers : Text ⊎ Assoc Text Text = elim (read_thrift header_bytes) [
        | inr headers ↦ inr headers
        | inl e ↦ if format == raw_format then inr ((raw_headers_key, header_bytes) ∷ []) else inl e
      ] in
      if is_nil header_bytes
      then inr []
      else if format == json_format
      then decode_json header_bytes
      else thrift_headers
