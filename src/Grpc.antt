-- ===== src/Grpc.antt =====
-- transport/grpc.go: the gRPC transport of yab, over YARPC's.
--
-- YARPC's transport and outbound are parameters: starting each may fail, and `outbound` answers a
-- request that has some time left.
pub mod Calls
use yab.Prelude.{
  ℕ, suc, Bool, true, false, not, List, [], ◌∷◌, Option, none, some, ◌⊎◌, inl, inr, Text,
  if◌then◌else◌, is_nil, map,
}
use yab.Prelude.Assoc.{Assoc}
use yab.Prelude.Int.{ℤ, pos, ltb_ℤ}
use yab.Transport.{GrpcOptions}
use yab.Request.{Request, one_second}

pub data GrpcError : Type 0 where
  no_addresses no_tracer no_caller no_service no_procedure : GrpcError
  failed : Text → GrpcError

-- `grpcTransport`, with the identifiers its outbound is bound to and the limit it was given, if any.
pub record GrpcTransport : Type 0 where
  pub identifiers : List Text
  pub caller : Text
  pub encoding : Text
  pub routing_key : Text
  pub routing_delegate : Text
  pub max_recv_msg_size : Option ℤ

-- `stopped`: the transport was started and stopped again.
pub data Opened : Type 0 where
  refused : GrpcError → Opened
  stopped : Text → Opened
  opened : GrpcTransport → Opened

module _ (identify : Text → Text) where
  abbrev kept : GrpcOptions → GrpcTransport
  kept o = record {
    identifiers = map identify o.addresses;
    caller = o.caller;
    encoding = o.encoding;
    routing_key = o.routing_key;
    routing_delegate = o.routing_delegate;
    max_recv_msg_size =
        if ltb_ℤ (pos 0) o.max_response_size then some o.max_response_size else none;
  }

  -- Starting the transport and then the outbound, with the error of each.
  abbrev pub started : GrpcOptions → Option Text → Option Text → Opened
  started o (some e) second = refused (failed e)
  started o none (some e) = stopped e
  started o none none = opened (kept o)

  -- `newGRPC`; `tracer` says that there is one.
  unfoldable pub new_grpc_transport : GrpcOptions → Bool → Option Text → Option Text → Opened
  new_grpc_transport o tracer first second =
      if is_nil o.addresses
      then refused no_addresses
      else if not tracer
      then refused no_tracer
      else if is_nil o.caller
      then refused no_caller
      else started o first second

-- `transport.Request` of YARPC, and its `RequestMeta`, which has no body.
pub record YarpcRequest : Type 0 where
  pub caller : Text
  pub service : Text
  pub encoding : Text
  pub procedure : Text
  pub headers : Assoc Text Text
  pub shard_key : Text
  pub routing_key : Text
  pub routing_delegate : Text
  pub body : Option Text

-- `headers_from_map` is YARPC's, which canonicalizes the keys.
module _ (headers_from_map : Assoc Text Text → Assoc Text Text) where
  abbrev meta : GrpcTransport → Request → Option Text → YarpcRequest
  meta t r body = record {
    caller = t.caller;
    service = r.target_service;
    encoding = t.encoding;
    procedure = r.method;
    headers = headers_from_map r.headers;
    shard_key = r.shard_key;
    routing_key = t.routing_key;
    routing_delegate = t.routing_delegate;
    body = body;
  }

  -- `requestToYARPCRequest`
  unfoldable pub request_to_yarpc_request : GrpcTransport → Request → YarpcRequest
  request_to_yarpc_request t r = meta t r (some r.body)

  -- `requestToYARPCStreamRequest`, for a transport and a request that are not nil
  unfoldable pub request_to_yarpc_stream_request : GrpcTransport → Request → YarpcRequest
  request_to_yarpc_stream_request t r = meta t r none

-- `requestContextWithTimeout`: the time a context has left, given the one it has, if it has a deadline.
unfoldable pub request_context_with_timeout : Option ℤ → Request → ℤ
request_context_with_timeout (some left) r = left
request_context_with_timeout none r = if ltb_ℤ (pos 0) r.timeout then r.timeout else one_second

-- A response of YARPC: its headers, and the body if it has one, with what reading it gives and the
-- error of closing it.
pub record YarpcResponse : Type 0 where
  pub headers : Assoc Text Text
  pub body : Option ((Text ⊎ Text) × Option Text)

-- `transport.Response`, as this transport fills it
pub record GrpcResponse : Type 0 where
  pub headers : Assoc Text Text
  pub body : Text

abbrev pub response_with : Assoc Text Text → Text → GrpcResponse
response_with hs b = record { headers = hs; body = b }

abbrev pub read_body :
    Assoc Text Text → Option ((Text ⊎ Text) × Option Text) → GrpcError ⊎ GrpcResponse
read_body hs none = inr (response_with hs [])
read_body hs (some (inl e, close)) = inl (failed e)
read_body hs (some (inr b, some e)) = inl (failed e)
read_body hs (some (inr b, none)) = inr (response_with hs b)

-- `yarpcResponseToResponse`
unfoldable pub yarpc_response_to_response : YarpcResponse → GrpcError ⊎ GrpcResponse
yarpc_response_to_response r = read_body r.headers r.body

module _ (headers_from_map : Assoc Text Text → Assoc Text Text) where
  -- What `Call` sends, and the time it has, or why nothing is sent.
  unfoldable pub call_sends : GrpcTransport → Option ℤ → Request → GrpcError ⊎ (YarpcRequest × ℤ)
  unfolding request_to_yarpc_request request_context_with_timeout
  call_sends t deadline r =
      if is_nil r.target_service
      then inl no_service
      else if is_nil r.method
      then inl no_procedure
      else inr
          (request_to_yarpc_request headers_from_map t r, request_context_with_timeout deadline r)

  module _ (outbound : YarpcRequest → ℤ → Text ⊎ YarpcResponse) where
    abbrev pub taken : Text ⊎ YarpcResponse → GrpcError ⊎ GrpcResponse
    taken (inl e) = inl (failed e)
    taken (inr r) = yarpc_response_to_response r

    abbrev pub answer : GrpcError ⊎ (YarpcRequest × ℤ) → GrpcError ⊎ GrpcResponse
    answer (inl e) = inl e
    answer (inr (req, timeout)) = taken (outbound req timeout)

    -- `Call`
    unfoldable pub call : GrpcTransport → Option ℤ → Request → GrpcError ⊎ GrpcResponse
    unfolding call_sends yarpc_response_to_response
    call t deadline r = answer (call_sends t deadline r)
