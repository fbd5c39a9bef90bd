-- ===== src/Tests/Http.antt =====
-- transport/http.go: the headers of a request that is sent.
use yab.Prelude.{[], ◌∷◌, none, ◌≡◌, refl, false, codes}
use yab.Transport.{HttpOptions}
use yab.Request.{Request, one_second}
use yab.Thrift.Decimal.{itoa, digits}
use yab.Http.{new_req, sent}

abbrev echo_options : HttpOptions
echo_options = record {
  http_method = codes "POST";
  source_service = codes "me";
  target_service = codes "echo";
  routing_delegate = [];
  routing_key = [];
  shard_key = codes "s";
  encoding = codes "json";
  urls = codes "http://a" ∷ [];
  use_http2 = false;
}

abbrev say : Request
say = record {
  target_service = codes "echo";
  method = codes "say";
  timeout = one_second;
  headers = (codes "k", codes "v") ∷ [];
  baggage = [];
  transport_headers = (codes "T", codes "t") ∷ [];
  shard_key = [];
  body = codes "{}";
}

say_is_sent :
    new_req (λ m url. none) (λ m. m) echo_options say 0 one_second
    ≡ sent
        (codes "POST")
        (codes "http://a")
        ((codes "RPC-Service", codes "echo")
          ∷ (codes "RPC-Procedure", codes "say")
          ∷ (codes "RPC-Caller", codes "me")
          ∷ (codes "RPC-Encoding", codes "json")
          ∷ (codes "RPC-Shard-Key", codes "s")
          ∷ (codes "Context-TTL-MS", codes "1000")
          ∷ (codes "Rpc-Header-k", codes "v")
          ∷ (codes "T", codes "t")
          ∷ [])
        (codes "{}")
unfolding new_req itoa digits
say_is_sent = refl
