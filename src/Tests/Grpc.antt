-- ===== src/Tests/Grpc.antt =====
-- transport/grpc.go: a call that is answered, and the theorem at it.
use yab.Prelude.{true, [], ◌∷◌, none, some, ◌⊎◌, inr, ◌≡◌, ◌↔◌, refl, Text, codes, is_nil, false}
use yab.Prelude.Assoc.{Assoc}
use yab.Prelude.Int.{ℤ, pos}
use yab.Transport.{GrpcOptions}
use yab.Request.{Request}
use yab.Grpc.{GrpcTransport, YarpcRequest, YarpcResponse, response_with, new_grpc_transport, call}
use yab.Grpc.Calls.{IsAnswered, request_of, call-IsAnswered}

abbrev address : GrpcOptions
address = record {
  addresses = codes "a:1" ∷ [];
  caller = codes "me";
  encoding = codes "proto";
  routing_key = [];
  routing_delegate = [];
  max_response_size = pos 0;
}

abbrev open_transport : GrpcTransport
open_transport = record {
  identifiers = codes "a:1" ∷ [];
  caller = codes "me";
  encoding = codes "proto";
  routing_key = [];
  routing_delegate = [];
  max_recv_msg_size = none;
}

abbrev ping : Request
ping = record {
  target_service = codes "echo";
  method = codes "echo.Echo::Say";
  timeout = pos 0;
  headers = [];
  baggage = [];
  transport_headers = [];
  shard_key = [];
  body = codes "x";
}

abbrev pong : YarpcResponse
pong = record { headers = []; body = some (inr (codes "y"), none) }

abbrev answers : YarpcRequest → ℤ → Text ⊎ YarpcResponse
answers req left = inr pong

abbrev same_address : Text → Text
same_address s = s

abbrev same_headers : Assoc Text Text → Assoc Text Text
same_headers m = m

call-IsAnswered_example :
    (is_nil (codes "me") ≡ false)
    × ((call same_headers answers open_transport (some (pos 5)) ping
          ≡ inr (response_with [] (codes "y")))
        ↔ ((is_nil (codes "echo") ≡ false)
            × (is_nil (codes "echo.Echo::Say") ≡ false)
            × IsAnswered same_headers answers
                (request_of same_headers address ping)
                (some (pos 5))
                ping
                (response_with [] (codes "y"))))
unfolding new_grpc_transport
call-IsAnswered_example =
    call-IsAnswered same_headers answers same_address address true none none open_transport
      (some (pos 5)) ping (response_with [] (codes "y")) refl
