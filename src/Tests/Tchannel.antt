-- ===== src/Tests/Tchannel.antt =====
-- transport/tchannel.go: the headers of calls, and the theorem at them.
use yab.Prelude.{false, [], ◌∷◌, ◌≡◌, refl, Text, codes, text_beq, text_comparable}
use yab.Prelude.Assoc.{Assoc, lookup}
use yab.Resolve.{has_prefix}
use yab.Tchannel.{Tchan, as_json, call_headers, raw_headers_key}
use yab.Tchannel.Identity.{IsSent, call_headers-IsSent}

abbrev json_call : Tchan
json_call = record {
  call_options = record {
    format = codes "json";
    routing_delegate = [];
    routing_key = [];
    shard_key = [];
  };
  caller_name = codes "me";
  target_service = codes "echo";
}

abbrev one_header : Assoc Text Text
one_header = (codes "k", codes "v") ∷ []

key_k : has_prefix (codes "k") (codes "$") ≡ false
unfolding has_prefix
key_k = refl

call_headers-IsSent_example :
    IsSent
      (λ name. [])
      (λ m. m)
      json_call
      one_header
      (codes "k")
      (lookup raw_headers_key one_header)
      (call_headers (λ name. []) (λ m. m) json_call one_header)
call_headers-IsSent_example =
    call_headers-IsSent (λ name. []) (λ m. m) json_call one_header (codes "k") (λ m k h. refl) key_k

-- With the raw key a call in JSON says nothing about who makes it.
raw_key_in_json :
    call_headers (λ name. []) (λ m. m) json_call ((raw_headers_key, codes "x") ∷ [])
    ≡ as_json ((raw_headers_key, codes "x") ∷ [])
unfolding call_headers lookup text_beq
raw_key_in_json = refl
