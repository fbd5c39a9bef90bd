-- ===== src/Tests/Main.antt =====
-- main.go: runs with a peer and flags that name one, and the theorems at them.
use yab.Prelude.{
  Bool, ◌++◌, true, false, List, [], ◌∷◌, Option, none, ◌⊎◌, inl, inr, ◌≡◌, refl, sym, ap, Text,
  codes, text_beq,
}
use yab.Prelude.Assoc.{Assoc}
use yab.Options.{Options, BenchmarkOptions, json, http}
use yab.Request.{headers, Request, prepare_request}
use yab.Resolve.{
  Resolved, new_json, resolve_protocol_encoding, new_serializer, detect_encoding, contains,
}
use yab.Transport.{load_transport_peers, make_transport, get_transport}
use yab.Main.{RequestHandler, run_with_options}
use yab.Main.Flags.{ParsedArgs, parsed, get_options, shebang_args}
use yab.Prelude.Int.{ℤ, pos}
use yab.Benchmark.{start_benchmark, should_make_initial_request}
use yab.Handler.{Fatal, handle_unary_request}
use yab.Main.Benchmarks.{Benchmarks, run_with_options-Benchmarks}
use yab.Main.Stages.{HasCaller, HasPeers, IsResolved, run_with_options-inr}
use yab.Main.Flags.Given.{SetsPeers, get_options-NamesPeers, given}
use yab.Tests.Template.{plain}

abbrev exists : Text → Bool
exists s = true

a_template_first :
    shebang_args exists (codes "t.yab" ∷ codes "echo" ∷ [])
    ≡ codes "-y" ∷ codes "t.yab" ∷ codes "echo" ∷ []
unfolding shebang_args text_beq
a_template_first = refl

-- A run with a JSON call of a service.
abbrev json_call : Options
json_call = record plain {
  t_opts = record plain.t_opts { service_name = codes "echo" };
  r_opts = record plain.r_opts { encoding = json; procedure = codes "say" };
}

abbrev is_host : Text → Bool
is_host s = true

abbrev not_uri : Text → Option (Text × Text)
not_uri s = none

abbrev no_list : Text → Text ⊎ List Text
no_list s = inl s

abbrev not_blocked : Text → Bool
not_blocked s = false

abbrev called_by_yab : Options
called_by_yab = record json_call {
  t_opts = record json_call.t_opts { caller_name = codes "yab-me" };
}

abbrev over_http : Resolved
over_http = record { protocol = http; enc = json }

abbrev json_handler : RequestHandler
json_handler = record {
  opts = called_by_yab;
  headers = [];
  resolved = over_http;
  serializer = new_json (codes "say");
  transport = make_transport is_host not_uri [] called_by_yab.t_opts over_http;
}

run_with_options-inr_example :
    (scheme : Text) × HasCaller (codes "me") called_by_yab
    × HasPeers is_host not_uri no_list scheme called_by_yab
    × IsResolved is_host not_uri no_list [] false scheme json_handler
unfolding run_with_options load_transport_peers get_transport new_serializer
    resolve_protocol_encoding detect_encoding contains text_beq
run_with_options-inr_example =
    run_with_options-inr is_host not_uri no_list [] false not_blocked (codes "me") none (headers [])
      json_call json_handler refl

abbrev five : BenchmarkOptions
five = record plain.b_opts { max_requests = pos 5 }

abbrev benchmark_handler : RequestHandler
benchmark_handler = record json_handler { opts = record called_by_yab { b_opts = five } }

abbrev no_cap : ℤ → ℤ → ℤ
no_cap rps duration = pos 0

abbrev as_it_is : Request → Text ⊎ Request
as_it_is r = inr r

abbrev not_called : Request → Option Fatal
not_called r = none

abbrev say : Text → Text ⊎ Request
say input = inr (record {
  target_service = [];
  method = codes "say";
  timeout = pos 0;
  headers = [];
  baggage = [];
  transport_headers = [];
  shard_key = [];
  body = input;
})

run_with_options-Benchmarks_example :
    benchmark_handler.opts.t_opts.caller_name ≡ codes "yab-" ++ codes "me"
unfolding run_with_options load_transport_peers get_transport new_serializer
    resolve_protocol_encoding detect_encoding contains text_beq handle_unary_request prepare_request
    start_benchmark should_make_initial_request Benchmarks
run_with_options-Benchmarks_example =
    run_with_options-Benchmarks is_host not_uri no_list [] false not_blocked (codes "me") none
      (headers []) (record json_call { b_opts = five }) benchmark_handler no_cap as_it_is not_called
      say (inr []) refl tt

abbrev one_peer : Options
one_peer = record plain { t_opts = record plain.t_opts { peers = codes "b:2" ∷ [] } }

-- The defaults name a list of peers.
abbrev with_list : Options
with_list = record plain { t_opts = record plain.t_opts { peers = []; peer_list = codes "hosts" } }

abbrev no_template : Text → Assoc Text Text → Options → Text ⊎ Options
no_template file args o = inl file

-- The flags of `one_peer`, and no other argument.
abbrev parse_one_peer : Options → ParsedArgs
parse_one_peer d = parsed [] (record d {
  t_opts = record d.t_opts { peers = codes "b:2" ∷ []; peer_list = given [] d.t_opts.peer_list };
})

abbrev after_flags : Options
after_flags = record with_list {
  t_opts = record with_list.t_opts { peers = codes "b:2" ∷ []; peer_list = [] };
}

abbrev remaining_of : ParsedArgs → Options → Options
remaining_of (parsed r o) d = o
remaining_of _ d = d

parse_one_peer-SetsPeers : SetsPeers one_peer parse_one_peer
parse_one_peer-SetsPeers d o remaining e = (
  ap (λ p. (remaining_of p o).t_opts.peers) (sym e),
  ap (λ p. (remaining_of p o).t_opts.peer_list) (sym e),
)

get_options-NamesPeers_example :
    (after_flags.t_opts.peers ≡ codes "b:2" ∷ []) × (after_flags.t_opts.peer_list ≡ [])
unfolding get_options
get_options-NamesPeers_example =
    get_options-NamesPeers no_template parse_one_peer true one_peer with_list after_flags
      parse_one_peer-SetsPeers (inl (refl, refl)) refl
