-- ===== src/Tests/Handler.antt =====
-- main.go and handler.go: the first call and a benchmark of five requests, and the theorems at them.
use yab.Prelude.{List, [], ◌∷◌, Option, none, some, ◌⊎◌, inl, inr, refl, Text, codes}
use yab.Prelude.Int.{ℤ, pos}
use yab.Options.{Options}
use yab.Request.{Request, one_second, prepare_request}
use yab.Benchmark.{start_benchmark, should_make_initial_request}
use yab.Stream.{Fault, at_end}
use yab.Stream.Call.{StreamCallError}
use yab.Stream.Initializer.{StreamIoInitializer, all_requests}
use yab.Handler.{
  Fatal, called, streamed, benchmarked, run_of, handle_unary_request, handle_stream_request,
}
use yab.Handler.Runs.{
  Allowed, Succeeds, StreamSucceeds, handle_unary_request-Allowed, handle_stream_request-Allowed,
}
use yab.Tests.Template.{plain}

abbrev five_requests : Options
five_requests = record plain {
  b_opts = record plain.b_opts { max_requests = pos 5; warmup_requests = pos 1 };
}

abbrev say : Request
say = record {
  target_service = [];
  method = codes "say";
  timeout = one_second;
  headers = [];
  baggage = [];
  transport_headers = [];
  shard_key = [];
  body = [];
}

abbrev as_it_is : Request → Text ⊎ Request
as_it_is r = inr r

abbrev no_cap : ℤ → ℤ → ℤ
no_cap rps duration = pos 0

abbrev with_say : Text → Text ⊎ Request
with_say input = inr say

abbrev fine : Request → Option Fatal
fine r = none

handle_unary_request-Allowed_example :
    Allowed no_cap as_it_is five_requests [] called
      (Succeeds no_cap as_it_is five_requests [] fine)
      (handle_unary_request no_cap as_it_is five_requests [] fine with_say (inr (codes "{}")))
handle_unary_request-Allowed_example =
    handle_unary_request-Allowed no_cap as_it_is five_requests [] fine with_say (inr (codes "{}"))

abbrev next : List Text → List Text × (Fault ⊎ Text)
next [] = ([], inl at_end)
next (m ∷ ms) = (ms, inr m)

abbrev nothing_read :
    Request
    → StreamIoInitializer (List Text)
    → Option (StreamIoInitializer (List Text) × Option StreamCallError)
nothing_read r s = some (s, none)

handle_stream_request-Allowed_example :
    Allowed no_cap as_it_is five_requests [] streamed
      (StreamSucceeds no_cap as_it_is five_requests [] next nothing_read 3)
      (run_of (streamed say ∷ benchmarked (pos 5) (codes "say") (codes "a" ∷ []) ∷ []) none)
unfolding handle_stream_request prepare_request start_benchmark should_make_initial_request
    all_requests
handle_stream_request-Allowed_example =
    handle_stream_request-Allowed no_cap as_it_is five_requests [] next nothing_read 3
      (some (inr (say, codes "a" ∷ [])))
      (run_of (streamed say ∷ benchmarked (pos 5) (codes "say") (codes "a" ∷ []) ∷ []) none) refl
