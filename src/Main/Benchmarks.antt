-- ===== src/Main/Benchmarks.antt =====
-- A run from its options to its benchmark: under whose name it calls.
use yab.Prelude.{
  inl, false, Bool, true, List, [], ◌∷◌, ◌++◌, Option, ◌⊎◌, inr, ◌≡◌, Text, codes, arith,
}
use yab.Prelude.Assoc.{Assoc}
use yab.Prelude.Int.{ℤ}
use yab.Options.{Options}
use yab.Request.{HeadersResult, Request}
use yab.Benchmark.{enabled}
use yab.Benchmark.Starts.{IsAsked-enabled}
use yab.Handler.{Fatal, RunEvent, called, streamed, benchmarked, Performed, handle_unary_request}
use yab.Handler.Runs.{
  Allowed, no_call, stopped, only_first, only_benchmark, first_and_benchmark, Succeeds,
  handle_unary_request-Allowed,
}
use yab.Main.{RequestHandler, run_with_options}
use yab.Main.Stages.{run_with_options-inr}

-- A benchmark is started.
unfoldable pub Benchmarks : List RunEvent → Type 0
Benchmarks [] = ⊥
Benchmarks (benchmarked n method messages ∷ events) = Unit
Benchmarks (called req ∷ events) = Benchmarks events
Benchmarks (streamed req ∷ events) = Benchmarks events

module _ (rps_max : ℤ → ℤ → ℤ) (apply_interceptor : Request → Text ⊎ Request) (opts : Options)
    (hs : Assoc Text Text) (initial : Request → Option Fatal) where
  Allowed-enabled :
      {run : Performed}
      → Allowed rps_max apply_interceptor opts hs called
          (Succeeds rps_max apply_interceptor opts hs initial)
          run
      → Benchmarks run.events
      → enabled opts.b_opts ≡ true
  unfolding Benchmarks
  Allowed-enabled (no_call e) b = absurd b
  Allowed-enabled (stopped e k p) b = absurd b
  Allowed-enabled (only_first k p l) b = absurd b
  Allowed-enabled (only_benchmark k p s) b = IsAsked-enabled opts.b_opts s.2
  Allowed-enabled (first_and_benchmark k p l s) b = IsAsked-enabled opts.b_opts s.2

named_by_yab :
    (user : Text) (o : Options)
    → (enabled o.b_opts ≡ false) ⊎ (o.t_opts.caller_name ≡ codes "yab-" ++ user)
    → enabled o.b_opts ≡ true
    → o.t_opts.caller_name ≡ codes "yab-" ++ user
named_by_yab user o (inl off) on = absurd (ground (arith, off, on))
named_by_yab user o (inr yab) on = yab

-- A unary run that starts a benchmark calls under the name of yab and the user, never under one that
-- the options give.
pub run_with_options-Benchmarks :
    (is_host_port : Text → Bool) (parse_request_uri : Text → Option (Text × Text))
    (resolve : Text → Text ⊎ List Text) (ip : Text) (jaeger_started : Bool)
    (is_blocked : Text → Bool) (user : Text) (input_error : Option Text) (hs : HeadersResult)
    (o : Options) (h : RequestHandler) (rps_max : ℤ → ℤ → ℤ)
    (apply_interceptor : Request → Text ⊎ Request) (initial : Request → Option Fatal)
    (request : Text → Text ⊎ Request) (input : Text ⊎ Text)
    → run_with_options is_host_port parse_request_uri resolve ip jaeger_started is_blocked user
        input_error hs o
      ≡ inr h
    → Benchmarks
        (handle_unary_request rps_max apply_interceptor h.opts h.headers initial request
          input).events
    → h.opts.t_opts.caller_name ≡ codes "yab-" ++ user
run_with_options-Benchmarks is_host_port parse_request_uri resolve ip jaeger_started is_blocked user
      input_error hs o h rps_max apply_interceptor initial request input made benchmarks =
    let facts =
      run_with_options-inr is_host_port parse_request_uri resolve ip jaeger_started is_blocked user
        input_error hs o h made in
    named_by_yab user h.opts facts.1.1 (
      Allowed-enabled rps_max apply_interceptor h.opts h.headers initial
        (handle_unary_request-Allowed rps_max apply_interceptor h.opts h.headers initial request
          input)
        benchmarks)
