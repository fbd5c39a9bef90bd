-- ===== src/Main.antt =====
-- main.go: a run with the options of the command line, up to its handler.
--
-- The parsers of peers and URLs, the resolving of a peer list, the environment and the tracer of Jaeger
-- are parameters. `Fatalf` ends the program; `nil_headers` is the panic of getHeaders.
pub mod Flags
pub mod Stages
pub mod Benchmarks
use yab.Prelude.{
  ℕ, Bool, true, false, not, ◌&&◌, ◌||◌, List, [], ◌∷◌, ◌++◌, Option, none, some, ◌⊎◌, inl, inr,
  Text, codes, ◌==◌, text_comparable, if◌then◌else◌, is_nil,
}
use yab.Prelude.Assoc.{Assoc}
use yab.Options.{Options}
use yab.Request.{HeadersResult, headers, unreadable, unmarshal_failed, panicked}
use yab.Benchmark.{enabled}
use yab.Resolve.{
  Resolved, resolve_protocol_encoding, Choice, chosen, refused, Serializer, SerializerError,
  new_serializer,
}
use yab.Transport.{TransportError, Made, load_transport_peers, get_transport, get_hosts}

-- What `runWithOptions` ends with before its handler runs.
pub data Stopped : Type 0 where
  schemes_listed nil_headers : Stopped
  bad_request_input : Text → Stopped
  bad_headers : Text → Stopped
  blocked_caller : Text → Stopped
  caller_in_benchmark : Stopped
  bad_peers : TransportError → Stopped
  bad_input : SerializerError → Stopped
  no_sampling_without_jaeger no_jaeger_tracer baggage_without_jaeger : Stopped
  bad_options : TransportError → Stopped

-- `getTracer`: that of Jaeger, or the one that does nothing.
pub data Tracer : Type 0 where
  jaeger_tracer noop_tracer : Tracer

-- `started` says whether the tracer of Jaeger could be made.
unfoldable pub get_tracer : Bool → Options → Stopped ⊎ Tracer
get_tracer started o =
    if not o.t_opts.jaeger && o.t_opts.force_jaeger_sample
    then inl no_sampling_without_jaeger
    else if o.t_opts.jaeger && not o.t_opts.no_jaeger
    then (if started then inr jaeger_tracer else inl no_jaeger_tracer)
    else if not (is_nil o.r_opts.baggage)
    then inl baggage_without_jaeger
    else inr noop_tracer

-- `requestHandler`, without its output, logger and body
pub record RequestHandler : Type 0 where
  pub opts : Options
  pub headers : Assoc Text Text
  pub resolved : Resolved
  pub serializer : Serializer
  pub transport : Made

abbrev pub and_then : {A B : Type 0} → Stopped ⊎ A → (A → Stopped ⊎ B) → Stopped ⊎ B
and_then (inl e) f = inl e
and_then (inr a) f = f a

abbrev pub of_headers : HeadersResult → Stopped ⊎ Assoc Text Text
of_headers (headers hs) = inr hs
of_headers (unreadable e) = inl (bad_headers e)
of_headers (unmarshal_failed e) = inl (bad_headers e)
of_headers panicked = inl nil_headers

-- The caller's name of `runWithOptions`, with the blocked names and the user's.
unfoldable pub with_caller : (Text → Bool) → Text → Options → Stopped ⊎ Options
unfolding enabled
with_caller is_blocked user o =
    if not (is_nil o.t_opts.caller_name)
    then (if is_blocked o.t_opts.caller_name
        then inl (blocked_caller o.t_opts.caller_name)
        else if enabled o.b_opts
        then inl caller_in_benchmark
        else inr o)
    else inr (record o { t_opts = record o.t_opts { caller_name = codes "yab-" ++ user } })

abbrev pub with_peers : Options → TransportError ⊎ (Text × List Text) → Stopped ⊎ (Text × Options)
with_peers o (inl e) = inl (bad_peers e)
with_peers o (inr (scheme, peers)) =
    inr (scheme, record o { t_opts = record o.t_opts { peer_list = []; peers = peers } })

abbrev pub of_choice : Choice → Stopped ⊎ Serializer
of_choice (chosen s) = inr s
of_choice (refused e) = inl (bad_input e)

abbrev pub of_transport : TransportError ⊎ Made → Stopped ⊎ Made
of_transport (inl e) = inl (bad_options e)
of_transport (inr m) = inr m

module _ (is_host_port : Text → Bool) (parse_request_uri : Text → Option (Text × Text))
    (resolve : Text → Text ⊎ List Text) (ip : Text) (jaeger_started : Bool) where
  abbrev pub handler :
      Assoc Text Text → Options → Resolved → Serializer → Made → Stopped ⊎ RequestHandler
  handler hs o res s m =
      inr (record { opts = o; headers = hs; resolved = res; serializer = s; transport = m })

  abbrev pub with_tracer :
      Assoc Text Text → Options → Resolved → Serializer → Tracer → Stopped ⊎ RequestHandler
  with_tracer hs o res s tracer =
      and_then (of_transport (get_transport is_host_port parse_request_uri ip o.t_opts res true))
        (handler hs o res s)

  abbrev pub with_serializer :
      Assoc Text Text → Options → Resolved → Serializer → Stopped ⊎ RequestHandler
  with_serializer hs o res s = and_then (get_tracer jaeger_started o) (with_tracer hs o res s)

  -- `runWithOptions`, from the serializer on; there always is a tracer.
  unfoldable pub with_protocol : Assoc Text Text → Text × Options → Stopped ⊎ RequestHandler
  unfolding get_tracer
  with_protocol hs (scheme, o) =
      let res = resolve_protocol_encoding scheme o.r_opts in
      and_then (of_choice (new_serializer (get_hosts is_host_port parse_request_uri) o res))
        (with_serializer hs o res)

  abbrev pub with_name : Assoc Text Text → Options → Stopped ⊎ RequestHandler
  with_name hs o =
      and_then (with_peers o (load_transport_peers is_host_port parse_request_uri resolve o.t_opts))
        (with_protocol hs)

  abbrev pub with_headers :
      (Text → Bool) → Text → Options → Assoc Text Text → Stopped ⊎ RequestHandler
  with_headers is_blocked user o hs = and_then (with_caller is_blocked user o) (with_name hs)

  -- `runWithOptions`, up to its handler: `input_error` is that of opening the request's input.
  unfoldable pub run_with_options :
      (Text → Bool) → Text → Option Text → HeadersResult → Options → Stopped ⊎ RequestHandler
  unfolding with_caller with_protocol
  run_with_options is_blocked user (some e) hs o =
      if o.t_opts.peer_list == codes "?" then inl schemes_listed else inl (bad_request_input e)
  run_with_options is_blocked user none hs o =
      if o.t_opts.peer_list == codes "?"
      then inl schemes_listed
      else and_then (of_headers hs) (with_headers is_blocked user o)
