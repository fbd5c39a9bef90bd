-- ===== src/Handler.antt =====
-- main.go and handler.go: the first call of a run and what is printed for it, and how a handler goes
-- from the input to the calls and the benchmark.
--
-- `Fatalf` of the output ends the program, so a fatal message ends the run here. Reading the input, the
-- serializer, the interceptors, the calls, the JSON encoder and the product of rate and duration are
-- parameters.
pub mod Printed
pub mod Runs
use yab.Prelude.{
  ℕ, Bool, true, false, not, List, [], ◌∷◌, ◌++◌, Option, none, some, ◌⊎◌, inl, inr, Text, codes,
  if◌then◌else◌, is_nil, text_comparable,
}
use yab.Prelude.Assoc.{Assoc, insert}
use yab.Prelude.Int.{ℤ}
use yab.Options.{MethodType, unary, Options}
use yab.Request.{Request, prepare_request}
use yab.Benchmark.{
  OptionsError, Start, invalid, disabled, run_with, should_make_initial_request, start_benchmark,
}
use yab.Stream.{Error, Fault}
use yab.Stream.Call.{StreamCallError}
use yab.Stream.Initializer.{StreamIoInitializer, new_stream_io_initializer, all_requests}

-- `Fatalf`, by what it says.
pub data Fatal : Type 0 where
  reading_input serializing_input making_request : Text → Fatal
  no_stream_serializer : Fatal
  stream_request_failed : Text → Fatal
  stream_failed : StreamCallError → Fatal
  stream_input : Error → Fatal
  bad_benchmark : OptionsError → Fatal
  details_failed details_unprintable : Text → Fatal
  call_failed : (error : Text) (details : Option Text) → Fatal
  bad_response unprintable : Text → Fatal

-- A value of the map that is printed for a response, of bodies `B` and transport fields `F`.
pub data Printable (B F : Type 0) : Type 0 where
  body_value : B → Printable B F
  headers_value : Assoc Text Text → Printable B F
  field_value : F → Printable B F

-- `transport.Response`
pub record Response (F : Type 0) : Type 0 where
  pub headers : Assoc Text Text
  pub body : Text
  pub transport_fields : Assoc Text F

module _ {B F : Type 0} where
  unfoldable pub add_fields : Assoc Text F → Assoc Text (Printable B F) → Assoc Text (Printable B F)
  add_fields [] m = m
  add_fields ((k, v) ∷ fields) m = add_fields fields (insert k (field_value v) m)

  -- The body, and the headers if there are any.
  abbrev pub own_values : B → Response F → Assoc Text (Printable B F)
  own_values b res =
      let body = (codes "body", body_value b) ∷ [] in
      if is_nil res.headers then body else insert (codes "headers") (headers_value res.headers) body

  -- `outSerialized` of `makeInitialRequest`
  unfoldable pub out_serialized : B → Response F → Assoc Text (Printable B F)
  unfolding add_fields
  out_serialized b res = add_fields res.transport_fields (own_values b res)

-- The details of a failed call, where the serializer knows them: an error, or how many there are and
-- their JSON.
pub data Details : Type 0 where
  no_deserializer : Details
  not_read : Text → Details
  read : List Text → Details

module _ {B F : Type 0} (marshal : Assoc Text (Printable B F) → Text ⊎ Text)
    (marshal_details : List Text → Text ⊎ Text) (response : Response F → Text ⊎ B) where
  abbrev pub with_details : Text → Text ⊎ Text → Fatal
  with_details e (inl d) = details_unprintable d
  with_details e (inr bs) = call_failed e (some bs)

  abbrev pub failed_call : Text → Details → Fatal
  failed_call e no_deserializer = call_failed e none
  failed_call e (not_read d) = details_failed d
  failed_call e (read []) = call_failed e none
  failed_call e (read (d ∷ ds)) = with_details e (marshal_details (d ∷ ds))

  abbrev pub printed_or : Text ⊎ Text → Fatal ⊎ Text
  printed_or (inl e) = inl (unprintable e)
  printed_or (inr bs) = inr bs

  abbrev pub printed : Response F → Text ⊎ B → Fatal ⊎ Text
  printed res (inl e) = inl (bad_response e)
  printed res (inr b) = printed_or (marshal (out_serialized b res))

  -- `makeInitialRequest`: what is printed. A call that failed comes with the details of its error.
  unfoldable pub make_initial_request : (Text × Details) ⊎ Response F → Fatal ⊎ Text
  unfolding out_serialized
  make_initial_request (inl (e, details)) = inl (failed_call e details)
  make_initial_request (inr res) = printed res (response res)

-- What a run does, in order; `benchmarked`: a benchmark starts to warm up its connections.
pub data RunEvent : Type 0 where
  called : Request → RunEvent
  streamed : Request → RunEvent
  benchmarked : (max_requests : ℤ) (method : Text) (messages : List Text) → RunEvent

pub record Performed : Type 0 where
  pub events : List RunEvent
  pub fatal : Option Fatal

abbrev pub run_of : List RunEvent → Option Fatal → Performed
run_of events fatal = record { events = events; fatal = fatal }

module _ (rps_max : ℤ → ℤ → ℤ) (apply_interceptor : Request → Text ⊎ Request) (opts : Options)
    (hs : Assoc Text Text) where
  -- `runBenchmark` up to its warm-up, behind the events before it.
  abbrev pub started : List RunEvent → Request → List Text → Start → Performed
  started events req messages (invalid e) = run_of events (some (bad_benchmark e))
  started events req messages disabled = run_of events none
  started events req messages (run_with n) =
      run_of (events ++ benchmarked n req.method messages ∷ []) none

  abbrev pub bench : List RunEvent → Request → List Text → Performed
  bench events req messages = started events req messages (start_benchmark rps_max opts.b_opts)

  -- The unary part, with the fatal message of the first call, if there is one.
  module _ (initial : Request → Option Fatal) where
    abbrev pub after_first : Request → Option Fatal → Performed
    after_first req (some e) = run_of (called req ∷ []) (some e)
    after_first req none = bench (called req ∷ []) req []

    abbrev pub unary_prepared : Text ⊎ Request → Performed
    unary_prepared (inl e) = run_of [] (some (making_request e))
    unary_prepared (inr req) =
        if should_make_initial_request opts.b_opts
        then after_first req (initial req)
        else bench [] req []

    abbrev pub unary_serialized : Text ⊎ Request → Performed
    unary_serialized (inl e) = run_of [] (some (serializing_input e))
    unary_serialized (inr req) = unary_prepared (prepare_request apply_interceptor req hs opts)

    abbrev pub unary_read : (Text → Text ⊎ Request) → Text ⊎ Text → Performed
    unary_read request (inl e) = run_of [] (some (reading_input e))
    unary_read request (inr input) = unary_serialized (request input)

    -- `handleUnaryRequest`, given what reading the input gives
    unfoldable pub handle_unary_request : (Text → Text ⊎ Request) → Text ⊎ Text → Performed
    handle_unary_request request input = unary_read request input

  -- The streaming part, over a reader `D` of messages. `none` is a call that has not returned, or fuel
  -- that was used up.
  module _ {D : Type 0} (next_body : D → D × (Fault ⊎ Text))
      (initial : Request
        → StreamIoInitializer D
        → Option (StreamIoInitializer D × Option StreamCallError))
      (fuel : ℕ) where
    abbrev pub with_messages :
        List RunEvent
        → Request
        → Option (StreamIoInitializer D × (Error ⊎ List Text))
        → Option Performed
    with_messages events req none = none
    with_messages events req (some (s, inl e)) = some (run_of events (some (stream_input e)))
    with_messages events req (some (s, inr messages)) = some (bench events req messages)

    abbrev pub first_streamed :
        Request → Option (StreamIoInitializer D × Option StreamCallError) → Option Performed
    first_streamed req none = none
    first_streamed req (some (s, some e)) =
        some (run_of (streamed req ∷ []) (some (stream_failed e)))
    first_streamed req (some (s, none)) =
        with_messages (streamed req ∷ []) req (all_requests next_body fuel s)

    abbrev pub stream_prepared : D → Text ⊎ Request → Option Performed
    stream_prepared d (inl e) = some (run_of [] (some (making_request e)))
    stream_prepared d (inr req) =
        if should_make_initial_request opts.b_opts
        then first_streamed req (initial req (new_stream_io_initializer d))
        else with_messages [] req (all_requests next_body fuel (new_stream_io_initializer d))

    -- A serializer that has `StreamRequest`, with what it gives, or none.
    abbrev pub stream_opened : Option (Text ⊎ (Request × D)) → Option Performed
    stream_opened none = some (run_of [] (some no_stream_serializer))
    stream_opened (some (inl e)) = some (run_of [] (some (stream_request_failed e)))
    stream_opened (some (inr (req, d))) =
        stream_prepared d (prepare_request apply_interceptor req hs opts)

    -- `handleStreamRequest`
    unfoldable pub handle_stream_request : Option (Text ⊎ (Request × D)) → Option Performed
    handle_stream_request stream = stream_opened stream

    -- `handle`
    unfoldable pub handle :
        (Request → Option Fatal)
        → MethodType
        → (Text → Text ⊎ Request)
        → Text ⊎ Text
        → Option (Text ⊎ (Request × D))
        → Option Performed
    unfolding handle_unary_request handle_stream_request
    handle first unary request input stream = some (handle_unary_request first request input)
    handle first _ request input stream = handle_stream_request stream
