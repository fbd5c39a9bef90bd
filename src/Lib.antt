-- ===== src/Lib.antt =====
-- A model of yab, a command-line client and benchmarker for RPC services, and proofs about it.
--
-- yab reads options and perhaps a request template, chooses protocol, encoding, serializer and
-- transport, makes one call, and then, if it was asked to, benchmarks the call with many workers.
-- The modules follow that way; the paths are those of the repository.
--
--   * Options (options.go, encoding/encoding.go): the option records, encodings and their names.
--   * Template (template.go): readYAMLRequest from the decoded template on, with merge,
--     overrideParam and getYAMLRequestBody. It fills in Options.
--   * Interpolate (templateargs/interpolate): Parse is the generated scanner of parse.go, state by
--     state (`step`, `finish`, `run`); Grammar has the language of parse.rl. Segments, Reading
--     and Scan run the scanner on it, Continuing and Accept go back from what the scanner accepts;
--     Render has String.Render.
--   * TemplateArgs (templateargs/process.go): ProcessMap, which puts arguments into a request; it
--     uses Parse and Render. Value has the dynamic values of Go that it walks over.
--   * Request (request.go): getHeaders, getRequestInput and prepareRequest.
--   * Resolve (main.go, request.go): resolveProtocolEncoding, detectEncoding and NewSerializer.
--   * Transport (transport.go): parsePeer, loadTransportPeers and getTransport.
--   * PeerList (peerprovider/parse.go): the peers of a peer list.
--   * Tchannel (transport/tchannel.go): the options of a call and the headers it sends and reads.
--   * Http (transport/http.go): the request that is sent, and which replies are responses.
--   * ThriftTypes (thrift/types.go): booleans, integers, doubles and binaries as Thrift values.
--   * Thrift (thrift): requests as Thrift values and Thrift values as responses. Enum, Const and
--     Fields (parseEnum, constToRequest, getFields and fieldGroupToValue), ToWire (toWireValue and
--     what it calls), FromWire (valueFromWire), Response (ResponseBytesToMap and CheckSuccess) and
--     Serializer (parse.go and encoding/thrift_request.go). Typing says which Thrift values belong
--     to a type.
--   * Stream (handler.go, benchmark_stream.go): calls that stream, over the interface StreamIO, with
--     its two implementations; Initializer reads the requests of the input. Bidi has makeBidiStream
--     as two goroutines that take turns under any schedule, with Bidi/Order on what it has sent and
--     received and how it ends, and Bidi/Errors on its errors. Client has a call that sends many
--     messages, and Client/Ended how it ends. Waiter has intervalWaiter, and Call makeStreamRequest with the
--     report of a call in a benchmark.
--   * Proto (encoding/protobuf.go, encoding/inputdecoder/decoder.go): Protobuf methods and their
--     requests. Names has method names and type URLs, Details the details of errors, Reader the
--     requests of a stream, Kinds which operation a method has.
--   * Descriptors (protobuf/filedescriptorsets.go): descriptor sets and the resolving of their
--     imports. Built says what is resolved, Ranked when the resolving ends.
--   * Grpc (transport/grpc.go): newGRPC and its calls over YARPC.
--   * Benchmark (benchmark.go): option checks and the cap on the requests, with Starts on when there
--     is a first call and a benchmark; Workers has the states of the workers and what they are
--     merged into.
--   * Warmup (bench_method.go, benchmark_unary.go): warmTransports with its peer balancer.
--   * RateLimit (ratelimit/time_period.go): Take, with the time of the call as an argument, and the
--     arm of the select that is taken as another.
--   * Limiter (limiter/limiter.go): More and Stop, split at each atomic access. System interleaves
--     any number of goroutines in any order, and counts what they are granted.
--   * Handler (main.go, handler.go): makeInitialRequest with what it prints, and handle from its input
--     to the first call and the benchmark; Runs has the order of these.
--   * Main (main.go): runWithOptions up to its handler, with Stages on what it has established by
--     then and Benchmarks on the name a benchmark calls under; Main/Flags has getOptions with
--     overrideDefaults.
--   * BenchState (bench_state.go, benchmark.go): what a worker records, and how states are merged.
--
-- Numbers: a Go int that is a count is a natural number, and a duration or a time is an integer
-- without bounds; the int64 of the limiter wraps around (`dec64`), so its theorems are for runs of
-- fewer than 2 ^ 63 steps. Texts are lists of byte values. Errors are constructors, and a panic that
-- the code can reach is a constructor of its own. A map is an association list.
--
-- Fuel: the loops of Stream run on fuel, and give none where it is used up. A client-streaming call
-- of n messages takes n + 1, one for each message and one for the end of them, a server-streaming
-- one that is given n messages n + 1, and allRequests n + 2, with one for its last test.
-- toWireValue takes one unit for each level of a value; the defaults of fields, and the values that
-- keys are decoded to, count as levels of their own.
-- All other loops are recursion on a list or a value.
--
-- Parameters stand for what is not in the repository or is input and output: YAML, JSON and base64
-- decoding, the Thrift compiler and its binary protocol, URL parsing, peer providers,
-- interceptors, the stream of a transport, the reader of the input, the transport of YARPC, dynamic
-- Protobuf messages, the parser of flags and the tracer of Jaeger. A float64 is a bit pattern,
-- and its operations are parameters; quantiles and error rates are not modelled, and the product
-- of rate and duration is a parameter.
--
-- A bidirectional stream needs no fuel: a schedule is a finite list of turns. Resolving descriptors
-- takes one unit for each level of imports, so one more than the depth of a file is enough.
--
-- Not modelled: the reading of peer lists, the reflection server (protobuf/source_reflection.go),
-- plugins, the statsd clients, and the printing of benchmark results.
pub mod Prelude
pub mod Options
pub mod Value
pub mod Interpolate
pub mod TemplateArgs
pub mod Template
pub mod Request
pub mod Resolve
pub mod Transport
pub mod PeerList
pub mod Tchannel
pub mod Http
pub mod ThriftTypes
pub mod Thrift
pub mod Stream
pub mod Proto
pub mod Descriptors
pub mod Grpc
pub mod Benchmark
pub mod Warmup
pub mod RateLimit
pub mod Limiter
pub mod BenchState
pub mod Handler
pub mod Main
mod Tests
