-- ===== src/Tests.antt =====
-- Tests by evaluation, and the theorems at concrete inputs.
mod Interpolate
mod TemplateArgs
mod RateLimit
mod Limiter
mod BenchState
mod Resolve
mod Stream
mod Proto
mod Grpc
mod Descriptors
mod Handler
mod Main
mod Template
mod ThriftTypes
mod Thrift
mod Tchannel
mod PeerList
mod Http
mod Warmup
mod Request
mod Benchmark
