-- ===== src/Handler/Runs.antt =====
-- The order of what a run does.
use yab.Prelude.{
  ℕ, List, [], ◌∷◌, Option, none, some, ◌⊎◌, inl, inr, ◌≡◌, refl, subst, Text, Bool-cases,
}
use yab.Prelude.Assoc.{Assoc}
use yab.Prelude.Int.{ℤ}
use yab.Options.{Options}
use yab.Request.{Request, prepare_request}
use yab.Benchmark.{Start, invalid, disabled, run_with, should_make_initial_request, start_benchmark}
use yab.Benchmark.Starts.{
  asked_and_unasked, IsUnasked, IsFirstMade, IsFirstSkipped, IsStarted, start_benchmark-IsStarted,
  start_benchmark-IsUnasked, should_make_initial_request-IsFirstMade,
  should_make_initial_request-IsFirstSkipped,
}
use yab.Stream.{Error, Fault}
use yab.Stream.Call.{StreamCallError}
use yab.Stream.Initializer.{StreamIoInitializer, new_stream_io_initializer, all_requests}
use yab.Handler.{
  Fatal, reading_input, serializing_input, making_request, bad_benchmark, no_stream_serializer,
  stream_request_failed, stream_failed, stream_input, RunEvent, called, streamed, benchmarked,
  Performed, run_of, started, after_first, unary_prepared, unary_serialized, handle_unary_request,
  with_messages, first_streamed, stream_prepared, stream_opened, handle_stream_request,
}

module _ (rps_max : ℤ → ℤ → ℤ) (apply_interceptor : Request → Text ⊎ Request) (opts : Options)
    (hs : Assoc Text Text) where
  -- The request went through `prepareRequest`.
  abbrev pub IsPrepared : Request → Type 0
  IsPrepared req = (r : Request) × (prepare_request apply_interceptor r hs opts ≡ inr req)

  -- The runs there are, with `first` for the event of the first call and what its success means.
  pub data Allowed (first : Request → RunEvent) (Succeeds : Request → Type 0)
      : Performed → Type 0 where
    no_call : (e : Fatal) → Allowed first Succeeds (run_of [] (some e))
    stopped :
        {req : Request} (e : Fatal)
        → IsFirstMade opts.b_opts
        → IsPrepared req
        → Allowed first Succeeds (run_of (first req ∷ []) (some e))
    only_first :
        {req : Request}
        → IsUnasked opts.b_opts
        → IsPrepared req
        → Succeeds req
        → Allowed first Succeeds (run_of (first req ∷ []) none)
    only_benchmark :
        {req : Request} {n : ℤ} {ms : List Text}
        → IsFirstSkipped opts.b_opts
        → IsPrepared req
        → IsStarted rps_max opts.b_opts n
        → Allowed first Succeeds (run_of (benchmarked n req.method ms ∷ []) none)
    first_and_benchmark :
        {req : Request} {n : ℤ} {ms : List Text}
        → IsFirstMade opts.b_opts
        → IsPrepared req
        → Succeeds req
        → IsStarted rps_max opts.b_opts n
        → Allowed first Succeeds (run_of (first req ∷ benchmarked n req.method ms ∷ []) none)

  module _ (first : Request → RunEvent) (Succeeds : Request → Type 0) (req : Request)
      (p : IsPrepared req) where
    behind_first :
        (s : Start) (ms : List Text)
        → start_benchmark rps_max opts.b_opts ≡ s
        → IsFirstMade opts.b_opts
        → Succeeds req
        → Allowed first Succeeds
            (started rps_max apply_interceptor opts hs (first req ∷ []) req ms s)
    behind_first (invalid e) ms h k l = stopped (bad_benchmark e) k p
    behind_first disabled ms h k l =
        only_first (start_benchmark-IsUnasked rps_max opts.b_opts h) p l
    behind_first (run_with n) ms h k l =
        first_and_benchmark k p l (start_benchmark-IsStarted rps_max opts.b_opts n h)

    without_first :
        (s : Start) (ms : List Text)
        → start_benchmark rps_max opts.b_opts ≡ s
        → IsFirstSkipped opts.b_opts
        → Allowed first Succeeds (started rps_max apply_interceptor opts hs [] req ms s)
    without_first (invalid e) ms h k = no_call (bad_benchmark e)
    without_first disabled ms h k =
        absurd (asked_and_unasked opts.b_opts k.0 (start_benchmark-IsUnasked rps_max opts.b_opts h))
    without_first (run_with n) ms h k =
        only_benchmark k p (start_benchmark-IsStarted rps_max opts.b_opts n h)

  module _ (initial : Request → Option Fatal) where
    abbrev pub Succeeds : Request → Type 0
    Succeeds req = initial req ≡ none

    after_first-Allowed :
        (req : Request) (e : Option Fatal)
        → IsPrepared req
        → initial req ≡ e
        → IsFirstMade opts.b_opts
        → Allowed called Succeeds (after_first rps_max apply_interceptor opts hs initial req e)
    after_first-Allowed req (some e) p h k = stopped e k p
    after_first-Allowed req none p h k =
        behind_first called Succeeds req p (start_benchmark rps_max opts.b_opts) [] refl k h

    unary_prepared-Allowed :
        (r : Request) (q : Text ⊎ Request)
        → prepare_request apply_interceptor r hs opts ≡ q
        → Allowed called Succeeds (unary_prepared rps_max apply_interceptor opts hs initial q)
    unary_prepared-Allowed r (inl e) h = no_call (making_request e)
    unary_prepared-Allowed r (inr req) h =
        elim (Bool-cases (should_make_initial_request opts.b_opts)) [
          | inl g ↦
              let k = should_make_initial_request-IsFirstMade opts.b_opts g in
              rw g (after_first-Allowed req (initial req) (r, h) refl k)
          | inr g ↦
              let k = should_make_initial_request-IsFirstSkipped opts.b_opts g in
              rw g (
                without_first called Succeeds req (r, h) (start_benchmark rps_max opts.b_opts) []
                  refl k)
        ]

    unary_serialized-Allowed :
        (q : Text ⊎ Request)
        → Allowed called Succeeds (unary_serialized rps_max apply_interceptor opts hs initial q)
    unary_serialized-Allowed (inl e) = no_call (serializing_input e)
    unary_serialized-Allowed (inr r) =
        unary_prepared-Allowed r (prepare_request apply_interceptor r hs opts) refl

    -- A unary run stops with a fatal message before any call; or makes a first call, unless
    -- a benchmark without warm-up is asked for, and stops with a fatal message, or is over if that
    -- call succeeded and no benchmark is asked for; or starts a benchmark, without a fatal message
    -- before it. A benchmark is behind a first call only if that succeeded, and without one only if
    -- there is no warm-up; it is one that the options ask for, with a duration and a maximum that are
    -- not negative, the maximum capped by rate and duration. Each request went through prepareRequest.
    pub handle_unary_request-Allowed :
        (request : Text → Text ⊎ Request) (input : Text ⊎ Text)
        → Allowed called Succeeds
            (handle_unary_request rps_max apply_interceptor opts hs initial request input)
    unfolding handle_unary_request
    handle_unary_request-Allowed request (inl e) = no_call (reading_input e)
    handle_unary_request-Allowed request (inr input) = unary_serialized-Allowed (request input)

  module _ {D : Type 0} (next_body : D → D × (Fault ⊎ Text))
      (initial : Request
        → StreamIoInitializer D
        → Option (StreamIoInitializer D × Option StreamCallError))
      (fuel : ℕ) where
    abbrev pub StreamSucceeds : Request → Type 0
    StreamSucceeds req =
        (d : D) × (s : StreamIoInitializer D) × (initial req (new_stream_io_initializer d)
          ≡ some (s, none))

    abbrev pub AllowedIf : Option Performed → Type 0
    AllowedIf none = Unit
    AllowedIf (some run) = Allowed streamed StreamSucceeds run

    first_messages-Allowed :
        (req : Request) (o : Option (StreamIoInitializer D × (Error ⊎ List Text)))
        → IsPrepared req
        → IsFirstMade opts.b_opts
        → StreamSucceeds req
        → AllowedIf (
            with_messages rps_max apply_interceptor opts hs next_body initial fuel
              (streamed req ∷ [])
              req
              o)
    first_messages-Allowed req none p k l = tt
    first_messages-Allowed req (some (s, inl e)) p k l = stopped (stream_input e) k p
    first_messages-Allowed req (some (s, inr ms)) p k l =
        behind_first streamed StreamSucceeds req p (start_benchmark rps_max opts.b_opts) ms refl k l

    messages-Allowed :
        (req : Request) (o : Option (StreamIoInitializer D × (Error ⊎ List Text)))
        → IsPrepared req
        → IsFirstSkipped opts.b_opts
        → AllowedIf
            (with_messages rps_max apply_interceptor opts hs next_body initial fuel [] req o)
    messages-Allowed req none p k = tt
    messages-Allowed req (some (s, inl e)) p k = no_call (stream_input e)
    messages-Allowed req (some (s, inr ms)) p k =
        without_first streamed StreamSucceeds req p (start_benchmark rps_max opts.b_opts) ms refl k

    first_streamed-Allowed :
        (d : D) (req : Request) (o : Option (StreamIoInitializer D × Option StreamCallError))
        → IsPrepared req
        → IsFirstMade opts.b_opts
        → initial req (new_stream_io_initializer d) ≡ o
        → AllowedIf (first_streamed rps_max apply_interceptor opts hs next_body initial fuel req o)
    first_streamed-Allowed d req none p k h = tt
    first_streamed-Allowed d req (some (s, some e)) p k h = stopped (stream_failed e) k p
    first_streamed-Allowed d req (some (s, none)) p k h =
        first_messages-Allowed req (all_requests next_body fuel s) p k (d, s, h)

    stream_prepared-Allowed :
        (d : D) (r : Request) (q : Text ⊎ Request)
        → prepare_request apply_interceptor r hs opts ≡ q
        → AllowedIf (stream_prepared rps_max apply_interceptor opts hs next_body initial fuel d q)
    stream_prepared-Allowed d r (inl e) h = no_call (making_request e)
    stream_prepared-Allowed d r (inr req) h =
        elim (Bool-cases (should_make_initial_request opts.b_opts)) [
          | inl g ↦
              let k = should_make_initial_request-IsFirstMade opts.b_opts g in
              rw g (
                first_streamed-Allowed d req (initial req (new_stream_io_initializer d)) (r, h) k
                  refl)
          | inr g ↦
              let k = should_make_initial_request-IsFirstSkipped opts.b_opts g in
              rw g (
                messages-Allowed req (all_requests next_body fuel (new_stream_io_initializer d))
                  (r, h) k)
        ]

    stream_opened-Allowed :
        (stream : Option (Text ⊎ (Request × D)))
        → AllowedIf (stream_opened rps_max apply_interceptor opts hs next_body initial fuel stream)
    stream_opened-Allowed none = no_call no_stream_serializer
    stream_opened-Allowed (some (inl e)) = no_call (stream_request_failed e)
    stream_opened-Allowed (some (inr (r, d))) =
        stream_prepared-Allowed d r (prepare_request apply_interceptor r hs opts) refl

    -- A streaming run that ends stops with a fatal message before any call; or makes a first call, unless
    -- a benchmark without warm-up is asked for, and stops with a fatal message, or is over if that
    -- call succeeded and no benchmark is asked for; or starts a benchmark, without a fatal message
    -- before it. A benchmark is behind a first call only if that succeeded, and without one only if
    -- there is no warm-up; it is one that the options ask for, with a duration and a maximum that are
    -- not negative, the maximum capped by rate and duration. Each request went through prepareRequest.
    pub handle_stream_request-Allowed :
        (stream : Option (Text ⊎ (Request × D))) (run : Performed)
        → handle_stream_request rps_max apply_interceptor opts hs next_body initial fuel stream
          ≡ some run
        → Allowed streamed StreamSucceeds run
    unfolding handle_stream_request
    handle_stream_request-Allowed stream run h = subst AllowedIf h (stream_opened-Allowed stream)
