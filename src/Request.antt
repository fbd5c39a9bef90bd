-- ===== src/Request.antt =====
-- request.go: where headers and the body come from, and the request that is sent.
--
-- Reading an input and decoding YAML are parameters: `unmarshal` gives `some` map, or none where the
-- document holds nothing or null, so that the Go map stays nil. The interceptors are a parameter too.
pub mod Headers
use yab.Prelude.{
  ℕ, Bool, true, false, ◌||◌, not, List, [], ◌∷◌, Option, none, some, ◌⊎◌, inl, inr, Text, codes,
  ◌==◌, text_comparable, if◌then◌else◌, is_nil,
}
use yab.Prelude.Assoc.{Assoc, insert}
use yab.Prelude.Int.{ℤ, pos, int_comparable}
use yab.Options.{RequestOptions, TransportOptions, Options}

-- What `getRequestInput` reads from.
pub data Input : Type 0 where
  stdin : Input
  file : Text → Input
  inline : Text → Input

-- `getRequestInput`, up to opening the file
unfoldable pub get_request_input : Text → Text → Input
get_request_input text name =
    if name == codes "-" || text == codes "-"
    then stdin
    else if is_nil name
    then inline text
    else file name

-- `panicked`: an entry is written to a nil map.
pub data HeadersResult : Type 0 where
  headers : Assoc Text Text → HeadersResult
  unreadable : Text → HeadersResult
  unmarshal_failed : Text → HeadersResult
  panicked : HeadersResult

-- The loop over the headers of the command line.
unfoldable pub override_all : Assoc Text Text → Assoc Text Text → Assoc Text Text
override_all m [] = m
override_all m ((k, v) ∷ override) = override_all (insert k v m) override

module _ (read : Input → Text ⊎ Text) (unmarshal : Text → Text ⊎ Option (Assoc Text Text)) where
  -- `getHeaders` behind the reading of its input.
  unfoldable pub decode_headers : Text → Assoc Text Text → HeadersResult
  unfolding override_all
  decode_headers contents override =
      if is_nil contents then headers override else elim (unmarshal contents) [
        | inl e ↦ unmarshal_failed e
        | inr (some m) ↦ headers (override_all m override)
        | inr none ↦ if is_nil override then headers [] else panicked
      ]

  -- `getHeaders`
  unfoldable pub get_headers : Text → Text → Assoc Text Text → HeadersResult
  unfolding decode_headers get_request_input
  get_headers text name override = elim (read (get_request_input text name)) [
    | inl e ↦ unreadable e
    | inr contents ↦ decode_headers contents override
  ]

-- `transport.Request`
pub record Request : Type 0 where
  pub target_service : Text
  pub method : Text
  pub timeout : ℤ
  pub headers : Assoc Text Text
  pub baggage : Assoc Text Text
  pub transport_headers : Assoc Text Text
  pub shard_key : Text
  pub body : Text

abbrev pub one_second : ℤ
one_second = pos 1_000_000_000

-- `prepareRequest`
unfoldable pub prepare_request :
    (Request → Text ⊎ Request) → Request → Assoc Text Text → Options → Text ⊎ Request
prepare_request apply_interceptor req hs opts = apply_interceptor (record req {
  headers = hs;
  transport_headers = opts.t_opts.transport_headers;
  baggage = opts.r_opts.baggage;
  timeout = if opts.r_opts.timeout == pos 0 then one_second else opts.r_opts.timeout;
  target_service = opts.t_opts.service_name;
  shard_key = opts.t_opts.shard_key;
})
