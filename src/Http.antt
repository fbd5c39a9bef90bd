-- ===== src/Http.antt =====
-- transport/http.go: the requests that an HTTP transport sends, and the responses it takes.
--
-- The client is that of net/http: what it returns is an argument, as are the index that `rand.Intn` gives
-- and the time that is left. Headers are the list of what is added to them, in order.
pub mod Answers
use yab.Prelude.{
  ℕ, zero, suc, ◌/◌, Bool, true, false, not, ◌&&◌, ◌||◌, List, [], ◌∷◌, ◌++◌, Option, none, some,
  ◌⊎◌, inl, inr, Text, codes, map, ltb, leb, get_elem?, if◌then◌else◌, is_nil,
}
use yab.Prelude.Assoc.{Assoc}
use yab.Prelude.Int.{ℤ, pos, negsuc}
use yab.Transport.{HttpOptions}
use yab.Request.{Request}
use yab.Thrift.Decimal.{itoa}

pub data HttpError : Type 0 where
  no_urls missing_target : HttpError

abbrev or_post : Text → Text
or_post [] = codes "POST"
or_post (c ∷ cs) = c ∷ cs

-- `NewHTTP`: the options that the transport keeps
unfoldable pub new_http : HttpOptions → HttpError ⊎ HttpOptions
new_http opts =
    if is_nil opts.urls
    then inl no_urls
    else if is_nil opts.target_service
    then inl missing_target
    else inr (record opts { http_method = or_post opts.http_method })

-- `timeout/time.Millisecond`, cut off towards 0
abbrev milliseconds : ℤ → ℤ
milliseconds (pos n) = pos (n / 1_000_000)
milliseconds (negsuc n) = elim (suc n / 1_000_000) as (λ _. ℤ) [ zero ↦ pos 0 | suc q ↦ negsuc q ]

-- A header that is only added if it has a value.
abbrev given : Text → Text → Assoc Text Text
given name value = if is_nil value then [] else (name, value) ∷ []

-- `applyRPCHeaders`: what it adds
unfoldable pub apply_rpc_headers : HttpOptions → Request → ℤ → Assoc Text Text
unfolding itoa
apply_rpc_headers opts r timeout =
    ((codes "RPC-Service", opts.target_service)
      ∷ (codes "RPC-Procedure", r.method)
      ∷ (codes "RPC-Caller", opts.source_service)
      ∷ (codes "RPC-Encoding", opts.encoding)
      ∷ [])
    ++ (given (codes "RPC-Routing-Key") opts.routing_key
        ++ (given (codes "RPC-Routing-Delegate") opts.routing_delegate
            ++ (given (codes "RPC-Shard-Key") opts.shard_key
                ++ ((codes "Context-TTL-MS", itoa (milliseconds timeout))
                    ∷ map (λ p. (codes "Rpc-Header-" ++ p.0, p.1)) r.headers))))

-- What is sent, or why it is not; `panicked`: there is no URL to choose from.
pub data Sent : Type 0 where
  panicked : Sent
  not_sent : Text → Sent
  sent : (method url : Text) (added : Assoc Text Text) (body : Text) → Sent

-- `newReq`; `refused` is the error of `http.NewRequest`, and `inject` adds the trace.
module _ (refused : Text → Text → Option Text) (inject : Assoc Text Text → Assoc Text Text) where
  abbrev made : HttpOptions → Request → ℤ → Text → Option Text → Sent
  made opts r timeout url (some e) = not_sent e
  made opts r timeout url none =
      sent opts.http_method url (inject (apply_rpc_headers opts r timeout ++ r.transport_headers))
        r.body

  abbrev pub to_url : HttpOptions → Request → ℤ → Option Text → Sent
  to_url opts r timeout none = panicked
  to_url opts r timeout (some url) = made opts r timeout url (refused opts.http_method url)

  unfoldable pub new_req : HttpOptions → Request → ℕ → ℤ → Sent
  unfolding apply_rpc_headers
  new_req opts r choice timeout = to_url opts r timeout (get_elem? opts.urls choice)

-- A response of the client: its status, the first value of each header, and what reading the body gives,
-- with the error.
pub record HttpReply : Type 0 where
  pub status_code : ℕ
  pub header : Assoc Text Text
  pub body : Text
  pub read_error : Option Text

-- `Response`, with its one transport field
pub record HttpResponse : Type 0 where
  pub headers : Assoc Text Text
  pub body : Text
  pub status_code : ℕ

pub data CallError : Type 0 where
  call_failed : Text → CallError
  non_success : ℕ → Text → CallError
  body_unreadable : Text → CallError

abbrev pub or_unreadable : HttpReply → Option Text → CallError ⊎ HttpResponse
or_unreadable resp (some e) = inl (body_unreadable e)
or_unreadable resp none =
    inr (record { headers = resp.header; body = resp.body; status_code = resp.status_code })

-- `Call` behind `client.Do`
unfoldable pub take_reply : Text ⊎ HttpReply → CallError ⊎ HttpResponse
take_reply (inl e) = inl (call_failed e)
take_reply (inr resp) =
    if ltb resp.status_code 200 || leb 300 resp.status_code
    then inl (non_success resp.status_code resp.body)
    else or_unreadable resp resp.read_error
