-- ===== src/Grpc/Calls.antt =====
-- What a gRPC call sends.
use yab.Prelude.{
  Bool, false, [], Option, none, some, ◌⊎◌, inl, inr, ◌≡◌, ◌↔◌, refl, sym, ap, ◌∙◌, subst, Text,
  is_nil, arith, Bool-cases,
}
use yab.Prelude.Assoc.{Assoc}
use yab.Prelude.Int.{ℤ, pos, ltb_ℤ-cases, ◌<ℤ◌, ◌≤ℤ◌}
use yab.Transport.{GrpcOptions}
use yab.Request.{Request}
use yab.Grpc.{
  GrpcTransport, Opened, opened, started, new_grpc_transport, YarpcRequest, YarpcResponse,
  GrpcResponse, request_to_yarpc_request, request_context_with_timeout, read_body,
  yarpc_response_to_response, call_sends, call, taken,
}

-- The request that is sent for `r` by a transport with the options `o`.
abbrev pub request_of : (Assoc Text Text → Assoc Text Text) → GrpcOptions → Request → YarpcRequest
request_of headers_from_map o r = record {
  caller = o.caller;
  service = r.target_service;
  encoding = o.encoding;
  procedure = r.method;
  headers = headers_from_map r.headers;
  shard_key = r.shard_key;
  routing_key = o.routing_key;
  routing_delegate = o.routing_delegate;
  body = some r.body;
}

-- The time that is left: what the context has, and without a deadline that of the request, if it is
-- positive, or one second.
abbrev pub IsLeft : Option ℤ → Request → ℤ → Type 0
IsLeft (some d) r left = left ≡ d
IsLeft none r left =
    ((pos 0 <ℤ r.timeout) × (left ≡ r.timeout))
    ⊎ ((r.timeout ≤ℤ pos 0) × (left ≡ pos 1_000_000_000))

-- The response that an answer is read as: its headers, and its body, which is empty if it has none.
abbrev pub IsReadAs : YarpcResponse → GrpcResponse → Type 0
IsReadAs y res =
    (y.headers ≡ res.headers)
    × (((y.body ≡ none) × (res.body ≡ [])) ⊎ (y.body ≡ some (inr res.body, none)))

request_context_with_timeout-IsLeft :
    (deadline : Option ℤ) (r : Request)
    → IsLeft deadline r (request_context_with_timeout deadline r)
unfolding request_context_with_timeout
request_context_with_timeout-IsLeft (some d) r = refl
request_context_with_timeout-IsLeft none r = elim (ltb_ℤ-cases (pos 0) r.timeout) [
  | inl (e, p) ↦ rw e (inl (p, refl))
  | inr (e, p) ↦ rw e (inr (p, refl))
]

IsLeft-unique :
    (deadline : Option ℤ) (r : Request) (a b : ℤ)
    → IsLeft deadline r a
    → IsLeft deadline r b
    → a ≡ b
IsLeft-unique (some d) r a b h k = h ∙ sym k
IsLeft-unique none r a b (inl (p, e)) (inl (q, f)) = e ∙ sym f
IsLeft-unique none r a b (inl (p, e)) (inr (q, f)) = absurd (omega (arith, p, q))
IsLeft-unique none r a b (inr (p, e)) (inl (q, f)) = absurd (omega (arith, p, q))
IsLeft-unique none r a b (inr (p, e)) (inr (q, f)) = e ∙ sym f

read_body_iff :
    (hs : Assoc Text Text) (body : Option ((Text ⊎ Text) × Option Text)) (res : GrpcResponse)
    → (read_body hs body ≡ inr res) ↔ IsReadAs (record { headers = hs; body = body }) res
read_body_iff hs none res = (λ h. ground (arith, h), λ h. ground (arith, h))
read_body_iff hs (some (inl e, close)) res = (λ h. ground (arith, h), λ h. ground (arith, h))
read_body_iff hs (some (inr b, some e)) res = (λ h. ground (arith, h), λ h. ground (arith, h))
read_body_iff hs (some (inr b, none)) res = (λ h. ground (arith, h), λ h. ground (arith, h))

module _ (headers_from_map : Assoc Text Text → Assoc Text Text) (r : Request) where
  request_under : GrpcOptions → Opened → YarpcRequest
  request_under o (opened t) = request_to_yarpc_request headers_from_map t r
  request_under o _ = request_of headers_from_map o r

  started-request :
      (identify : Text → Text) (o : GrpcOptions) (first second : Option Text) (t : GrpcTransport)
      → started identify o first second ≡ opened t
      → request_to_yarpc_request headers_from_map t r ≡ request_of headers_from_map o r
  unfolding request_under request_to_yarpc_request
  started-request identify o (some e) second t h = absurd (ground (arith, h))
  started-request identify o none (some e) t h = absurd (ground (arith, h))
  started-request identify o none none t h = ap (request_under o) (sym h)

  new_grpc_transport-request :
      (identify : Text → Text) (o : GrpcOptions) (tracer : Bool) (first second : Option Text)
      (t : GrpcTransport)
      → new_grpc_transport identify o tracer first second ≡ opened t
      → (is_nil o.caller ≡ false)
        × (request_to_yarpc_request headers_from_map t r ≡ request_of headers_from_map o r)
  unfolding new_grpc_transport
  new_grpc_transport-request identify o tracer first second t h =
      ground (arith, h, started-request identify o first second t)

module _ (headers_from_map : Assoc Text Text → Assoc Text Text)
    (outbound : YarpcRequest → ℤ → Text ⊎ YarpcResponse) where
  -- The outbound answers the request `req` within the time left, and `res` is read from the answer.
  abbrev pub IsAnswered : YarpcRequest → Option ℤ → Request → GrpcResponse → Type 0
  IsAnswered req deadline r res =
      (left : ℤ) × (y : YarpcResponse) × IsLeft deadline r left
      × (outbound req left ≡ inr y)
      × IsReadAs y res

  taken_iff :
      (a : Text ⊎ YarpcResponse) (res : GrpcResponse)
      → (taken headers_from_map outbound a ≡ inr res)
        ↔ ((y : YarpcResponse) × (a ≡ inr y) × IsReadAs y res)
  unfolding yarpc_response_to_response
  taken_iff (inl e) res = (λ h. absurd (ground (arith, h)), λ (y, e, k). absurd (ground (arith, e)))
  taken_iff (inr y) res =
      let at = read_body_iff y.headers y.body res in
      (
        λ h. (y, refl, at.0 h),
        λ (z, e, k).
            let same : z ≡ y = ground (arith, e) in at.1 (subst (λ x. IsReadAs x res) same k),
      )

  taken-IsAnswered :
      (req : YarpcRequest) (deadline : Option ℤ) (r : Request) (res : GrpcResponse)
      → (taken headers_from_map outbound (outbound req (request_context_with_timeout deadline r))
          ≡ inr res)
        ↔ IsAnswered req deadline r res
  taken-IsAnswered req deadline r res =
      let left = request_context_with_timeout deadline r in
      let is_left = request_context_with_timeout-IsLeft deadline r in
      let at = taken_iff (outbound req left) res in
      (
        λ h. let (y, e, k) = at.0 h in (left, y, is_left, e, k),
        λ (l, y, i, e, k).
            let same : l ≡ left = IsLeft-unique deadline r l left i is_left in
            at.1 (y, subst (λ n. outbound req n ≡ inr y) same e, k),
      )

  call_iff :
      (t : GrpcTransport) (deadline : Option ℤ) (r : Request) (res : GrpcResponse)
      → (call headers_from_map outbound t deadline r ≡ inr res) ↔ (
          (is_nil r.target_service ≡ false)
          × (is_nil r.method ≡ false)
          × IsAnswered (request_to_yarpc_request headers_from_map t r) deadline r res)
  unfolding call call_sends
  call_iff t deadline r res =
      let at = taken-IsAnswered (request_to_yarpc_request headers_from_map t r) deadline r res in
      elim (Bool-cases (is_nil r.target_service)) [
        | inl e ↦ rw e (λ h. absurd (ground (arith, h)), λ h. absurd (ground (arith, h.0)))
        | inr e ↦ elim (Bool-cases (is_nil r.method)) [
          | inl f ↦ rw (e, f) (λ h. absurd (ground (arith, h)), λ h. absurd (ground (arith, h.1)))
          | inr f ↦ rw (e, f) (λ h. (refl, refl, at.0 h), λ h. at.1 h.2)
        ]
      ]

  -- An opened gRPC transport has a caller that is not empty; and a call of it gives a response exactly
  -- when the request has a service and a procedure, and the outbound answers the request with that
  -- service, procedure and body, its headers and shard key, and the caller, the encoding and the routing
  -- of the options, within the time of the context's deadline, or else the positive timeout of the
  -- request, or else one second; the response is read from that answer: its headers, and its body, or
  -- an empty one for none, read and closed without an error.
  pub call-IsAnswered :
      (identify : Text → Text) (o : GrpcOptions) (tracer : Bool) (first second : Option Text)
      (t : GrpcTransport) (deadline : Option ℤ) (r : Request) (res : GrpcResponse)
      → new_grpc_transport identify o tracer first second ≡ opened t
      → (is_nil o.caller ≡ false)
        × ((call headers_from_map outbound t deadline r ≡ inr res) ↔ (
            (is_nil r.target_service ≡ false)
            × (is_nil r.method ≡ false)
            × IsAnswered (request_of headers_from_map o r) deadline r res))
  call-IsAnswered identify o tracer first second t deadline r res made =
      let (named, same) =
        new_grpc_transport-request headers_from_map r identify o tracer first second t made in
      (
        named,
        subst
            (λ req. (call headers_from_map outbound t deadline r ≡ inr res) ↔ (
              (is_nil r.target_service ≡ false)
              × (is_nil r.method ≡ false)
              × IsAnswered req deadline r res))
            same (call_iff t deadline r res),
      )
