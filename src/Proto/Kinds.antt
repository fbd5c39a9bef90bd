-- ===== src/Proto/Kinds.antt =====
-- Which of its two operations a Protobuf method has.
use yab.Prelude.{◌⊎◌, inl, inr, ◌≡◌, ◌≢◌, refl, sym, ◌∙◌, Text, arith}
use yab.Options.{MethodType, unary, client_stream, server_stream, bidirectional_stream}
use yab.Proto.{
  ProtoError, only_unary, only_streaming, Codec, ProtoSerializer, method_type, encode, request,
  request_of, from_json, unmarshaled, marshaled,
}
use yab.Proto.Reader.{Decoders, Decoder, new_decoder, reader_of, stream_request}

-- What kind of error an operation gives is the only thing that is told apart here.
abbrev pub IsWrongKind : {A : Type 0} → ProtoError ⊎ A → Type 0
IsWrongKind (inl (only_unary t)) = Unit
IsWrongKind (inl (only_streaming t)) = Unit
IsWrongKind _ = ⊥

module _ {M : Type 0} (codec : Codec M) (to_name : Text → Text → Text) where
  marshaled-kind :
      (p : ProtoSerializer) (name : Text) (b : Text ⊎ Text)
      → IsWrongKind (request_of codec to_name p (marshaled codec name b))
      → ⊥
  marshaled-kind p name (inl e) h = h
  marshaled-kind p name (inr b) h = h

  unmarshaled-kind :
      (p : ProtoSerializer) (name : Text) (m : Text ⊎ M)
      → IsWrongKind (request_of codec to_name p (unmarshaled codec name m))
      → ⊥
  unmarshaled-kind p name (inl e) h = h
  unmarshaled-kind p name (inr m) h = marshaled-kind p name (codec.marshal m) h

  from_json-kind :
      (p : ProtoSerializer) (name : Text) (j : Text ⊎ Text)
      → IsWrongKind (request_of codec to_name p (from_json codec name j))
      → ⊥
  from_json-kind p name (inl e) h = h
  from_json-kind p name (inr j) h = unmarshaled-kind p name (codec.unmarshal_json name j) h

  encode-kind :
      (p : ProtoSerializer) (body : Text)
      → IsWrongKind (request_of codec to_name p (encode codec p body))
      → ⊥
  unfolding encode
  encode-kind p body h = from_json-kind p p.method.input_type (codec.yaml_to_json body) h

is_unary : (k : MethodType) → (k ≡ unary) ⊎ (k ≢ unary)
is_unary unary = inl refl
is_unary client_stream = inr (λ e. ground (arith, e))
is_unary server_stream = inr (λ e. ground (arith, e))
is_unary bidirectional_stream = inr (λ e. ground (arith, e))

module _ {R J Y V M : Type 0} (lib : Decoders R J Y V) (codec : Codec M) (say : ProtoError → Text)
    (to_name : Text → Text → Text) where
  reader_of-kind :
      (p : ProtoSerializer) (d : Text ⊎ Decoder J Y) → IsWrongKind (reader_of lib codec say p d) → ⊥
  reader_of-kind p (inl e) h = h
  reader_of-kind p (inr d) h = h

  -- One of the two operations is refused for the kind of the method, and the other is not.
  abbrev pub HasOneOperation : ProtoSerializer → Text → R → Type 0
  HasOneOperation p body r =
      ((method_type p.method ≡ unary)
        × (IsWrongKind (request codec to_name p body) → ⊥)
        × IsWrongKind (stream_request lib codec say p r))
      ⊎ ((method_type p.method ≢ unary)
          × IsWrongKind (request codec to_name p body)
          × (IsWrongKind (stream_request lib codec say p r) → ⊥))

  streaming :
      (p : ProtoSerializer) (body : Text) (r : R) (k : MethodType)
      → method_type p.method ≡ k
      → k ≢ unary
      → (IsWrongKind (request codec to_name p body))
        × (IsWrongKind (stream_request lib codec say p r) → ⊥)
  unfolding request stream_request
  streaming p body r unary e other = absurd (other refl)
  streaming p body r client_stream e other =
      (rw (request, e) tt, rw (stream_request, e) (reader_of-kind p (new_decoder lib r)))
  streaming p body r server_stream e other =
      (rw (request, e) tt, rw (stream_request, e) (reader_of-kind p (new_decoder lib r)))
  streaming p body r bidirectional_stream e other =
      (rw (request, e) tt, rw (stream_request, e) (reader_of-kind p (new_decoder lib r)))

  of_kind :
      (p : ProtoSerializer) (body : Text) (r : R) (k : MethodType)
      → method_type p.method ≡ k
      → (k ≡ unary) ⊎ (k ≢ unary)
      → HasOneOperation p body r
  unfolding request stream_request
  of_kind p body r k e (inl u) =
      let at = e ∙ u in
      inl (at, rw (request, at) (encode-kind codec to_name p body), rw (stream_request, at) tt)
  of_kind p body r k e (inr other) =
      inr
        (λ u. other (sym e ∙ u), (streaming p body r k e other).0, (streaming p body r k e other).1)

  -- A method that is unary has the operation for one request and is refused the one for streams for
  -- its kind, and any other method the other way round.
  pub request-stream_request :
      (p : ProtoSerializer) (body : Text) (r : R) → HasOneOperation p body r
  request-stream_request p body r =
      of_kind p body r (method_type p.method) refl (is_unary (method_type p.method))
