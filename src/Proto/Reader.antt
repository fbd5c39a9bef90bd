-- ===== src/Proto/Reader.antt =====
-- The messages of a stream: encoding/inputdecoder/decoder.go, and the reader of encoding/protobuf.go.
--
-- The decoders of JSON and YAML are parameters, over states of their own.
use yab.Prelude.{
  ℕ, suc, ◌+◌, Bool, true, false, List, [], ◌∷◌, some, ◌⊎◌, inl, inr, ◌≡◌, refl, ap, ◌∙◌, Text,
  ◌==◌, nat_comparable, if◌then◌else◌, length,
}
use yab.Stream.{Fault, at_end, fault}
use yab.Stream.Initializer.{
  Reads, no_more, one_more, StreamIoInitializer, new_stream_io_initializer, all_requests,
  after_requests, all_requests-Reads,
}
use yab.Options.{unary}
use yab.Proto.{
  ProtoError, only_streaming, unreadable_input, Codec, ProtoSerializer, method_type, encode,
}

-- What reading one byte gives.
pub data FirstByte : Type 0 where
  byte : ℕ → FirstByte
  ended : FirstByte
  unreadable : Text → FirstByte

-- The libraries' decoders, made from a reader `R`: of JSON over `J`, of YAML over `Y` with values `V`.
pub record Decoders (R J Y V : Type 0) : Type 0 where
  pub peek : R → FirstByte
  pub new_json : R → J
  pub new_yaml : R → Y
  pub more : J → Bool
  pub decode_json : J → J × (Fault ⊎ Text)
  pub decode_yaml : Y → Y × (Fault ⊎ V)
  pub marshal_yaml : V → Text ⊎ Text

-- `jsonInputDecoder` and `yamlInputDecoder`
pub data Decoder (J Y : Type 0) : Type 0 where
  json_input : J → Decoder J Y
  yaml_input : Y → Decoder J Y

-- `isJSONInput`
unfoldable pub is_json_input : FirstByte → Text ⊎ Bool
is_json_input (byte b) = inr (b == b'{')
is_json_input ended = inr false
is_json_input (unreadable e) = inl e

module _ {R J Y V : Type 0} (lib : Decoders R J Y V) where
  abbrev pub decoder_of : R → Text ⊎ Bool → Text ⊎ Decoder J Y
  decoder_of r (inl e) = inl e
  decoder_of r (inr true) = inr (json_input (lib.new_json r))
  decoder_of r (inr false) = inr (yaml_input (lib.new_yaml r))

  -- `New`
  unfoldable pub new_decoder : R → Text ⊎ Decoder J Y
  unfolding is_json_input
  new_decoder r = decoder_of r (is_json_input (lib.peek r))

  abbrev pub as_fault : Text ⊎ Text → Fault ⊎ Text
  as_fault (inl e) = inl (fault e)
  as_fault (inr b) = inr b

  abbrev pub marshaled_yaml : Fault ⊎ V → Fault ⊎ Text
  marshaled_yaml (inl e) = inl e
  marshaled_yaml (inr v) = as_fault (lib.marshal_yaml v)

  -- `NextYAMLBytes` of both decoders
  unfoldable pub next_yaml_bytes : Decoder J Y → Decoder J Y × (Fault ⊎ Text)
  next_yaml_bytes (json_input j) =
      if lib.more j
      then (json_input (lib.decode_json j).0, (lib.decode_json j).1)
      else (json_input j, inl at_end)
  next_yaml_bytes (yaml_input y) =
      (yaml_input (lib.decode_yaml y).0, marshaled_yaml (lib.decode_yaml y).1)

  module _ {M : Type 0} (codec : Codec M) (say : ProtoError → Text) (p : ProtoSerializer) where
    abbrev pub encoded : Fault ⊎ Text → Fault ⊎ Text
    encoded (inl e) = inl e
    encoded (inr body) = elim (encode codec p body) [ inl e ↦ inl (fault (say e)) | inr b ↦ inr b ]

    -- `protoStreamRequestReader.NextBody`, where `say` is the text of an error
    unfoldable pub next_body : Decoder J Y → Decoder J Y × (Fault ⊎ Text)
    unfolding next_yaml_bytes
    next_body d = ((next_yaml_bytes d).0, encoded (next_yaml_bytes d).1)

    abbrev pub reader_of : Text ⊎ Decoder J Y → ProtoError ⊎ Decoder J Y
    reader_of (inl e) = inl (unreadable_input e)
    reader_of (inr d) = inr d

    -- `protoSerializer.StreamRequest`: the reader, beside a request that has the procedure only.
    unfoldable pub stream_request : R → ProtoError ⊎ Decoder J Y
    unfolding new_decoder
    stream_request r = elim (method_type p.method) [
      | unary ↦ inl (only_streaming p.method.input_type)
      | _ ↦ reader_of (new_decoder r)
    ]

    -- The input holds these bodies, of which each is encoded, and then it ends.
    pub data Encodes : Decoder J Y → List Text → Type 0 where
      no_body : {d d' : Decoder J Y} → next_yaml_bytes d ≡ (d', inl at_end) → Encodes d []
      one_body :
          {d d' : Decoder J Y} {body b : Text} {bs : List Text}
          → next_yaml_bytes d ≡ (d', inr body)
          → encode codec p body ≡ inr b
          → Encodes d' bs
          → Encodes d (b ∷ bs)

    Encodes-Reads : {d : Decoder J Y} {bs : List Text} → Encodes d bs → Reads next_body d bs
    unfolding next_body
    Encodes-Reads (no_body e) = no_more (ap (λ a. (a.0, encoded a.1)) e)
    Encodes-Reads (one_body {d'} {body} {b} e f more) =
        one_more (ap (λ a. (a.0, encoded a.1)) e ∙ rw (encoded, f) refl) (Encodes-Reads more)

    -- However many messages the first call has read before, a benchmark gets the encodings of all
    -- the bodies of the input, in their order.
    pub all_requests-Encodes :
        (d : Decoder J Y) (bs : List Text) (n extra : ℕ)
        → Encodes d bs
        → (t : StreamIoInitializer (Decoder J Y)) × (all_requests next_body
              (suc (suc (length bs + extra)))
              (after_requests next_body n (new_stream_io_initializer d))
            ≡ some (t, inr bs))
    all_requests-Encodes d bs n extra given =
        all_requests-Reads next_body d bs n extra (Encodes-Reads given)
