-- ===== src/Resolve/Laws.antt =====
-- What the choice of protocol, encoding and serializer guarantees.
use yab.Prelude.{
  false, ◌||◌, ◌≡◌, ◌≢◌, ◌↔◌, refl, some, Text, codes, arith, ◌==◌, text_comparable, text_beq,
  text_beq_iff, map,
}
use yab.Options.{
  Encoding, unspecified_encoding, json, thrift, raw, protobuf, unknown, RequestOptions,
  encoding_name, to_lower, unmarshal_text,
}
use yab.Resolve.{detect_encoding, resolve_protocol_encoding}

-- A text in ASCII is read as an encoding exactly when it is the name of that encoding, in any mixture
-- of lower and upper case.
pub unmarshal_text-encoding_name :
    (t : Text) (e : Encoding) → (unmarshal_text t ≡ some e) ↔ (map to_lower t ≡ encoding_name e)
unfolding unmarshal_text encoding_name text_beq
unmarshal_text-encoding_name t e = (λ h. forth e h, λ h. back e h)
  where
    s : Text
    s = map to_lower t

    forth : (e : Encoding) → unmarshal_text t ≡ some e → s ≡ encoding_name e
    forth unspecified_encoding h = ground (arith, text_beq_iff s (codes ""), h)
    forth json h = ground (arith, text_beq_iff s (codes "json"), h)
    forth thrift h = ground (arith, text_beq_iff s (codes "thrift"), h)
    forth raw h = ground (arith, text_beq_iff s (codes "raw"), h)
    forth protobuf h = ground (arith, text_beq_iff s (codes "proto"), h)

    back : (e : Encoding) → s ≡ encoding_name e → unmarshal_text t ≡ some e
    back unspecified_encoding h = rw h refl
    back json h = rw h refl
    back thrift h = rw h refl
    back raw h = rw h refl
    back protobuf h = rw h refl

-- An encoding that the user names is the one that is used, whatever the peers and the procedure say.
pub resolve-given :
    (scheme : Text) (opts : RequestOptions)
    → opts.encoding ≢ unspecified_encoding
    → (resolve_protocol_encoding scheme opts).enc ≡ opts.encoding
unfolding resolve_protocol_encoding detect_encoding
resolve-given scheme opts h = ground arith

-- The protocol is unknown exactly when the peers name none of the four schemes, the options tell no
-- encoding, and no health check is asked for.
pub resolve-unknown_iff :
    (scheme : Text) (opts : RequestOptions)
    → ((resolve_protocol_encoding scheme opts).protocol ≡ unknown)
      ↔ ((scheme == codes "tchannel"
            || (scheme == codes "grpc" || (scheme == codes "http" || scheme == codes "https")))
          ≡ false)
        × (detect_encoding opts ≡ unspecified_encoding)
        × (opts.health ≡ false)
unfolding resolve_protocol_encoding
resolve-unknown_iff scheme opts = (λ h. ground arith, λ h. ground arith)

-- Where the protocol is known, so is the encoding.
pub resolve-specified :
    (scheme : Text) (opts : RequestOptions)
    → (resolve_protocol_encoding scheme opts).protocol ≢ unknown
    → (resolve_protocol_encoding scheme opts).enc ≢ unspecified_encoding
unfolding resolve_protocol_encoding
resolve-specified scheme opts h = λ e. ground arith
