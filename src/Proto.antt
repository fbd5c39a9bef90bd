-- ===== src/Proto.antt =====
-- encoding/protobuf.go and encoding/inputdecoder/decoder.go: requests of Protobuf methods, and the
-- details of their errors.
--
-- Descriptors, dynamic messages and the conversions between YAML, JSON and messages are those of the
-- libraries the source calls: the parameters `Descriptors` and `Codec`.
pub mod Names
pub mod Details
pub mod Reader
pub mod Kinds
use yab.Prelude.{
  ℕ, Bool, true, false, ◌&&◌, List, [], ◌∷◌, ◌++◌, map, Option, none, some, ◌⊎◌, inl, inr, Text,
  ◌==◌, codes, nat_comparable, if◌then◌else◌,
}
use yab.Options.{MethodType, unary, client_stream, server_stream, bidirectional_stream}

-- `desc.MethodDescriptor`: what the source asks of it.
pub record Method : Type 0 where
  pub method_name : Text
  pub client_streaming : Bool
  pub server_streaming : Bool
  pub input_type : Text

-- `desc.ServiceDescriptor`
pub record Service : Type 0 where
  pub full_name : Text
  pub methods : List Method

pub data ProtoError : Type 0 where
  invalid_method : Text → ProtoError
  service_failed : Text → ProtoError
  method_not_found : (search look_in : Text) (available : List Text) → ProtoError
  only_unary only_streaming : Text → ProtoError
  bad_yaml : Text → ProtoError
  not_message not_marshaled : (type_name because : Text) → ProtoError
  unreadable_input : Text → ProtoError
  bad_details bad_detail : Text → ProtoError

-- `DescriptorProvider`, and the search of protoreflect in a service.
pub record Descriptors (D : Type 0) : Type 0 where
  pub service_named : Text → Text ⊎ Service
  pub find_method_by_name : Service → Text → Option Method
  pub find_message : Text → Text ⊎ Option D

-- Conversions: YAML to JSON, JSON to a message of the type named, and a message to its bytes.
pub record Codec (M : Type 0) : Type 0 where
  pub yaml_to_json : Text → Text ⊎ Text
  pub unmarshal_json : Text → Text → Text ⊎ M
  pub marshal : M → Text ⊎ Text

abbrev pub slash : ℕ
slash = b'/'

-- `strings.Split(s, "/")`
abbrev pub cut : ℕ → List Text → List Text
cut c [] = (c ∷ []) ∷ []
cut c (p ∷ ps) = (c ∷ p) ∷ ps

unfoldable pub split_slashes : Text → List Text
split_slashes [] = [] ∷ []
split_slashes (c ∷ cs) =
    let parts = split_slashes cs in if c == slash then [] ∷ parts else cut c parts

-- `splitMethod`: service and method
abbrev pub one_or_two : Text → List Text → ProtoError ⊎ (Text × Text)
one_or_two s (svc ∷ []) = inr (svc, [])
one_or_two s (svc ∷ m ∷ []) = inr (svc, m)
one_or_two s _ = inl (invalid_method s)

unfoldable pub split_method : Text → ProtoError ⊎ (Text × Text)
unfolding split_slashes
split_method full_method = one_or_two full_method (split_slashes full_method)

-- The name that `anyResolver.Resolve` looks for: what stands behind the last slash.
abbrev pub last_part : Text → List Text → Text
last_part s [] = s
last_part s (p ∷ ps) = last_part p ps

unfoldable pub message_name : Text → Text
unfolding split_slashes
message_name type_url = last_part [] (split_slashes type_url)

-- `protoSerializer`, without its resolver
pub record ProtoSerializer : Type 0 where
  pub service_name : Text
  pub method_name : Text
  pub method : Method

-- `protoSerializer.MethodType`
unfoldable pub method_type : Method → MethodType
method_type m =
    if m.client_streaming && m.server_streaming
    then bidirectional_stream
    else if m.client_streaming
    then client_stream
    else if m.server_streaming
    then server_stream
    else unary

module _ {D : Type 0} (ds : Descriptors D) where
  -- `findProtoMethodDescriptor`
  abbrev pub method_or_error : Service → Text → Option Method → ProtoError ⊎ Method
  method_or_error s m (some d) = inr d
  method_or_error s m none = inl (
      method_not_found m s.full_name
        (map (λ d. s.full_name ++ codes "/" ++ d.method_name) s.methods))

  unfoldable pub find_proto_method_descriptor : Service → Text → ProtoError ⊎ Method
  find_proto_method_descriptor s m = method_or_error s m (ds.find_method_by_name s m)

  abbrev pub with_method : Text → Text → ProtoError ⊎ Method → ProtoError ⊎ ProtoSerializer
  with_method svc m (inl e) = inl e
  with_method svc m (inr d) = inr (record { service_name = svc; method_name = m; method = d })

  abbrev pub with_service : Text → Text → Text ⊎ Service → ProtoError ⊎ ProtoSerializer
  with_service svc m (inl e) = inl (service_failed e)
  with_service svc m (inr s) = with_method svc m (find_proto_method_descriptor s m)

  abbrev pub with_names : ProtoError ⊎ (Text × Text) → ProtoError ⊎ ProtoSerializer
  with_names (inl e) = inl e
  with_names (inr (svc, m)) = with_service svc m (ds.service_named svc)

  -- `NewProtobuf`
  unfoldable pub new_protobuf : Text → ProtoError ⊎ ProtoSerializer
  unfolding split_method
  new_protobuf full_method_name = with_names (split_method full_method_name)

-- What the serializer gives: the procedure's name and the body.
pub record ProtoRequest : Type 0 where
  pub procedure : Text
  pub body : Text

module _ {M : Type 0} (codec : Codec M) where
  abbrev pub marshaled : Text → Text ⊎ Text → ProtoError ⊎ Text
  marshaled name (inl e) = inl (not_marshaled name e)
  marshaled name (inr b) = inr b

  abbrev pub unmarshaled : Text → Text ⊎ M → ProtoError ⊎ Text
  unmarshaled name (inl e) = inl (not_message name e)
  unmarshaled name (inr m) = marshaled name (codec.marshal m)

  abbrev pub from_json : Text → Text ⊎ Text → ProtoError ⊎ Text
  from_json name (inl e) = inl (bad_yaml e)
  from_json name (inr j) = unmarshaled name (codec.unmarshal_json name j)

  -- `protoSerializer.encode`
  unfoldable pub encode : ProtoSerializer → Text → ProtoError ⊎ Text
  encode p yaml_bytes = from_json p.method.input_type (codec.yaml_to_json yaml_bytes)

  -- `to_name` is `procedure.ToName`.
  abbrev pub request_of :
      (Text → Text → Text) → ProtoSerializer → ProtoError ⊎ Text → ProtoError ⊎ ProtoRequest
  request_of to_name p (inl e) = inl e
  request_of to_name p (inr b) =
      inr (record { procedure = to_name p.service_name p.method_name; body = b })

  -- `protoSerializer.Request`
  unfoldable pub request : (Text → Text → Text) → ProtoSerializer → Text → ProtoError ⊎ ProtoRequest
  unfolding method_type encode
  request to_name p body = elim (method_type p.method) [
    | unary ↦ request_of to_name p (encode p body)
    | _ ↦ inl (only_unary p.method.input_type)
  ]
