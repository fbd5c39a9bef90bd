-- ===== src/Thrift/Serializer.antt =====
-- thrift/parse.go, encoding/thrift_request.go: methods of a Thrift file, and the requests that are sent to
-- them.
--
-- Compiling a file (`compile`, as `Compile`), the test whether it is missing, decoding YAML and the binary
-- protocol (`encode`, `encode_enveloped`) are parameters.
pub mod Methods
use yab.Prelude.{
  ℕ, suc, Bool, true, false, List, [], ◌∷◌, ◌++◌, Option, none, some, ◌⊎◌, inl, inr, Text, codes,
  map, ◌==◌, nat_comparable, text_comparable, if◌then◌else◌,
}
use yab.Prelude.Assoc.{Assoc, lookup}
use yab.Value.{Value, object, Fields}
use yab.Resolve.{ThriftParams, has_prefix}
use yab.Thrift.{
  Outcome, done, fail, crash, out_of_fuel, ◌>>=◌, map_fail, FieldSpec, StructSpec, TypeSpec, Wire,
  wire_struct,
}
use yab.Thrift.Response.{FunctionSpec, Options}
use yab.Thrift.ToWire.{WireError, field_group_to_value}

-- `strings.Split` of a text by two colons.
unfoldable pub split_colons : Text → List Text
split_colons [] = [] ∷ []
split_colons (c ∷ []) = (c ∷ []) ∷ []
split_colons (c ∷ d ∷ s) =
    let after = split_colons s in
    let rest = elim (split_colons (d ∷ s)) as (λ _. List Text) [
      | [] ↦ (c ∷ []) ∷ []
      | p ∷ ps ↦ (c ∷ p) ∷ ps
    ] in
    if c == b':' then if d == b':' then [] ∷ after else rest else rest

-- The switch of `SplitMethod`.
abbrev pub method_of : Text → List Text → Text ⊎ (Text × Text)
method_of full_method (svc ∷ []) = inr (svc, [])
method_of full_method (svc ∷ method ∷ []) = inr (svc, method)
method_of full_method _ = inl full_method

-- `SplitMethod`
unfoldable pub split_method : Text → Text ⊎ (Text × Text)
unfolding split_colons
split_method full_method = method_of full_method (split_colons full_method)

-- `compile.ServiceSpec`: a name and functions, and perhaps a parent.
pub data ServiceSpec : Type 0 where
  service : Text → Assoc Text FunctionSpec → ServiceSpec
  service_of : Text → Assoc Text FunctionSpec → ServiceSpec → ServiceSpec

-- `compile.Module`: the names of its services, and `LookupService`.
pub record Module : Type 0 where
  pub services : List Text
  pub lookup_service : Text → Option ServiceSpec

abbrev service_name : ServiceSpec → Text
service_name (service name fs) = name
service_name (service_of name fs parent) = name

-- `Parse`
unfoldable pub parse : (Text → Text ⊎ Module) → Text → Text ⊎ Module
parse compile file = elim (compile file) [
  | inr m ↦ inr m
  | inl e ↦ elim (compile (file ++ codes ".thrift")) [ inr m ↦ inr m | inl e' ↦ inl e ]
]

-- The first loop of `findMethod`.
unfoldable pub find_function : ServiceSpec → Text → Option FunctionSpec
find_function (service name fs) method = lookup method fs
find_function (service_of name fs parent) method =
    let inherited = find_function parent method in
    elim (lookup method fs) as (λ _. Option FunctionSpec) [ some f ↦ some f | none ↦ inherited ]

-- The second loop of `findMethod`.
unfoldable pub available : Text → ServiceSpec → List Text
available svc (service name fs) = map (λ f. svc ++ (codes "::" ++ f.0)) fs
available svc (service_of name fs parent) =
    map (λ f. svc ++ (codes "::" ++ f.0)) fs ++ available svc parent

pub data ThriftError : Type 0 where
  specify_thrift_file : ThriftError
  missing_file : Text → ThriftError
  not_parsed : Text → ThriftError
  invalid_method : Text → ThriftError
  service_not_found : Text → (known : List Text) → ThriftError
  method_not_found : (method look_in : Text) → (known : List Text) → ThriftError

-- `findService`
unfoldable pub find_service : Module → Text → ThriftError ⊎ ServiceSpec
find_service parsed svc_name = elim (parsed.lookup_service svc_name) [
  | some s ↦ inr s
  | none ↦ inl (service_not_found svc_name parsed.services)
]

-- `findMethod`
unfoldable pub find_method : ServiceSpec → Text → ThriftError ⊎ FunctionSpec
unfolding find_function available
find_method s method_name = elim (find_function s method_name) [
  | some f ↦ inr f
  | none ↦ inl (method_not_found method_name (service_name s) (available (service_name s) s))
]

-- `thriftSerializer`
pub record ThriftSerializer : Type 0 where
  pub method_name : Text
  pub spec : FunctionSpec
  pub opts : Options

infixl 5 ◌>>◌
abbrev ◌>>◌ : {E A B : Type 0} → E ⊎ A → (A → E ⊎ B) → E ⊎ B
inl e >> f = inl e
inr a >> f = f a

abbrev or_error : {E F A : Type 0} → (E → F) → E ⊎ A → F ⊎ A
or_error g (inl e) = inl (g e)
or_error g (inr a) = inr a

abbrev thrift_options : ThriftParams → Text → Options
thrift_options p svc = record {
  use_envelopes = p.envelope;
  envelope_method_prefix = if p.multiplexed then svc ++ codes ":" else [];
  base64_response_envelope = p.base64_response_envelope;
}

module _ (is_file_missing : Text → Bool) (compile : Text → Text ⊎ Module) where
  abbrev checked_file : Text → ThriftError ⊎ Text
  checked_file file =
      if file == []
      then inl specify_thrift_file
      else if is_file_missing file
      then inl (missing_file file)
      else inr file

  -- `NewThrift`
  unfoldable pub new_thrift : ThriftParams → ThriftError ⊎ ThriftSerializer
  unfolding parse split_method find_service find_method
  new_thrift p = checked_file p.file >> λ file.
      or_error (λ e. not_parsed e) (parse compile file) >> λ parsed.
      or_error (λ e. invalid_method e) (split_method p.method) >> λ names.
      find_service parsed names.0 >> λ s. find_method s names.1 >> λ f.
      inr (record { method_name = p.method; spec = f; opts = thrift_options p names.0 })

pub data RequestError : Type 0 where
  not_yaml : Text → RequestError
  not_wire : WireError → RequestError
  not_encoded : Text → RequestError

abbrev of_encoded : Text ⊎ Text → Outcome RequestError Text
of_encoded (inl e) = fail (not_encoded e)
of_encoded (inr bs) = done bs

abbrev of_unmarshalled : Text ⊎ Fields → Outcome RequestError Fields
of_unmarshalled (inl e) = fail (not_yaml e)
of_unmarshalled (inr m) = done m

module _ (float_eq : ℕ → ℕ → Bool) (encode : Wire → Text ⊎ Text)
    (encode_enveloped : Text → Wire → Text ⊎ Text)
    (to_wire : TypeSpec → Value → Outcome WireError Wire) where
  -- `RequestToBytes`: the arguments are a group of fields, and no union. `to_wire` is `toWireValue`.
  unfoldable pub request_to_bytes : FunctionSpec → Fields → Options → Outcome RequestError Text
  request_to_bytes method request opts = do
    fs ← map_fail (λ e. not_wire e) (field_group_to_value to_wire float_eq method.args_spec request)
    of_encoded (
        if opts.use_envelopes
        then encode_enveloped (opts.envelope_method_prefix ++ method.name) (wire_struct fs)
        else encode (wire_struct fs))

  -- `thriftSerializer.Request`: the method and the body of the request.
  unfoldable pub thrift_request :
      (Text → Text ⊎ Fields) → ThriftSerializer → Text → Outcome RequestError (Text × Text)
  unfolding request_to_bytes
  thrift_request unmarshal e input = do
    req_map ← of_unmarshalled (unmarshal input)
    req_bytes ← request_to_bytes e.spec req_map e.opts
    done (e.method_name, req_bytes)
