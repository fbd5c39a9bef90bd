-- ===== src/Thrift/Response.antt =====
-- thrift/response.go and thrift/options.go: what a response of a Thrift method holds.
--
-- The Thrift binary protocol is a parameter: `decode` reads a struct, `read_reply` a reply in an envelope.
pub mod Success
use yab.Prelude.{
  Bool, true, false, List, [], ◌∷◌, ◌++◌, Option, none, some, ◌⊎◌, inl, inr, ◌≡◌, Text, codes, ◌==◌,
  text_comparable, if◌then◌else◌,
}
use yab.Prelude.Assoc.{Assoc, lookup, insert}
use yab.Prelude.Int.{ℤ, pos, int_comparable}
use yab.Value.{Value}
use yab.Thrift.{
  Outcome, done, fail, crash, out_of_fuel, ◌>>=◌, map_fail, TypeSpec, FieldSpec, Structs, Wire,
  wire_struct, WireFields, no_wire_fields, wire_field,
}
use yab.Thrift.Typing.{get_field_map}
use yab.Thrift.FromWire.{MismatchError, value_from_wire}

-- `thrift.Options`
pub record Options : Type 0 where
  pub use_envelopes : Bool
  pub envelope_method_prefix : Text
  pub base64_response_envelope : Bool

-- `compile.ResultSpec` and `compile.FunctionSpec`
pub record ResultSpec : Type 0 where
  pub return_type : Option TypeSpec
  pub exceptions : List FieldSpec

pub record FunctionSpec : Type 0 where
  pub name : Text
  pub args_spec : List FieldSpec
  pub result_spec : Option ResultSpec

pub data ResponseError : Type 0 where
  encoded_exception : Text → ResponseError
  cannot_parse_struct : Text → ResponseError
  unexpected_result : Wire → ResponseError
  unknown_exception : ℤ → Wire → ResponseError
  result_field : ℤ → MismatchError → ResponseError

-- The errors of `CheckSuccess`.
pub data Unsuccessful : Type 0 where
  encoded_exception : Text → Unsuccessful
  not_deserialized : ResponseError → Unsuccessful
  void_got_result : WireFields → Unsuccessful
  void_got_exception : Text → Unsuccessful
  not_one_field : WireFields → Unsuccessful
  got_exception : Text → Unsuccessful

-- Nothing, or why the response is no success.
abbrev pub Check : Type 0
Check = Outcome {0} Unsuccessful Unit

abbrev pub return_type_of : FunctionSpec → Option TypeSpec
return_type_of spec = elim spec.result_spec [ none ↦ none | some r ↦ r.return_type ]

abbrev pub exceptions_of : FunctionSpec → List FieldSpec
exceptions_of spec = elim spec.result_spec [ none ↦ [] | some r ↦ r.exceptions ]

-- The exception of `checkException`, by its number.
unfoldable pub find_exception : ℤ → List FieldSpec → Option FieldSpec
find_exception id [] = none
find_exception id (ex ∷ exs) =
    let rest = find_exception id exs in if ex.id == id then some ex else rest

-- `wrapSerializeException`
abbrev wrap_serialize_exception : ResponseError → Unsuccessful
wrap_serialize_exception (encoded_exception e) = encoded_exception e
wrap_serialize_exception e = not_deserialized e

abbrev struct_of : Wire → Outcome ResponseError WireFields
struct_of (wire_struct fs) = done fs
struct_of w = crash

abbrev struct_or : (Text → ResponseError) → Text ⊎ Wire → Outcome ResponseError WireFields
struct_or g (inl e) = fail (g e)
struct_or g (inr w) = struct_of w

module _ (thrift_name : TypeSpec → Text) where
  -- `checkException`
  unfoldable pub check_exception : FunctionSpec → ℤ → Text
  unfolding find_exception
  check_exception spec field_id = elim (exceptions_of spec) [
    | [] ↦ codes "unknown, method has no exceptions"
    | ex ∷ exs ↦ elim (find_exception field_id (ex ∷ exs)) [
      | none ↦ codes "unknown"
      | some e ↦ e.name ++ (codes " " ++ thrift_name e.spec)
    ]
  ]

  -- The check of a method that returns nothing, and of one that returns a value.
  unfoldable pub check_void : FunctionSpec → WireFields → Check
  unfolding check_exception
  check_void spec no_wire_fields = done tt
  check_void spec (wire_field id w fs) =
      if id == pos 0
      then fail (void_got_result (wire_field id w fs))
      else fail (void_got_exception (check_exception spec id))

  unfoldable pub check_return : FunctionSpec → WireFields → Check
  unfolding check_exception
  check_return spec (wire_field id w no_wire_fields) =
      if id == pos 0 then done tt else fail (got_exception (check_exception spec id))
  check_return spec fs = fail (not_one_field fs)

  abbrev check_fields : FunctionSpec → Option TypeSpec → WireFields → Check
  check_fields spec none fs = check_void spec fs
  check_fields spec (some t) fs = check_return spec fs

module _ (decode read_reply : Text → Text ⊎ Wire) where
  -- `responseBytesToWire`
  unfoldable pub response_bytes_to_wire : Text → Options → Outcome ResponseError WireFields
  response_bytes_to_wire response_bytes opts =
      if opts.use_envelopes
      then struct_or (λ e. encoded_exception e) (read_reply response_bytes)
      else struct_or (λ e. cannot_parse_struct e) (decode response_bytes)

  -- `CheckSuccess`
  unfoldable pub check_success : (TypeSpec → Text) → FunctionSpec → Text → Options → Check
  unfolding response_bytes_to_wire check_void check_return
  check_success thrift_name spec response_bytes opts = do
    fs ← map_fail wrap_serialize_exception (response_bytes_to_wire response_bytes opts)
    check_fields thrift_name spec (return_type_of spec) fs

  module _ (read_value : Bool → TypeSpec → Wire → Outcome MismatchError Value) where
    -- The value of a field of the response, with its name.
    unfoldable pub read_field :
        FunctionSpec → Options → ℤ → Wire → Outcome ResponseError (Text × Value)
    read_field spec opts id w =
        let result : Outcome ResponseError (Text × Value) = elim (return_type_of spec) [
          | none ↦ fail (unexpected_result w)
          | some t ↦ do
            v ← map_fail (result_field id) (read_value opts.base64_response_envelope t w)
            done (codes "result", v)
        ] in
        let exception : Outcome ResponseError (Text × Value) =
          elim (lookup id (get_field_map (exceptions_of spec))) [
            | none ↦ fail (unknown_exception id w)
            | some ex ↦ do
              v ← map_fail (result_field id) (read_value opts.base64_response_envelope ex.spec w)
              done (ex.name, v)
          ] in
        if id == pos 0 then result else exception

    -- The loop of `ResponseBytesToMap`, with the result so far.
    unfoldable pub read_fields :
        FunctionSpec
        → Options
        → Assoc Text Value
        → WireFields
        → Outcome ResponseError (Assoc Text Value)
    unfolding read_field
    read_fields spec opts result no_wire_fields = done result
    read_fields spec opts result (wire_field id w fs) = do
      named_value ← read_field spec opts id w
      read_fields spec opts (insert named_value.0 named_value.1 result) fs

    -- `ResponseBytesToMap`; `read_value` is `valueFromWire` with its option.
    unfoldable pub response_bytes_to_map :
        FunctionSpec → Text → Options → Outcome ResponseError (Assoc Text Value)
    unfolding response_bytes_to_wire read_fields
    response_bytes_to_map spec response_bytes opts = do
      fs ← response_bytes_to_wire response_bytes opts
      read_fields spec opts [] fs
