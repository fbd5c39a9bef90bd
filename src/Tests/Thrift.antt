-- ===== src/Tests/Thrift.antt =====
-- thrift/: a request and a response of one struct, and the theorems at them.
use yab.Prelude.{
  ℕ, Bool, true, false, [], ◌∷◌, none, some, ◌⊎◌, inl, inr, ◌≡◌, refl, arith, Text, codes, nat_beq,
  text_beq, text_comparable,
}
use yab.Prelude.Int.{pos, int_comparable}
use yab.Prelude.Assoc.{lookup, insert}
use yab.Value.{Value, int, nil, string, list, object, item, end, Fields, field, no_fields}
use yab.Thrift.{
  Outcome, done, EnumSpec, TypeSpec, i32_spec, string_spec, list_spec, struct_spec, FieldSpec,
  StructSpec, Structs, Wire, wire_i32, wire_binary, wire_list, wire_struct, wire, no_wires,
  WireFields, wire_field, no_wire_fields,
}
use yab.Thrift.Decimal.{itoa, digits}
use yab.ThriftTypes.{parse_binary, parse_int}
use yab.Thrift.Enum.{parse_enum_string, map_enum_value_to_name}
use yab.Thrift.Enum.Names.{parse_enum_string-map_enum_value_to_name}
use yab.Thrift.Fields.{exact_key, get_fields, fuzz}
use yab.Thrift.Typing.{HasType, HaveKeys, Post, get_field_map}
use yab.Thrift.ToWire.{Runtime, to_wire_value, field_group_to_value}
use yab.Thrift.ToWire.Typed.{to_wire_value-HasType}
use yab.Thrift.ToWire.Answered.{HaveRequired, AreAnswered, field_group_to_value-HaveRequired}
use yab.Thrift.ToWire.Fuel.{Fits, IsEnded}
use yab.Thrift.ToWire.Ended.{to_wire_value-IsEnded}
use yab.Thrift.FromWire.{value_from_wire, MismatchError}
use yab.Thrift.FromWire.Reading.{IsRead}
use yab.Thrift.FromWire.Typed.{value_from_wire-IsRead}
use yab.Thrift.Response.{
  Options, FunctionSpec, check_success, response_bytes_to_map, response_bytes_to_wire,
}
use yab.Thrift.Response.Success.{IsResult, response_bytes_to_map-check_success}

abbrev x_field : FieldSpec
x_field = record { id = pos 1; name = codes "x"; spec = i32_spec; required = true; fallback = none }

abbrev tags_field : FieldSpec
tags_field = record {
  id = pos 2;
  name = codes "tags";
  spec = list_spec string_spec;
  required = false;
  fallback = none;
}

abbrev point : StructSpec
point = record { name = codes "Point"; is_union = false; fields = x_field ∷ tags_field ∷ [] }

abbrev points : Structs
points k = point

abbrev runtime : Runtime
runtime = record {
  thrift_name = λ s. codes "type";
  float_eq = nat_beq;
  float_of = λ n. 0;
  yaml = λ s. (nil, true);
  decode_base64 = λ s. inr s;
  read_file = λ s. inr s;
  sprint = λ v. [];
}

abbrev request : Fields
request =
    field (codes "TAGS") (list (item (string (codes "a")) end))
      (field (codes "1") (int (pos 7)) no_fields)

abbrev point_fields : WireFields
point_fields =
    wire_field (pos 1) (wire_i32 (pos 7))
      (wire_field (pos 2) (wire_list 11 (wire (wire_binary (codes "a")) no_wires)) no_wire_fields)

point_is_sent :
    to_wire_value points runtime 3 (struct_spec 0) (object request)
    ≡ done (wire_struct point_fields)
unfolding to_wire_value lookup insert text_beq itoa digits fuzz parse_binary parse_int
point_is_sent = refl

abbrev ids_differ : (k : ℕ) → HaveKeys (λ f. f.id) (points k).fields
ids_differ k = ((λ e. absurd (ground arith), tt), (tt, tt))

abbrev names_differ : HaveKeys exact_key point.fields
names_differ = ((λ e. absurd (ground arith), tt), (tt, tt))

to_wire_value-HasType_example :
    Post
      (HasType points (struct_spec 0))
      (to_wire_value points runtime 3 (struct_spec 0) (object request))
to_wire_value-HasType_example =
    to_wire_value-HasType points runtime 3 (struct_spec 0) (object request) ids_differ

request-Fits : Fits runtime.yaml 3 (object request)
unfolding Fits
request-Fits = ((tt, tt), (tt, tt), ((tt, tt), tt, tt))

to_wire_value-IsEnded_example :
    IsEnded (to_wire_value points runtime 3 (struct_spec 0) (object request))
to_wire_value-IsEnded_example =
    to_wire_value-IsEnded points runtime 3 (struct_spec 0) (object request)
      (λ k. (refl, (refl, tt))) request-Fits

field_group_to_value-HaveRequired_example :
    Post
      (λ ws. HaveRequired point.fields ws × AreAnswered (get_fields point.fields) request ws)
      (field_group_to_value (to_wire_value points runtime 2) nat_beq point.fields request)
field_group_to_value-HaveRequired_example =
    field_group_to_value-HaveRequired (to_wire_value points runtime 2) nat_beq point.fields request
      names_differ

point-HasType : HasType points (struct_spec 0) (wire_struct point_fields)
unfolding get_field_map lookup insert
point-HasType = (
  0,
  refl,
  (
    x_field,
    refl,
    inl (refl, (omega arith, omega arith)),
    (tags_field, refl, (string_spec, refl, refl, (inl refl, tt)), tt),
  ),
  ((omega arith, tt), (tt, tt)),
  inl refl,
)

value_from_wire-IsRead_example : IsRead (
    value_from_wire points runtime.thrift_name nat_beq
      (λ v. none)
      false
      (struct_spec 0)
      (wire_struct point_fields))
value_from_wire-IsRead_example =
    value_from_wire-IsRead points runtime.thrift_name nat_beq (λ v. none) false (struct_spec 0)
      (wire_struct point_fields) (λ k. (tt, (tt, tt))) point-HasType

-- A method that returns a number, with a reply that holds it.
abbrev count_method : FunctionSpec
count_method = record {
  name = codes "count";
  args_spec = [];
  result_spec = some (record { return_type = some i32_spec; exceptions = x_field ∷ [] });
}

abbrev plain_options : Options
plain_options = record {
  use_envelopes = false;
  envelope_method_prefix = [];
  base64_response_envelope = false;
}

abbrev decode_seven : Text → Text ⊎ Wire
decode_seven s = inr (wire_struct (wire_field (pos 0) (wire_i32 (pos 7)) no_wire_fields))

count_succeeds :
    check_success decode_seven decode_seven runtime.thrift_name count_method [] plain_options
    ≡ done tt
unfolding check_success
count_succeeds = refl

abbrev read_point : Bool → TypeSpec → Wire → Outcome MismatchError Value
read_point = value_from_wire points runtime.thrift_name nat_beq (λ v. none)

response_bytes_to_map-check_success_example :
    (fs : WireFields) × (response_bytes_to_wire decode_seven decode_seven [] plain_options
      ≡ done fs)
    × IsResult read_point plain_options
        (some i32_spec)
        fs
        (response_bytes_to_map decode_seven decode_seven read_point count_method [] plain_options)
response_bytes_to_map-check_success_example =
    response_bytes_to_map-check_success decode_seven decode_seven runtime.thrift_name read_point
      count_method [] plain_options count_succeeds

abbrev colours : EnumSpec
colours = record { name = codes "Colour"; items = (codes "RED", pos 1) ∷ [] }

parse_enum_string-map_enum_value_to_name_example :
    parse_enum_string colours (map_enum_value_to_name colours (pos 5)) ≡ inr (pos 5)
parse_enum_string-map_enum_value_to_name_example =
    parse_enum_string-map_enum_value_to_name colours (pos 5) (ground arith) (omega arith)
      (omega arith)
