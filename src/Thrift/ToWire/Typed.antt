-- ===== src/Thrift/ToWire/Typed.antt =====
-- The type of what `toWireValue` gives.
use yab.Prelude.{ℕ, zero, suc, ◌⊎◌, inl, inr, Text, codes, refl, text_comparable}
use yab.Prelude.Int.{int_comparable}
use yab.Value.{Value}
use yab.ThriftTypes.{ParseError, parse_int, parse_bool, parse_double, parse_binary}
use yab.Thrift.{
  Outcome, TypeSpec, bool_spec, i8_spec, i16_spec, i32_spec, i64_spec, double_spec, string_spec,
  binary_spec, enum_spec, struct_spec, list_spec, set_spec, map_spec, named, Structs,
  root_type_spec, Wire, wire_bool, wire_i8, wire_i16, wire_i32, wire_i64, wire_double, wire_binary,
}
use yab.Thrift.Enum.{parse_enum}
use yab.Thrift.Typing.{
  HasRoot, HaveType, HaveTypes, HasType, Post, Post-bind, Post-map_fail, HaveKeys,
}
use yab.Thrift.ToWire.{WireError, Runtime, root_to_wire, to_wire_value}
use yab.Thrift.ToWire.Parts.{
  of_parse-Post, of_enum-Post, parse_int-FitsInto, list_to_value-HaveType, struct_to_value-HasRoot,
  map_to_value-HaveTypes,
}

module _ (structs : Structs) (to_wire : TypeSpec → Value → Outcome WireError Wire)
    (typed : (s : TypeSpec) (v : Value) → Post (HasType structs s) (to_wire s v)) where
  root_to_wire-HasRoot :
      (rt : Runtime) (s : TypeSpec) (v : Value)
      → ((k : ℕ) → HaveKeys (λ f. f.id) (structs k).fields)
      → Post (HasRoot structs s) (root_to_wire structs rt to_wire s v)
  unfolding root_to_wire
  root_to_wire-HasRoot rt bool_spec v keys =
      of_parse-Post (HasRoot structs bool_spec) wire_bool (parse_bool v) λ a e. refl
  root_to_wire-HasRoot rt i8_spec v keys =
      of_parse-Post (HasRoot structs i8_spec) wire_i8 (parse_int v 8)
        λ a e. (refl, parse_int-FitsInto v 7 a e)
  root_to_wire-HasRoot rt i16_spec v keys =
      of_parse-Post (HasRoot structs i16_spec) wire_i16 (parse_int v 16)
        λ a e. (refl, parse_int-FitsInto v 15 a e)
  root_to_wire-HasRoot rt i32_spec v keys =
      of_parse-Post (HasRoot structs i32_spec) wire_i32 (parse_int v 32)
        λ a e. inl (refl, parse_int-FitsInto v 31 a e)
  root_to_wire-HasRoot rt (enum_spec e) v keys =
      of_enum-Post (HasRoot structs (enum_spec e)) (parse_enum e v) λ n. inr (e, refl)
  root_to_wire-HasRoot rt i64_spec v keys =
      of_parse-Post (HasRoot structs i64_spec) wire_i64 (parse_int v 64)
        λ a e. (refl, parse_int-FitsInto v 63 a e)
  root_to_wire-HasRoot rt double_spec v keys =
      of_parse-Post (HasRoot structs double_spec) wire_double (parse_double rt.float_of v)
        λ a e. refl
  root_to_wire-HasRoot rt string_spec v keys =
      let binary_of : Value → ParseError ⊎ Text =
        parse_binary rt.decode_base64 rt.read_file rt.sprint in
      of_parse-Post (HasRoot structs string_spec) wire_binary (binary_of v) λ a e. inl refl
  root_to_wire-HasRoot rt binary_spec v keys =
      let binary_of : Value → ParseError ⊎ Text =
        parse_binary rt.decode_base64 rt.read_file rt.sprint in
      of_parse-Post (HasRoot structs binary_spec) wire_binary (binary_of v) λ a e. inr refl
  root_to_wire-HasRoot rt (struct_spec k) v keys =
      struct_to_value-HasRoot structs to_wire typed rt.float_eq k v (keys k)
  root_to_wire-HasRoot rt (list_spec s) v keys =
      Post-bind (HaveType structs s) (HasRoot structs (list_spec s)) _ _
        (list_to_value-HaveType structs to_wire typed (codes "list") s v) λ ws h. (s, refl, refl, h)
  root_to_wire-HasRoot rt (set_spec s) v keys =
      Post-bind (HaveType structs s) (HasRoot structs (set_spec s)) _ _
        (list_to_value-HaveType structs to_wire typed (codes "set") s v) λ ws h. (s, refl, refl, h)
  root_to_wire-HasRoot rt (map_spec k s) v keys =
      Post-bind (HaveTypes structs k s) (HasRoot structs (map_spec k s)) _ _
        (map_to_value-HaveTypes structs to_wire typed rt.yaml k s v)
        λ ps h. (k, s, refl, refl, refl, h)
  root_to_wire-HasRoot rt (named n s) v keys = tt

-- If the fields of every struct have different numbers, every Thrift value that toWireValue gives
-- belongs to the type that was asked for: at every depth its kind is the one of the type, integers
-- that are no items of enums lie in the range of theirs, lists, sets and maps carry the wire types of
-- what they hold, the fields of a struct belong to the fields of their numbers and are sorted by
-- number, and a union has one field.
pub to_wire_value-HasType :
    (structs : Structs) (rt : Runtime) (fuel : ℕ) (s : TypeSpec) (v : Value)
    → ((k : ℕ) → HaveKeys (λ f. f.id) (structs k).fields)
    → Post (HasType structs s) (to_wire_value structs rt fuel s v)
unfolding to_wire_value
to_wire_value-HasType structs rt zero s v keys = tt
to_wire_value-HasType structs rt (suc fuel) s v keys = Post-map_fail (HasType structs s) _ _ (
    root_to_wire-HasRoot structs (to_wire_value structs rt fuel)
      (λ s v. to_wire_value-HasType structs rt fuel s v keys) rt (root_type_spec s) v keys)
