-- ===== src/Thrift/FromWire.antt =====
-- thrift/from_wire.go: a Thrift value of a given type as a value of a response.
--
-- `marshal` is `json.Marshal`, `none` where it reports an error. The `map[string][]byte` of an enveloped
-- binary is an object that holds the bytes.
pub mod Reading
pub mod Typed
use yab.Prelude.{
  ℕ, suc, Bool, true, false, List, [], ◌∷◌, Option, none, some, Text, codes, ◌==◌, nat_comparable,
  text_comparable, if◌then◌else◌,
}
use yab.Prelude.Assoc.{Assoc, lookup, insert}
use yab.Prelude.Int.{ℤ, int_comparable}
use yab.Value.{
  Value, nil, bool, int8, int16, int32, int64, float64, string, bytes, list, object, Values, end,
  item, Fields, no_fields, field,
}
use yab.Thrift.{
  Outcome, done, fail, crash, out_of_fuel, ◌>>=◌, map_fail, EnumSpec, TypeSpec, bool_spec, i8_spec,
  i16_spec, i32_spec, i64_spec, double_spec, string_spec, binary_spec, enum_spec, struct_spec,
  list_spec, set_spec, map_spec, named, Constant, FieldSpec, StructSpec, Structs, root_type_spec,
  type_code, Wire, wire_bool, wire_i8, wire_i16, wire_i32, wire_i64, wire_double, wire_binary,
  wire_struct, wire_list, wire_set, wire_map, Wires, no_wires, wire, WireFields, no_wire_fields,
  wire_field, WirePairs, no_wire_pairs, wire_pair, wire_type,
}
use yab.Thrift.Const.{const_to_request}
use yab.Thrift.Enum.{map_enum_value_to_name}
use yab.Thrift.Typing.{get_field_map}

-- The errors of thrift/errors.go for values, and that of a key which cannot be marshalled.
pub data MismatchError : Type 0 where
  type_mismatch : (specified got : ℕ) → MismatchError
  value_mismatch : Text → MismatchError → MismatchError
  list_item_mismatch : ℕ → MismatchError → MismatchError
  map_item_mismatch : Text → MismatchError → MismatchError
  struct_field_mismatch : Text → MismatchError → MismatchError
  marshal_key : Value → MismatchError

abbrev Read : Type 0 → Type 0
Read = Outcome MismatchError

-- `map[string]interface{}`
abbrev pub fields_of : Assoc Text Value → Fields
fields_of [] = no_fields
fields_of ((k, v) ∷ m) = field k v (fields_of m)

module _ (float_eq : ℕ → ℕ → Bool) where
  abbrev put_default : Text → Option Value → Assoc Text Value → Read (Assoc Text Value)
  put_default name none result = crash
  put_default name (some v) result = done (insert name v result)

  -- The defaults of the fields that a struct does not hold.
  unfoldable pub add_defaults : Assoc ℤ FieldSpec → Assoc Text Value → Read (Assoc Text Value)
  unfolding const_to_request
  add_defaults [] result = done result
  add_defaults ((id, f) ∷ specs) result = elim (lookup f.name result) [
    | some v ↦ add_defaults specs result
    | none ↦ elim f.fallback [
      | none ↦ add_defaults specs result
      | some d ↦ do
        filled ← put_default f.name (const_to_request float_eq d) result
        add_defaults specs filled
    ]
  ]

-- An entry of a map: a key that is no text is marshalled.
abbrev put_marshalled : Value → Option Text → Value → Assoc Text Value → Read (Assoc Text Value)
put_marshalled key none value result = fail (marshal_key key)
put_marshalled key (some k) value result = done (insert k value result)

abbrev put_entry :
    (Value → Option Text) → Value → Value → Assoc Text Value → Read (Assoc Text Value)
put_entry marshal (string k) value result = done (insert k value result)
put_entry marshal key value result = put_marshalled key (marshal key) value result

abbrev binary_value : Bool → Text → Value
binary_value binary_envelope bs =
    if binary_envelope then object (field (codes "base64") (bytes bs) no_fields) else bytes bs

module _ (structs : Structs) (thrift_name : TypeSpec → Text) (float_eq : ℕ → ℕ → Bool)
    (marshal : Value → Option Text) (binary_envelope : Bool) where
  -- The check at the head of `valueFromWire`, and the error at its end.
  abbrev checked : TypeSpec → Wire → Read Value → Read Value
  checked spec w r =
      if type_code spec == wire_type w
      then map_fail (value_mismatch (thrift_name (root_type_spec spec))) r
      else fail (type_mismatch (type_code spec) (wire_type w))

  unfoldable mutual
    -- The cases of `valueFromWire`: of `valueFromWireList` with its index, of `valueFromWireMap` and
    -- `valueFromWireStruct` with the result so far.
    pub root_from_wire : TypeSpec → Wire → Read Value
    root_from_wire bool_spec (wire_bool b) = done (bool b)
    root_from_wire i8_spec (wire_i8 n) = done (int8 n)
    root_from_wire i16_spec (wire_i16 n) = done (int16 n)
    root_from_wire i32_spec (wire_i32 n) = done (int32 n)
    root_from_wire (enum_spec e) (wire_i32 n) = done (string (map_enum_value_to_name e n))
    root_from_wire i64_spec (wire_i64 n) = done (int64 n)
    root_from_wire double_spec (wire_double d) = done (float64 d)
    root_from_wire string_spec (wire_binary bs) = done (string bs)
    root_from_wire binary_spec (wire_binary bs) = done (binary_value binary_envelope bs)
    root_from_wire (struct_spec k) (wire_struct fs) = do
      found ← fields_from_wire (get_field_map (structs k).fields) [] fs
      result ← add_defaults float_eq (get_field_map (structs k).fields) found
      done (object (fields_of result))
    root_from_wire (list_spec s) (wire_list c ws) = do vs ← items_from_wire s 0 ws; done (list vs)
    root_from_wire (set_spec s) (wire_set c ws) = do vs ← items_from_wire s 0 ws; done (list vs)
    root_from_wire (map_spec k s) (wire_map c d ps) = do
      result ← pairs_from_wire k s [] ps
      done (object (fields_of result))
    root_from_wire _ _ = crash

    pub items_from_wire : TypeSpec → ℕ → Wires → Read Values
    items_from_wire s i no_wires = done end
    items_from_wire s i (wire w ws) = do
      v ← map_fail (list_item_mismatch i) (checked s w (root_from_wire (root_type_spec s) w))
      vs ← items_from_wire s (suc i) ws
      done (item v vs)

    pub pairs_from_wire :
        TypeSpec → TypeSpec → Assoc Text Value → WirePairs → Read (Assoc Text Value)
    pairs_from_wire k s result no_wire_pairs = done result
    pairs_from_wire k s result (wire_pair x y ps) = do
      key ←
          map_fail (map_item_mismatch (codes "key"))
            (checked k x (root_from_wire (root_type_spec k) x))
      value ←
          map_fail (map_item_mismatch (codes "value"))
            (checked s y (root_from_wire (root_type_spec s) y))
      more ← put_entry marshal key value result
      pairs_from_wire k s more ps

    pub fields_from_wire :
        Assoc ℤ FieldSpec → Assoc Text Value → WireFields → Read (Assoc Text Value)
    fields_from_wire specs result no_wire_fields = done result
    fields_from_wire specs result (wire_field id w fs) = elim (lookup id specs) [
      | none ↦ fields_from_wire specs result fs
      | some f ↦ do
        v ←
            map_fail (struct_field_mismatch f.name)
              (checked f.spec w (root_from_wire (root_type_spec f.spec) w))
        fields_from_wire specs (insert f.name v result) fs
    ]

  -- `valueFromWire`
  unfoldable pub value_from_wire : TypeSpec → Wire → Read Value
  unfolding root_from_wire
  value_from_wire spec w = checked spec w (root_from_wire (root_type_spec spec) w)
