-- ===== src/Thrift/ToWire.antt =====
-- thrift/to_wire.go: a decoded request as a Thrift value of a given type.
--
-- The conversion follows the value, but a default or a key that is decoded from a string starts anew: so
-- it takes fuel, one unit for each level.
pub mod Sorted
pub mod Parts
pub mod Typed
pub mod Ids
pub mod Answered
pub mod Fuel
pub mod Containers
pub mod Ended
use yab.Prelude.{
  ℕ, zero, suc, Bool, true, false, not, ◌&&◌, List, [], ◌∷◌, ◌++◌, Option, none, some, ◌⊎◌, inl,
  inr, Text, codes, ◌==◌, nat_comparable, text_comparable, if◌then◌else◌, map,
}
use yab.Prelude.Assoc.{Assoc, lookup, insert}
use yab.Prelude.Int.{ℤ, ltb_ℤ}
use yab.Value.{
  Value, nil, bool, int, int8, int16, int32, int64, uint64, float32, float64, string, bytes, list,
  mapping, object, Values, end, item, Entries, no_entries, entry, Fields, no_fields, field, is_nil,
}
use yab.ThriftTypes.{ParseError, parse_bool, parse_int, parse_double, parse_binary}
use yab.Thrift.{
  Outcome, done, fail, crash, out_of_fuel, ◌>>=◌, map_fail, EnumSpec, TypeSpec, bool_spec, i8_spec,
  i16_spec, i32_spec, i64_spec, double_spec, string_spec, binary_spec, enum_spec, struct_spec,
  list_spec, set_spec, map_spec, named, FieldSpec, StructSpec, Structs, root_type_spec, type_code,
  Wire, wire_bool, wire_i8, wire_i16, wire_i32, wire_i64, wire_double, wire_binary, wire_struct,
  wire_list, wire_set, wire_map, Wires, no_wires, wire, WireFields, no_wire_fields, wire_field,
  WirePairs, no_wire_pairs, wire_pair,
}
use yab.Thrift.Enum.{EnumError, parse_enum}
use yab.Thrift.Fields.{FieldMaps, get_fields, Given, give, Filled, fill}

pub data WireError : Type 0 where
  bad_value : ParseError → WireError
  bad_enum : EnumError → WireError
  use_map_string use_mapping single_value : WireError
  use_list : Text → WireError
  fields_failed : (missing_required not_found : List Text) → WireError
  item_failed : Text → WireError → WireError
  key_failed : Value → WireError → WireError
  value_failed : Value → Value → WireError → WireError
  in_field : Text → WireError → WireError

abbrev Result : Type 0 → Type 0
Result = Outcome WireError

abbrev of_parse : {A B : Type 0} → (A → B) → ParseError ⊎ A → Result B
of_parse f (inl e) = fail (bad_value e)
of_parse f (inr a) = done (f a)

abbrev of_enum : EnumError ⊎ ℤ → Result Wire
of_enum (inl e) = fail (bad_enum e)
of_enum (inr n) = done (wire_i32 n)

abbrev of_crash : {A : Type 0} → Option A → Result A
of_crash none = crash
of_crash (some a) = done a

-- `structValueMap`: the loop over the entries, and the whole.
unfoldable pub string_keys : Entries → Option Fields
string_keys no_entries = some no_fields
string_keys (entry (string k) v es) = elim (string_keys es) [
  | none ↦ none
  | some fs ↦ some (field k v fs)
]
string_keys (entry _ v es) = none

unfoldable pub struct_value_map : Value → Option Fields
unfolding string_keys
struct_value_map (object m) = some m
struct_value_map (mapping m) = string_keys m
struct_value_map _ = none

-- `convertStringMap`
unfoldable pub convert_string_map : Fields → Entries
convert_string_map no_fields = no_entries
convert_string_map (field k v m) = entry (string k) v (convert_string_map m)

-- `sort.Sort(byFieldID)`; the numbers of the fields of a struct differ.
unfoldable pub insert_by_id : ℤ → Wire → WireFields → WireFields
insert_by_id id w no_wire_fields = wire_field id w no_wire_fields
insert_by_id id w (wire_field id' w' fs) =
    let rest = insert_by_id id w fs in
    if ltb_ℤ id' id then wire_field id' w' rest else wire_field id w (wire_field id' w' fs)

unfoldable pub sort_by_id : WireFields → WireFields
unfolding insert_by_id
sort_by_id no_wire_fields = no_wire_fields
sort_by_id (wire_field id w fs) = insert_by_id id w (sort_by_id fs)

abbrev decoded : Text → Value × Bool → Value
decoded s (v, failed) = if failed then string s else v

-- `convertMapKey`
unfoldable pub convert_map_key : (Text → Value × Bool) → TypeSpec → Value → Value
convert_map_key yaml spec (string s) = if type_code spec == 11 then string s else decoded s (yaml s)
convert_map_key yaml spec v = v

-- The conversion of the parts of a value, by the conversion `to_wire` one level down.
module _ (to_wire : TypeSpec → Value → Result Wire) where
  -- The loop of `listToValue`.
  unfoldable pub items_to_wire : Text → TypeSpec → Values → Result Wires
  items_to_wire t spec end = done no_wires
  items_to_wire t spec (item v vs) = do
    w ← map_fail (item_failed t) (to_wire spec v)
    ws ← items_to_wire t spec vs
    done (wire w ws)

  -- `listToValue`
  unfoldable pub list_to_value : Text → TypeSpec → Value → Result Wires
  unfolding items_to_wire
  list_to_value t spec (list vs) = items_to_wire t spec vs
  list_to_value t spec _ = fail (use_list t)

  -- The loop of `fieldsMapToValue`.
  unfoldable pub fields_to_wire : Assoc Text FieldSpec → Assoc Text Value → Result WireFields
  fields_to_wire fields [] = done no_wire_fields
  fields_to_wire fields ((k, user_value) ∷ user_fields) = do
    spec ← of_crash (lookup k fields)
    value ← to_wire spec.spec user_value
    rest ← fields_to_wire fields user_fields
    done (wire_field spec.id value rest)

  module _ (float_eq : ℕ → ℕ → Bool) where
    -- The end of `fieldGroupToValue`.
    unfoldable pub finish_fields : FieldMaps → List Text → Filled → Result WireFields
    unfolding fields_to_wire sort_by_id
    finish_fields m [] r = elim r.missing_required [
      | [] ↦ do fs ← fields_to_wire m.exact r.user_fields; done (sort_by_id fs)
      | k ∷ ks ↦ fail (fields_failed (k ∷ ks) [])
    ]
    finish_fields m (n ∷ not_found) r = fail (fields_failed r.missing_required (n ∷ not_found))

    -- `fieldGroupToValue`
    unfoldable pub field_group_to_value : List FieldSpec → Fields → Result WireFields
    unfolding finish_fields get_fields give fill
    field_group_to_value fs request =
        let m = get_fields fs in
        let g = give m request (record { user_fields = []; not_found = [] }) in
        do
          r ← of_crash (
              fill float_eq m.exact (record { user_fields = g.user_fields; missing_required = [] }))
          finish_fields m g.not_found r

    abbrev struct_fields : StructSpec → Option Fields → Result WireFields
    struct_fields s none = fail use_map_string
    struct_fields s (some m) = field_group_to_value s.fields m

    -- `checkStructValue`
    abbrev check_struct_value : StructSpec → WireFields → Result Wire
    check_struct_value s no_wire_fields =
        if s.is_union then fail single_value else done (wire_struct no_wire_fields)
    check_struct_value s (wire_field i w no_wire_fields) =
        done (wire_struct (wire_field i w no_wire_fields))
    check_struct_value s (wire_field i w (wire_field j x fs)) =
        if s.is_union
        then fail single_value
        else done (wire_struct (wire_field i w (wire_field j x fs)))

    -- `structToValue`, and the check behind it
    unfoldable pub struct_to_value : StructSpec → Value → Result Wire
    unfolding struct_value_map field_group_to_value
    struct_to_value s v = do fs ← struct_fields s (struct_value_map v); check_struct_value s fs

  module _ (yaml : Text → Value × Bool) where
    -- The loop of `mapToValue`.
    unfoldable pub entries_to_wire : TypeSpec → TypeSpec → Entries → Result WirePairs
    unfolding convert_map_key
    entries_to_wire ks vs no_entries = done no_wire_pairs
    entries_to_wire ks vs (entry k v es) =
        let converted = do
          kw ← map_fail (key_failed k) (to_wire ks (convert_map_key yaml ks k))
          vw ← map_fail (value_failed v k) (to_wire vs v)
          rest ← entries_to_wire ks vs es
          done (wire_pair kw vw rest)
        in let skipped = entries_to_wire ks vs es in if is_nil v then skipped else converted

    -- `mapToValue`
    unfoldable pub map_to_value : TypeSpec → TypeSpec → Value → Result WirePairs
    unfolding entries_to_wire convert_string_map
    map_to_value ks vs (mapping es) = entries_to_wire ks vs es
    map_to_value ks vs (object m) = entries_to_wire ks vs (convert_string_map m)
    map_to_value ks vs _ = fail use_mapping

-- What the code takes from other packages: the name that thriftrw gives a type, Go's `==` on floats
-- and `float64` of an integer, the YAML decoder with whether it reports an error, base64, reading a
-- file, and `fmt.Sprint` of a scalar.
pub record Runtime : Type 0 where
  pub thrift_name : TypeSpec → Text
  pub float_eq : ℕ → ℕ → Bool
  pub float_of : ℤ → ℕ
  pub yaml : Text → Value × Bool
  pub decode_base64 : Text → Text ⊎ Text
  pub read_file : Text → Text ⊎ Text
  pub sprint : Value → Text

module _ (structs : Structs) (rt : Runtime) where
  abbrev to_binary : Value → Result Wire
  to_binary v = of_parse wire_binary (parse_binary rt.decode_base64 rt.read_file rt.sprint v)

  -- The cases of `toWireValue`, with the conversion one level down.
  unfoldable pub root_to_wire : (TypeSpec → Value → Result Wire) → TypeSpec → Value → Result Wire
  unfolding list_to_value map_to_value struct_to_value
  root_to_wire to_wire bool_spec v = of_parse wire_bool (parse_bool v)
  root_to_wire to_wire i8_spec v = of_parse wire_i8 (parse_int v 8)
  root_to_wire to_wire i16_spec v = of_parse wire_i16 (parse_int v 16)
  root_to_wire to_wire i32_spec v = of_parse wire_i32 (parse_int v 32)
  root_to_wire to_wire (enum_spec e) v = of_enum (parse_enum e v)
  root_to_wire to_wire i64_spec v = of_parse wire_i64 (parse_int v 64)
  root_to_wire to_wire double_spec v = of_parse wire_double (parse_double rt.float_of v)
  root_to_wire to_wire string_spec v = to_binary v
  root_to_wire to_wire binary_spec v = to_binary v
  root_to_wire to_wire (struct_spec k) v = struct_to_value to_wire rt.float_eq (structs k) v
  root_to_wire to_wire (list_spec s) v = do
    ws ← list_to_value to_wire (codes "list") s v
    done (wire_list (type_code s) ws)
  root_to_wire to_wire (set_spec s) v = do
    ws ← list_to_value to_wire (codes "set") s v
    done (wire_set (type_code s) ws)
  root_to_wire to_wire (map_spec k s) v = do
    ps ← map_to_value to_wire rt.yaml k s v
    done (wire_map (type_code k) (type_code s) ps)
  root_to_wire to_wire (named n s) v = crash

  -- `toWireValue`
  unfoldable pub to_wire_value : ℕ → TypeSpec → Value → Result Wire
  unfolding root_to_wire
  to_wire_value zero spec v = out_of_fuel
  to_wire_value (suc fuel) spec v =
      map_fail (in_field (rt.thrift_name (root_type_spec spec)))
        (root_to_wire (to_wire_value fuel) (root_type_spec spec) v)
