-- ===== src/Thrift/ToWire/Containers.antt =====
-- Enough fuel for lists, sets and maps.
use yab.Prelude.{Bool, Text, inl, inr, ◌==◌, nat_comparable, text_comparable, Bool-cases}
use yab.Value.{
  Value, string, list, mapping, object, Values, end, item, Entries, no_entries, entry, Fields,
  no_fields, field, is_nil,
}
use yab.Thrift.{Outcome, TypeSpec, type_code, Wire}
use yab.Thrift.ToWire.{
  WireError, convert_string_map, items_to_wire, list_to_value, entries_to_wire, map_to_value,
  convert_map_key,
}
use yab.Thrift.ToWire.Fuel.{
  FitsKey, FitItems, FitEntries, FitFields, FitParts, IsEnded, IsEnded-bind, IsEnded-map_fail,
  IsEnded-done, IsEnded-fail,
}

-- The parts of a value, where the conversion one level down ends for values with a property.
module _ (P : Value → Type 0) (to_wire : TypeSpec → Value → Outcome WireError Wire)
    (ended : (s : TypeSpec) (v : Value) → P v → IsEnded (to_wire s v)) where
  items_to_wire-IsEnded :
      (yaml : Text → Value × Bool) (t : Text) (s : TypeSpec) (vs : Values)
      → FitItems yaml P vs
      → IsEnded (items_to_wire to_wire t s vs)
  unfolding items_to_wire
  items_to_wire-IsEnded yaml t s end h = IsEnded-done _
  items_to_wire-IsEnded yaml t s (item v vs) (h, hs) =
      IsEnded-bind _ _ (IsEnded-map_fail _ (to_wire s v) (ended s v h))
        λ w. IsEnded-bind _ _ (items_to_wire-IsEnded yaml t s vs hs) λ ws. IsEnded-done _

  pub list_to_value-IsEnded :
      (yaml : Text → Value × Bool) (t : Text) (s : TypeSpec) (v : Value)
      → FitParts yaml P v
      → IsEnded (list_to_value to_wire t s v)
  unfolding list_to_value
  list_to_value-IsEnded yaml t s (list vs) h = items_to_wire-IsEnded yaml t s vs h
  list_to_value-IsEnded yaml t s _ h = IsEnded-fail _ _

  module _ (yaml : Text → Value × Bool) where
    convert_map_key-fits :
        (s : TypeSpec) (k : Value) → FitsKey yaml P k → P (convert_map_key yaml s k)
    unfolding convert_map_key
    convert_map_key-fits s (string t) (h, h') = elim (Bool-cases (type_code s == 11)) [
      | inl e ↦ rw e h
      | inr e ↦ rw e h'
    ]
    convert_map_key-fits s _ h = h

    entries_to_wire-IsEnded :
        (k s : TypeSpec) (es : Entries)
        → FitEntries yaml P es
        → IsEnded (entries_to_wire to_wire yaml k s es)
    unfolding entries_to_wire
    entries_to_wire-IsEnded k s no_entries h = IsEnded-done _
    entries_to_wire-IsEnded k s (entry j v es) (hj, hv, hs) =
        let ih = entries_to_wire-IsEnded k s es hs in
        elim (Bool-cases (is_nil v)) [
          | inl e ↦ rw e ih
          | inr e ↦ rw e (
              IsEnded-bind _ _ (IsEnded-map_fail _ _ (ended k _ (convert_map_key-fits k j hj))) λ x.
                IsEnded-bind _ _ (IsEnded-map_fail _ _ (ended s v hv))
                  λ y. IsEnded-bind _ _ ih λ ps. IsEnded-done _)
        ]

    convert_string_map-fits :
        (m : Fields) → FitFields yaml P m → FitEntries yaml P (convert_string_map m)
    unfolding convert_string_map
    convert_string_map-fits no_fields h = tt
    convert_string_map-fits (field k v m) (hk, hv, hs) = (hk, hv, convert_string_map-fits m hs)

    pub map_to_value-IsEnded :
        (k s : TypeSpec) (v : Value) → FitParts yaml P v → IsEnded (map_to_value to_wire yaml k s v)
    unfolding map_to_value
    map_to_value-IsEnded k s (mapping es) h = entries_to_wire-IsEnded k s es h
    map_to_value-IsEnded k s (object m) h =
        entries_to_wire-IsEnded k s (convert_string_map m) (convert_string_map-fits m h)
    map_to_value-IsEnded k s _ h = IsEnded-fail _ _
