-- ===== src/Thrift/ToWire/Ended.antt =====
-- Enough fuel for `toWireValue`.
use yab.Prelude.{
  ℕ, zero, suc, Bool, List, [], ◌∷◌, ◌++◌, Option, none, some, Text, codes, ◌≡◌, inl, inr, All,
  nat_comparable, text_comparable, Bool-cases, Option-cases,
}
use yab.Prelude.Assoc.{Assoc, lookup}
use yab.Value.{
  Value, string, mapping, object, Entries, no_entries, entry, Fields, no_fields, field, is_nil,
}
use yab.Thrift.{
  Outcome, ◌>>=◌, TypeSpec, bool_spec, i8_spec, i16_spec, i32_spec, i64_spec, double_spec,
  string_spec, binary_spec, enum_spec, struct_spec, list_spec, set_spec, map_spec, named, FieldSpec,
  StructSpec, Structs, root_type_spec, Wire, WireFields, no_wire_fields, wire_field,
}
use yab.Thrift.Fields.{
  FieldMaps, exact_key, get_fields, get_field, Given, give_field, give, Filled, fill_field, fill,
}
use yab.Thrift.Typing.{AllValues, insert-AllValues, index_from-AllValues}
use yab.Thrift.ToWire.{
  WireError, of_crash, string_keys, struct_value_map, fields_to_wire, finish_fields,
  field_group_to_value, struct_fields, check_struct_value, struct_to_value, Runtime, root_to_wire,
  to_wire_value,
}
use yab.Thrift.ToWire.Fuel.{
  FitEntries, FitFields, FitParts, Fits, IsEnded, IsEnded-bind, IsEnded-map_fail, IsEnded-done,
  IsEnded-fail, IsEnded-of_crash, IsEnded-of_parse, IsEnded-of_enum,
}
use yab.Thrift.ToWire.Containers.{list_to_value-IsEnded, map_to_value-IsEnded}

module _ (P : Value → Type 0) (yaml : Text → Value × Bool) where
  abbrev FitOption : Option Fields → Type 0
  FitOption none = Unit
  FitOption (some m) = FitFields yaml P m

  string_keys-fits : (es : Entries) → FitEntries yaml P es → FitOption (string_keys es)
  unfolding string_keys
  string_keys-fits no_entries h = tt
  string_keys-fits (entry (string k) v es) (hk, hv, hs) =
      add (string_keys es) (string_keys-fits es hs)
    where
      add :
          (o : Option Fields)
          → FitOption o
          → FitOption
              (elim o as (λ _. Option Fields) [ none ↦ none | some fs ↦ some (field k v fs) ])
      add none h = tt
      add (some fs) h = (hk, hv, h)
  string_keys-fits (entry _ v es) h = tt

  struct_value_map-fits : (v : Value) → FitParts yaml P v → FitOption (struct_value_map v)
  unfolding struct_value_map
  struct_value_map-fits (object m) h = h
  struct_value_map-fits (mapping es) h = string_keys-fits es h
  struct_value_map-fits _ h = tt

-- The parts of a value, where the conversion one level down ends for values with a property.
module _ (P : Value → Type 0) (to_wire : TypeSpec → Value → Outcome WireError Wire)
    (ended : (s : TypeSpec) (v : Value) → P v → IsEnded (to_wire s v)) where
  give_field-AllFit :
      (k : Text) (v : Value) (g : Given) (o : Option FieldSpec)
      → P v
      → AllValues P g.user_fields
      → AllValues P (give_field k v g o).user_fields
  give_field-AllFit k v g none h hs = hs
  give_field-AllFit k v g (some f) h hs = elim (Bool-cases (is_nil v)) [
    | inl e ↦ rw e hs
    | inr e ↦ rw e (insert-AllValues P f.name v g.user_fields h hs)
  ]

  give-AllFit :
      (yaml : Text → Value × Bool) (m : FieldMaps) (request : Fields) (g : Given)
      → FitFields yaml P request
      → AllValues P g.user_fields
      → AllValues P (give m request g).user_fields
  unfolding give
  give-AllFit yaml m no_fields g h hs = hs
  give-AllFit yaml m (field k v request) g (hk, hv, h) hs =
      give-AllFit yaml m request (give_field k v g (get_field m k)) h
        (give_field-AllFit k v g (get_field m k) hv hs)

  fields_to_wire-IsEnded :
      (fields : Assoc Text FieldSpec) (us : Assoc Text Value)
      → AllValues P us
      → IsEnded (fields_to_wire to_wire fields us)
  unfolding fields_to_wire
  fields_to_wire-IsEnded fields [] h = IsEnded-done _
  fields_to_wire-IsEnded fields ((k, v) ∷ us) (h, hs) =
      IsEnded-bind _ _ (IsEnded-of_crash (lookup k fields)) λ f.
        IsEnded-bind _ _ (ended f.spec v h)
          λ w. IsEnded-bind _ _ (fields_to_wire-IsEnded fields us hs) λ ws. IsEnded-done _

  -- What the loop over the fields leaves, if it does not panic.
  abbrev FilledFit : Option Filled → Type 0
  FilledFit none = Unit
  FilledFit (some r) = AllValues P r.user_fields

  fill-AllValues :
      (float_eq : ℕ → ℕ → Bool) (fields : Assoc Text FieldSpec) (r : Filled)
      → AllValues (λ f. f.fallback ≡ none) fields
      → AllValues P r.user_fields
      → FilledFit (fill float_eq fields r)
  unfolding fill fill_field
  fill-AllValues float_eq [] r plain h = h
  fill-AllValues float_eq ((k, f) ∷ fields) r (plain, plains) h =
      elim (Option-cases (lookup f.name r.user_fields)) [
        | inr (v, e) ↦ rw (fill, e) (fill-AllValues float_eq fields r plains h)
        | inl e ↦ elim (Bool-cases f.required) [
          | inl required ↦
              rw (fill, fill_field, e, plain, required)
                (fill-AllValues float_eq fields
                  (record r { missing_required = r.missing_required ++ k ∷ [] }) plains h)
          | inr optional ↦
              rw (fill, fill_field, e, plain, optional) (fill-AllValues float_eq fields r plains h)
        ]
      ]

  finish_fields-IsEnded :
      (float_eq : ℕ → ℕ → Bool) (m : FieldMaps) (not_found missing : List Text)
      (us : Assoc Text Value)
      → AllValues P us
      → IsEnded (
          finish_fields to_wire float_eq m not_found
            (record { user_fields = us; missing_required = missing }))
  unfolding finish_fields
  finish_fields-IsEnded float_eq m (n ∷ ns) missing us h = IsEnded-fail _ _
  finish_fields-IsEnded float_eq m [] (k ∷ ks) us h = IsEnded-fail _ _
  finish_fields-IsEnded float_eq m [] [] us h =
      IsEnded-bind _ _ (fields_to_wire-IsEnded m.exact us h) λ ws. IsEnded-done _

  finish-IsEnded :
      (float_eq : ℕ → ℕ → Bool) (m : FieldMaps) (not_found : List Text) (o : Option Filled)
      → FilledFit o
      → IsEnded (of_crash o >>= λ r. finish_fields to_wire float_eq m not_found r)
  finish-IsEnded float_eq m not_found none h = IsEnded-of_crash {A = WireFields} none
  finish-IsEnded float_eq m not_found (some r) h =
      finish_fields-IsEnded float_eq m not_found r.missing_required r.user_fields h

  struct_fields-IsEnded :
      (yaml : Text → Value × Bool) (float_eq : ℕ → ℕ → Bool) (s : StructSpec) (o : Option Fields)
      → All (λ f. f.fallback ≡ none) s.fields
      → FitOption P yaml o
      → IsEnded (struct_fields to_wire float_eq s o)
  unfolding field_group_to_value get_fields
  struct_fields-IsEnded yaml float_eq s none plain h = IsEnded-fail _ _
  struct_fields-IsEnded yaml float_eq s (some request) plain h =
      let m : FieldMaps = get_fields s.fields in
      let g : Given = give m request (record { user_fields = []; not_found = [] }) in
      let start : Filled = record { user_fields = g.user_fields; missing_required = [] } in
      finish-IsEnded float_eq m g.not_found (fill float_eq m.exact start) (
        fill-AllValues float_eq m.exact start
          (index_from-AllValues (λ f. f.fallback ≡ none) exact_key s.fields [] plain tt)
          (give-AllFit yaml m request (record { user_fields = []; not_found = [] }) h tt))

  check_struct_value-IsEnded :
      (float_eq : ℕ → ℕ → Bool) (s : StructSpec) (ws : WireFields)
      → IsEnded (check_struct_value to_wire float_eq s ws)
  check_struct_value-IsEnded float_eq s no_wire_fields = elim (Bool-cases s.is_union) [
    | inl e ↦ rw e (IsEnded-fail _ _)
    | inr e ↦ rw e (IsEnded-done _)
  ]
  check_struct_value-IsEnded float_eq s (wire_field i w no_wire_fields) = IsEnded-done _
  check_struct_value-IsEnded float_eq s (wire_field i w (wire_field j x ws)) =
      elim (Bool-cases s.is_union) [
        | inl e ↦ rw e (IsEnded-fail _ _)
        | inr e ↦ rw e (IsEnded-done _)
      ]

  struct_to_value-IsEnded :
      (yaml : Text → Value × Bool) (float_eq : ℕ → ℕ → Bool) (s : StructSpec) (v : Value)
      → All (λ f. f.fallback ≡ none) s.fields
      → FitParts yaml P v
      → IsEnded (struct_to_value to_wire float_eq s v)
  unfolding struct_to_value
  struct_to_value-IsEnded yaml float_eq s v plain h =
      IsEnded-bind _ _
        (struct_fields-IsEnded yaml float_eq s (struct_value_map v) plain
          (struct_value_map-fits P yaml v h))
        λ ws. check_struct_value-IsEnded float_eq s ws

  root_to_wire-IsEnded :
      (structs : Structs) (rt : Runtime) (s : TypeSpec) (v : Value)
      → ((k : ℕ) → All (λ f. f.fallback ≡ none) (structs k).fields)
      → FitParts rt.yaml P v
      → IsEnded (root_to_wire structs rt to_wire s v)
  unfolding root_to_wire
  root_to_wire-IsEnded structs rt bool_spec v plain h = IsEnded-of_parse _ _
  root_to_wire-IsEnded structs rt i8_spec v plain h = IsEnded-of_parse _ _
  root_to_wire-IsEnded structs rt i16_spec v plain h = IsEnded-of_parse _ _
  root_to_wire-IsEnded structs rt i32_spec v plain h = IsEnded-of_parse _ _
  root_to_wire-IsEnded structs rt (enum_spec e) v plain h = IsEnded-of_enum _
  root_to_wire-IsEnded structs rt i64_spec v plain h = IsEnded-of_parse _ _
  root_to_wire-IsEnded structs rt double_spec v plain h = IsEnded-of_parse _ _
  root_to_wire-IsEnded structs rt string_spec v plain h = IsEnded-of_parse _ _
  root_to_wire-IsEnded structs rt binary_spec v plain h = IsEnded-of_parse _ _
  root_to_wire-IsEnded structs rt (struct_spec k) v plain h =
      struct_to_value-IsEnded rt.yaml rt.float_eq (structs k) v (plain k) h
  root_to_wire-IsEnded structs rt (list_spec s) v plain h =
      IsEnded-bind _ _ (list_to_value-IsEnded P to_wire ended rt.yaml (codes "list") s v h)
        λ ws. IsEnded-done _
  root_to_wire-IsEnded structs rt (set_spec s) v plain h =
      IsEnded-bind _ _ (list_to_value-IsEnded P to_wire ended rt.yaml (codes "set") s v h)
        λ ws. IsEnded-done _
  root_to_wire-IsEnded structs rt (map_spec k s) v plain h =
      IsEnded-bind _ _ (map_to_value-IsEnded P to_wire ended rt.yaml k s v h) λ ps. IsEnded-done _
  root_to_wire-IsEnded structs rt (named n s) v plain h = IsEnded-of_crash {A = Wire} none

-- Where no field of a struct has a default, toWireValue comes to an end on every value whose depth is at
-- most the fuel, the texts among the keys of its maps counted as what they are decoded to.
pub to_wire_value-IsEnded :
    (structs : Structs) (rt : Runtime) (fuel : ℕ) (s : TypeSpec) (v : Value)
    → ((k : ℕ) → All (λ f. f.fallback ≡ none) (structs k).fields)
    → Fits rt.yaml fuel v
    → IsEnded (to_wire_value structs rt fuel s v)
unfolding to_wire_value Fits
to_wire_value-IsEnded structs rt zero s v plain h = elim h [ ]
to_wire_value-IsEnded structs rt (suc fuel) s v plain h = IsEnded-map_fail _ _ (
    root_to_wire-IsEnded (Fits rt.yaml fuel) (to_wire_value structs rt fuel)
      (λ s v h. to_wire_value-IsEnded structs rt fuel s v plain h) structs rt (root_type_spec s) v
      plain h)
