-- ===== src/Thrift/ToWire/Parts.antt =====
-- The types of the parts of what `toWireValue` gives, by those of the conversion one level down.
use yab.Prelude.{
  ℕ, suc, Bool, List, [], ◌∷◌, Option, none, some, ◌⊎◌, inl, inr, Text, ◌≡◌, refl, text_comparable,
  Bool-cases, arith,
}
use yab.Prelude.Assoc.{Assoc, lookup}
use yab.Prelude.Int.{ℤ, int_comparable}
use yab.Value.{
  Value, list, mapping, object, Values, end, item, Entries, no_entries, entry, Fields, is_nil,
}
use yab.ThriftTypes.{ParseError, parse_int}
use yab.ThriftTypes.Ranges.{FitsInto, parse_int_iff}
use yab.Thrift.{
  Outcome, TypeSpec, struct_spec, FieldSpec, StructSpec, Structs, Wire, wire_i32, WireFields,
  no_wire_fields, wire_field,
}
use yab.Thrift.Enum.{EnumError}
use yab.Thrift.Fields.{index_from, exact_key, get_fields, give, Filled, fill}
use yab.Thrift.Typing.{
  HasRoot, HaveType, HaveTypes, HaveFields, HasType, IsAscending, Post, Post-bind, Post-map_fail,
  HaveKeys, MemField-index_from, index_from-MemField, get_field_map,
}
use yab.Thrift.ToWire.{
  WireError, of_parse, of_enum, of_crash, struct_value_map, convert_string_map, items_to_wire,
  list_to_value, fields_to_wire, finish_fields, field_group_to_value, struct_fields,
  check_struct_value, struct_to_value, entries_to_wire, map_to_value, convert_map_key,
}
use yab.Thrift.ToWire.Sorted.{sort_by_id-IsAscending, sort_by_id-HaveFields}

pub of_parse-Post :
    {A : Type 0} (P : Wire → Type 0) (f : A → Wire) (r : ParseError ⊎ A)
    → ((a : A) → r ≡ inr a → P (f a))
    → Post P (of_parse f r)
of_parse-Post P f (inl e) h = tt
of_parse-Post P f (inr a) h = h a refl

pub of_enum-Post :
    (P : Wire → Type 0) (r : EnumError ⊎ ℤ) → ((n : ℤ) → P (wire_i32 n)) → Post P (of_enum r)
of_enum-Post P (inl e) h = tt
of_enum-Post P (inr n) h = h n

pub of_crash-Post :
    {A : Type 0} (P : A → Type 0) (o : Option A)
    → ((a : A) → o ≡ some a → P a)
    → Post P (of_crash o)
of_crash-Post P none h = tt
of_crash-Post P (some a) h = h a refl

pub parse_int-FitsInto : (v : Value) (b : ℕ) (n : ℤ) → parse_int v (suc b) ≡ inr n → FitsInto b n
parse_int-FitsInto v b n h = ((parse_int_iff v b n).0 h).1

-- The parts of a value, where the conversion one level down gives values of its types.
module _ (structs : Structs) (to_wire : TypeSpec → Value → Outcome WireError Wire)
    (typed : (s : TypeSpec) (v : Value) → Post (HasType structs s) (to_wire s v)) where
  items_to_wire-HaveType :
      (t : Text) (s : TypeSpec) (vs : Values)
      → Post (HaveType structs s) (items_to_wire to_wire t s vs)
  unfolding items_to_wire
  items_to_wire-HaveType t s end = tt
  items_to_wire-HaveType t s (item v vs) =
      Post-bind (HasType structs s) (HaveType structs s) _ _
        (Post-map_fail (HasType structs s) _ (to_wire s v) (typed s v))
        λ w h.
          Post-bind (HaveType structs s) (HaveType structs s) _ _ (items_to_wire-HaveType t s vs)
            λ ws hs. (h, hs)

  pub list_to_value-HaveType :
      (t : Text) (s : TypeSpec) (v : Value)
      → Post (HaveType structs s) (list_to_value to_wire t s v)
  unfolding list_to_value
  list_to_value-HaveType t s (list vs) = items_to_wire-HaveType t s vs
  list_to_value-HaveType t s _ = tt

  module _ (yaml : Text → Value × Bool) where
    entries_to_wire-HaveTypes :
        (k s : TypeSpec) (es : Entries)
        → Post (HaveTypes structs k s) (entries_to_wire to_wire yaml k s es)
    unfolding entries_to_wire
    entries_to_wire-HaveTypes k s no_entries = tt
    entries_to_wire-HaveTypes k s (entry j v es) =
        let ih = entries_to_wire-HaveTypes k s es in
        elim (Bool-cases (is_nil v)) [
          | inl e ↦ rw e ih
          | inr e ↦ rw e (
              Post-bind (HasType structs k) (HaveTypes structs k s) _ _
                (Post-map_fail (HasType structs k) _ _ (typed k (convert_map_key yaml k j)))
                λ x hx.
                  Post-bind (HasType structs s) (HaveTypes structs k s) _ _
                    (Post-map_fail (HasType structs s) _ _ (typed s v))
                    λ y hy.
                      Post-bind (HaveTypes structs k s) (HaveTypes structs k s) _ _ ih
                        λ ps hs. (hx, hy, hs))
        ]

    pub map_to_value-HaveTypes :
        (k s : TypeSpec) (v : Value)
        → Post (HaveTypes structs k s) (map_to_value to_wire yaml k s v)
    unfolding map_to_value
    map_to_value-HaveTypes k s (mapping es) = entries_to_wire-HaveTypes k s es
    map_to_value-HaveTypes k s (object m) = entries_to_wire-HaveTypes k s (convert_string_map m)
    map_to_value-HaveTypes k s _ = tt

  fields_to_wire-HaveFields :
      (fs : List FieldSpec) (us : Assoc Text Value)
      → HaveKeys (λ f. f.id) fs
      → Post (HaveFields structs fs) (fields_to_wire to_wire (index_from exact_key fs []) us)
  unfolding fields_to_wire get_field_map lookup
  fields_to_wire-HaveFields fs [] keys = tt
  fields_to_wire-HaveFields fs ((k, v) ∷ us) keys =
      Post-bind (λ f. lookup f.id (get_field_map fs) ≡ some f) (HaveFields structs fs) _ _
        (of_crash-Post (λ f. lookup f.id (get_field_map fs) ≡ some f)
          (lookup k (index_from exact_key fs []))
          λ f found. elim (MemField-index_from exact_key fs [] k f found) [
            | inl e ↦ absurd (ground arith)
            | inr member ↦ index_from-MemField (λ f. f.id) fs [] f keys member
          ])
        λ f at.
          Post-bind (HasType structs f.spec) (HaveFields structs fs) _ _ (typed f.spec v) λ w h.
            Post-bind (HaveFields structs fs) (HaveFields structs fs) _ _
              (fields_to_wire-HaveFields fs us keys) λ ws hs. (f, at, h, hs)

  -- The fields belong to a specification, in the order of their numbers.
  abbrev AreSorted : List FieldSpec → WireFields → Type 0
  AreSorted fs ws = HaveFields structs fs ws × IsAscending ws

  finish_fields-AreSorted :
      (float_eq : ℕ → ℕ → Bool) (fs : List FieldSpec) (not_found missing : List Text)
      (us : Assoc Text Value)
      → HaveKeys (λ f. f.id) fs
      → Post (AreSorted fs) (
          finish_fields to_wire float_eq
            (get_fields fs)
            not_found
            (record { user_fields = us; missing_required = missing }))
  unfolding finish_fields get_fields
  finish_fields-AreSorted float_eq fs (n ∷ ns) missing us keys = tt
  finish_fields-AreSorted float_eq fs [] (k ∷ ks) us keys = tt
  finish_fields-AreSorted float_eq fs [] [] us keys =
      Post-bind (HaveFields structs fs) (AreSorted fs) _ _ (fields_to_wire-HaveFields fs us keys)
        λ ws h. (sort_by_id-HaveFields structs fs ws h, sort_by_id-IsAscending ws)

  field_group_to_value-AreSorted :
      (float_eq : ℕ → ℕ → Bool) (fs : List FieldSpec) (request : Fields)
      → HaveKeys (λ f. f.id) fs
      → Post (AreSorted fs) (field_group_to_value to_wire float_eq fs request)
  unfolding field_group_to_value
  field_group_to_value-AreSorted float_eq fs request keys =
      let m = get_fields fs in
      let g = give m request (record { user_fields = []; not_found = [] }) in
      let filled : Option Filled =
        fill float_eq m.exact (record { user_fields = g.user_fields; missing_required = [] }) in
      Post-bind {E = WireError} (λ r. Unit) (AreSorted fs) (of_crash filled)
        (λ r. finish_fields to_wire float_eq m g.not_found r)
        (of_crash-Post (λ r. Unit) filled λ r e. tt)
        λ r t. finish_fields-AreSorted float_eq fs g.not_found r.missing_required r.user_fields keys

  check_struct_value-HasRoot :
      (float_eq : ℕ → ℕ → Bool) (k : ℕ) (ws : WireFields)
      → AreSorted (structs k).fields ws
      → Post (HasRoot structs (struct_spec k)) (check_struct_value to_wire float_eq (structs k) ws)
  check_struct_value-HasRoot float_eq k no_wire_fields (h, a) =
      elim (Bool-cases (structs k).is_union) [
        | inl e ↦ rw e tt
        | inr e ↦ rw e (k, refl, h, a, inl e)
      ]
  check_struct_value-HasRoot float_eq k (wire_field i w no_wire_fields) (h, a) =
      (k, refl, h, a, inr refl)
  check_struct_value-HasRoot float_eq k (wire_field i w (wire_field j x fs)) (h, a) =
      elim (Bool-cases (structs k).is_union) [
        | inl e ↦ rw e tt
        | inr e ↦ rw e (k, refl, h, a, inl e)
      ]

  struct_fields-AreSorted :
      (float_eq : ℕ → ℕ → Bool) (s : StructSpec) (m : Option Fields)
      → HaveKeys (λ f. f.id) s.fields
      → Post (AreSorted s.fields) (struct_fields to_wire float_eq s m)
  struct_fields-AreSorted float_eq s none keys = tt
  struct_fields-AreSorted float_eq s (some m) keys =
      field_group_to_value-AreSorted float_eq s.fields m keys

  pub struct_to_value-HasRoot :
      (float_eq : ℕ → ℕ → Bool) (k : ℕ) (v : Value)
      → HaveKeys (λ f. f.id) (structs k).fields
      → Post (HasRoot structs (struct_spec k)) (struct_to_value to_wire float_eq (structs k) v)
  unfolding struct_to_value
  struct_to_value-HasRoot float_eq k v keys =
      Post-bind (AreSorted (structs k).fields) (HasRoot structs (struct_spec k)) _ _
        (struct_fields-AreSorted float_eq (structs k) (struct_value_map v) keys)
        λ ws h. check_struct_value-HasRoot float_eq k ws h
