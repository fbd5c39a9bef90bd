-- ===== src/Thrift/FromWire/Typed.antt =====
-- Thrift values of the right type are read.
use yab.Prelude.{
  ℕ, suc, Bool, List, [], Option, Text, inl, inr, ◌≡◌, ap, All, nat_comparable, nat_beq_iff,
  text_comparable,
}
use yab.Prelude.Assoc.{Assoc, insert}
use yab.Prelude.Int.{int_comparable}
use yab.Value.{Value}
use yab.Thrift.{
  Outcome, map_fail, TypeSpec, FieldSpec, Structs, root_type_spec, root_code, type_code, Wire,
  wire_bool, wire_i8, wire_i16, wire_i32, wire_i64, wire_double, wire_binary, wire_struct,
  wire_list, wire_set, wire_map, Wires, no_wires, wire, WireFields, no_wire_fields, wire_field,
  WirePairs, no_wire_pairs, wire_pair, wire_type,
}
use yab.Thrift.Typing.{
  HasRoot, HaveType, HaveTypes, HaveFields, HasType, get_field_map, index_from-AllValues,
}
use yab.Thrift.FromWire.{
  MismatchError, struct_field_mismatch, add_defaults, checked, root_from_wire, items_from_wire,
  pairs_from_wire, fields_from_wire, value_from_wire,
}
use yab.Thrift.FromWire.Reading.{
  IsRead, IsRead-done, IsRead-bind, IsRead-map_fail, CanFill, HaveDefaults, add_defaults-IsRead,
  put_entry-IsRead,
}

module _ (structs : Structs) where
  HasRoot-wire_type : (s : TypeSpec) (w : Wire) → HasRoot structs s w → root_code s ≡ wire_type w
  HasRoot-wire_type s (wire_bool b) e = ap root_code e
  HasRoot-wire_type s (wire_i8 n) (e, r) = ap root_code e
  HasRoot-wire_type s (wire_i16 n) (e, r) = ap root_code e
  HasRoot-wire_type s (wire_i32 n) (inl (e, r)) = ap root_code e
  HasRoot-wire_type s (wire_i32 n) (inr (_, e)) = ap root_code e
  HasRoot-wire_type s (wire_i64 n) (e, r) = ap root_code e
  HasRoot-wire_type s (wire_double d) e = ap root_code e
  HasRoot-wire_type s (wire_binary bs) (inl e) = ap root_code e
  HasRoot-wire_type s (wire_binary bs) (inr e) = ap root_code e
  HasRoot-wire_type s (wire_struct fs) (k, e, h, a, u) = ap root_code e
  HasRoot-wire_type s (wire_list c ws) (t, e, c', h) = ap root_code e
  HasRoot-wire_type s (wire_set c ws) (t, e, c', h) = ap root_code e
  HasRoot-wire_type s (wire_map c d ps) (k, v, e, c', d', h) = ap root_code e

module _ (structs : Structs) (thrift_name : TypeSpec → Text) (float_eq : ℕ → ℕ → Bool)
    (marshal : Value → Option Text) (binary_envelope : Bool)
    (defaults : (k : ℕ) → All (λ f. CanFill float_eq f.fallback) (structs k).fields) where
  get_field_map-HaveDefaults : (k : ℕ) → HaveDefaults float_eq (get_field_map (structs k).fields)
  unfolding get_field_map
  get_field_map-HaveDefaults k =
      index_from-AllValues (λ f. CanFill float_eq f.fallback) (λ f. f.id) (structs k).fields []
        (defaults k) tt

  checked-IsRead :
      (s : TypeSpec) (w : Wire) (r : Outcome MismatchError Value)
      → HasType structs s w
      → IsRead r
      → IsRead (checked structs thrift_name float_eq marshal binary_envelope s w r)
  checked-IsRead s w r h p =
      let same =
        (nat_beq_iff (type_code s) (wire_type w)).1
          (HasRoot-wire_type structs (root_type_spec s) w h) in
      rw same (IsRead-map_fail _ r (λ e k. k) p)

  mutual
    unfolding root_from_wire items_from_wire pairs_from_wire fields_from_wire

    root_from_wire-IsRead :
        (s : TypeSpec) (w : Wire)
        → HasRoot structs s w
        → IsRead (root_from_wire structs thrift_name float_eq marshal binary_envelope s w)
    root_from_wire-IsRead s (wire_bool b) e = rw e (IsRead-done _)
    root_from_wire-IsRead s (wire_i8 n) (e, r) = rw e (IsRead-done _)
    root_from_wire-IsRead s (wire_i16 n) (e, r) = rw e (IsRead-done _)
    root_from_wire-IsRead s (wire_i32 n) (inl (e, r)) = rw e (IsRead-done _)
    root_from_wire-IsRead s (wire_i32 n) (inr (_, e)) = rw e (IsRead-done _)
    root_from_wire-IsRead s (wire_i64 n) (e, r) = rw e (IsRead-done _)
    root_from_wire-IsRead s (wire_double d) e = rw e (IsRead-done _)
    root_from_wire-IsRead s (wire_binary bs) (inl e) = rw e (IsRead-done _)
    root_from_wire-IsRead s (wire_binary bs) (inr e) = rw e (IsRead-done _)
    root_from_wire-IsRead s (wire_struct fs) (k, e, h, a, u) =
        let specs = get_field_map (structs k).fields in
        rw e (
          IsRead-bind _ _ (fields_from_wire-IsRead (structs k).fields [] fs h) λ found.
            IsRead-bind (add_defaults float_eq specs found) _
              (add_defaults-IsRead float_eq specs found (get_field_map-HaveDefaults k))
              λ result. IsRead-done _)
    root_from_wire-IsRead s (wire_list c ws) (t, e, c', h) =
        rw e (IsRead-bind _ _ (items_from_wire-IsRead t 0 ws h) λ vs. IsRead-done _)
    root_from_wire-IsRead s (wire_set c ws) (t, e, c', h) =
        rw e (IsRead-bind _ _ (items_from_wire-IsRead t 0 ws h) λ vs. IsRead-done _)
    root_from_wire-IsRead s (wire_map c d ps) (k, v, e, c', d', h) =
        rw e (IsRead-bind _ _ (pairs_from_wire-IsRead k v [] ps h) λ r. IsRead-done _)

    items_from_wire-IsRead :
        (s : TypeSpec) (i : ℕ) (ws : Wires)
        → HaveType structs s ws
        → IsRead (items_from_wire structs thrift_name float_eq marshal binary_envelope s i ws)
    items_from_wire-IsRead s i no_wires h = IsRead-done _
    items_from_wire-IsRead s i (wire w ws) (h, hs) =
        IsRead-bind _ _
          (IsRead-map_fail _ _ (λ e k. k)
            (checked-IsRead s w _ h (root_from_wire-IsRead (root_type_spec s) w h)))
          λ v. IsRead-bind _ _ (items_from_wire-IsRead s (suc i) ws hs) λ vs. IsRead-done _

    pairs_from_wire-IsRead :
        (k s : TypeSpec) (result : Assoc Text Value) (ps : WirePairs)
        → HaveTypes structs k s ps
        → IsRead
            (pairs_from_wire structs thrift_name float_eq marshal binary_envelope k s result ps)
    pairs_from_wire-IsRead k s result no_wire_pairs h = IsRead-done _
    pairs_from_wire-IsRead k s result (wire_pair x y ps) (hx, hy, hs) =
        IsRead-bind _ _
          (IsRead-map_fail _ _ (λ e p. p)
            (checked-IsRead k x _ hx (root_from_wire-IsRead (root_type_spec k) x hx)))
          λ key.
            IsRead-bind _ _
              (IsRead-map_fail _ _ (λ e p. p)
                (checked-IsRead s y _ hy (root_from_wire-IsRead (root_type_spec s) y hy)))
              λ value.
                IsRead-bind _ _ (put_entry-IsRead marshal key value result)
                  λ more. pairs_from_wire-IsRead k s more ps hs

    fields_from_wire-IsRead :
        (specs : List FieldSpec) (result : Assoc Text Value) (fs : WireFields)
        → HaveFields structs specs fs
        → IsRead (
            fields_from_wire structs thrift_name float_eq marshal binary_envelope
              (get_field_map specs)
              result
              fs)
    fields_from_wire-IsRead specs result no_wire_fields h = IsRead-done _
    fields_from_wire-IsRead specs result (wire_field id w fs) (f, found, typed, hs) =
        let inner : Outcome MismatchError Value =
          root_from_wire structs thrift_name float_eq marshal binary_envelope
            (root_type_spec f.spec) w in
        let r : Outcome MismatchError Value =
          map_fail (struct_field_mismatch f.name)
            (checked structs thrift_name float_eq marshal binary_envelope f.spec w inner) in
        let rest : Value → Outcome MismatchError (Assoc Text Value) = λ v.
          fields_from_wire structs thrift_name float_eq marshal binary_envelope
            (get_field_map specs) (insert f.name v result) fs in
        rw (fields_from_wire, found)
          (IsRead-bind r rest
            (IsRead-map_fail (struct_field_mismatch f.name)
              (checked structs thrift_name float_eq marshal binary_envelope f.spec w inner)
              (λ e k. k)
              (checked-IsRead f.spec w inner typed
                (root_from_wire-IsRead (root_type_spec f.spec) w typed)))
            λ v. fields_from_wire-IsRead specs (insert f.name v result) fs hs)

-- A Thrift value that belongs to the type, where the defaults of all structs are values, is read: what
-- valueFromWire can report is only that a key of a map could not be marshalled, and it does not panic.
pub value_from_wire-IsRead :
    (structs : Structs) (thrift_name : TypeSpec → Text) (float_eq : ℕ → ℕ → Bool)
    (marshal : Value → Option Text) (binary_envelope : Bool) (s : TypeSpec) (w : Wire)
    → ((k : ℕ) → All (λ f. CanFill float_eq f.fallback) (structs k).fields)
    → HasType structs s w
    → IsRead (value_from_wire structs thrift_name float_eq marshal binary_envelope s w)
unfolding value_from_wire
value_from_wire-IsRead structs thrift_name float_eq marshal binary_envelope s w defaults h =
    checked-IsRead structs thrift_name float_eq marshal binary_envelope defaults s w _ h (
      root_from_wire-IsRead structs thrift_name float_eq marshal binary_envelope defaults
        (root_type_spec s) w h)
