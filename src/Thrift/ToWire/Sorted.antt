-- ===== src/Thrift/ToWire/Sorted.antt =====
-- The order of the fields of a struct.
use yab.Prelude.{List, inl, inr, arith, Bool-cases}
use yab.Prelude.Int.{ℤ, ◌≤ℤ◌, ltb_ℤ, ltb_ℤ-cases}
use yab.Thrift.{FieldSpec, Structs, Wire, WireFields, no_wire_fields, wire_field}
use yab.Thrift.Typing.{HaveFields, IsBelow, IsAscending}
use yab.Thrift.ToWire.{insert_by_id, sort_by_id}

insert_by_id-IsBelow :
    (j id : ℤ) (w : Wire) (fs : WireFields)
    → j ≤ℤ id
    → IsBelow j fs
    → IsBelow j (insert_by_id id w fs)
unfolding insert_by_id
insert_by_id-IsBelow j id w no_wire_fields h b = (h, tt)
insert_by_id-IsBelow j id w (wire_field id' w' fs) h (b, bs) = elim (Bool-cases (ltb_ℤ id' id)) [
  | inl e ↦ rw e (b, insert_by_id-IsBelow j id w fs h bs)
  | inr e ↦ rw e (h, (b, bs))
]

IsBelow-trans : (i j : ℤ) (fs : WireFields) → i ≤ℤ j → IsBelow j fs → IsBelow i fs
IsBelow-trans i j no_wire_fields h b = tt
IsBelow-trans i j (wire_field k w fs) h (b, bs) = (omega arith, IsBelow-trans i j fs h bs)

insert_by_id-IsAscending :
    (id : ℤ) (w : Wire) (fs : WireFields) → IsAscending fs → IsAscending (insert_by_id id w fs)
unfolding insert_by_id
insert_by_id-IsAscending id w no_wire_fields h = (tt, tt)
insert_by_id-IsAscending id w (wire_field id' w' fs) (b, hs) = elim (ltb_ℤ-cases id' id) [
  | inl (e, h) ↦
      rw e (insert_by_id-IsBelow id' id w fs (omega arith) b, insert_by_id-IsAscending id w fs hs)
  | inr (e, h) ↦ rw e ((h, IsBelow-trans id id' fs h b), (b, hs))
]

pub sort_by_id-IsAscending : (fs : WireFields) → IsAscending (sort_by_id fs)
unfolding sort_by_id
sort_by_id-IsAscending no_wire_fields = tt
sort_by_id-IsAscending (wire_field id w fs) =
    insert_by_id-IsAscending id w (sort_by_id fs) (sort_by_id-IsAscending fs)

module _ (structs : Structs) where
  insert_by_id-HaveFields :
      (specs : List FieldSpec) (id : ℤ) (w : Wire) (fs : WireFields)
      → HaveFields structs specs (wire_field id w fs)
      → HaveFields structs specs (insert_by_id id w fs)
  unfolding insert_by_id
  insert_by_id-HaveFields specs id w no_wire_fields h = h
  insert_by_id-HaveFields specs id w (wire_field id' w' fs)
        (f, found, typed, (g, found', typed', rest)) =
      elim (Bool-cases (ltb_ℤ id' id)) [
        | inl e ↦
            rw e (g, found', typed', insert_by_id-HaveFields specs id w fs (f, found, typed, rest))
        | inr e ↦ rw e (f, found, typed, (g, found', typed', rest))
      ]

  pub sort_by_id-HaveFields :
      (specs : List FieldSpec) (fs : WireFields)
      → HaveFields structs specs fs
      → HaveFields structs specs (sort_by_id fs)
  unfolding sort_by_id
  sort_by_id-HaveFields specs no_wire_fields h = tt
  sort_by_id-HaveFields specs (wire_field id w fs) (f, found, typed, rest) =
      insert_by_id-HaveFields specs id w (sort_by_id fs)
        (f, found, typed, sort_by_id-HaveFields specs fs rest)
