-- ===== src/Thrift/ToWire/Ids.antt =====
-- The numbers of the fields of a struct, and the fields that names stand for.
use yab.Prelude.{
  Comparable, List, [], some, Text, ◌≡◌, ◌⊎◌, inl, inr, refl, sym, ◌∙◌, length, ◌==◌,
  nat_comparable, text_comparable, Bool-cases, Option-cases, arith,
}
use yab.Prelude.Assoc.{lookup}
use yab.Prelude.Int.{ℤ, ltb_ℤ}
use yab.Thrift.{FieldSpec, Wire, WireFields, no_wire_fields, wire_field}
use yab.Thrift.Fields.{
  FieldMaps, index_from, exact_key, id_key, fuzzy_key, get_fields, get_field, fuzz,
}
use yab.Thrift.Typing.{MemField, MemField-index_from}
use yab.Thrift.ToWire.{insert_by_id, sort_by_id}

abbrev pub HasId : ℤ → WireFields → Type 0
HasId id no_wire_fields = ⊥
HasId id (wire_field j w ws) = (j ≡ id) ⊎ HasId id ws

insert_by_id-HasId :
    (id j : ℤ) (w : Wire) (ws : WireFields)
    → HasId id (wire_field j w ws)
    → HasId id (insert_by_id j w ws)
unfolding insert_by_id
insert_by_id-HasId id j w no_wire_fields h = h
insert_by_id-HasId id j w (wire_field j' w' ws) h = elim (Bool-cases (ltb_ℤ j' j)) [
  | inr e ↦ rw e h
  | inl e ↦ elim h [
    | inl here ↦ rw e (inr (insert_by_id-HasId id j w ws (inl here)))
    | inr (inl here) ↦ rw e (inl here)
    | inr (inr later) ↦ rw e (inr (insert_by_id-HasId id j w ws (inr later)))
  ]
]

pub sort_by_id-HasId : (id : ℤ) (ws : WireFields) → HasId id ws → HasId id (sort_by_id ws)
unfolding sort_by_id
sort_by_id-HasId id no_wire_fields h = elim h [ ]
sort_by_id-HasId id (wire_field j w ws) (inl here) =
    insert_by_id-HasId id j w (sort_by_id ws) (inl here)
sort_by_id-HasId id (wire_field j w ws) (inr later) =
    insert_by_id-HasId id j w (sort_by_id ws) (inr (sort_by_id-HasId id ws later))

index_from-only :
    {K : Type 0} ⦃c : Comparable K⦄ (key : FieldSpec → K) (fs : List FieldSpec) (k : K)
    (f : FieldSpec)
    → lookup k (index_from key fs []) ≡ some f
    → MemField f fs
unfolding lookup
index_from-only key fs k f found = elim (MemField-index_from key fs [] k f found) [
  | inl e ↦ absurd (ground arith)
  | inr member ↦ member
]

get_field-found :
    (m : FieldMaps) (k : Text) (f : FieldSpec)
    → get_field m k ≡ some f
    → (lookup k m.exact ≡ some f)
      ⊎ ((lookup k m.field_ids ≡ some f) ⊎ (lookup (fuzz k) m.fuzzy ≡ some f))
unfolding get_field
get_field-found m k f h = elim (Option-cases (lookup k m.exact)) [
  | inr (g, e) ↦ let at : get_field m k ≡ some g = rw (get_field, e) refl in inl (e ∙ sym at ∙ h)
  | inl e ↦ elim (Option-cases (lookup k m.field_ids)) [
    | inr (g, e') ↦
        let at : get_field m k ≡ some g = rw (get_field, e, e') refl in inr (inl (e' ∙ sym at ∙ h))
    | inl e' ↦
        let at : get_field m k ≡ lookup (fuzz k) m.fuzzy = rw (get_field, e, e') refl in
        inr (inr (sym at ∙ h))
  ]
]

fuzzy-MemField :
    (fs : List FieldSpec) (k : Text) (f : FieldSpec)
    → lookup k (get_fields fs).fuzzy ≡ some f
    → MemField f fs
unfolding get_fields lookup
fuzzy-MemField fs k f h =
    elim (Bool-cases (length (index_from exact_key fs []) == length (index_from fuzzy_key fs []))) [
      | inl e ↦ index_from-only fuzzy_key fs k f (rw e at h)
      | inr e ↦ absurd (ground (arith, rw e at h))
    ]

pub get_field-MemField :
    (fs : List FieldSpec) (k : Text) (f : FieldSpec)
    → get_field (get_fields fs) k ≡ some f
    → MemField f fs
unfolding get_fields
get_field-MemField fs k f h = elim (get_field-found (get_fields fs) k f h) [
  | inl e ↦ index_from-only exact_key fs k f e
  | inr (inl e) ↦ index_from-only id_key fs k f e
  | inr (inr e) ↦ fuzzy-MemField fs (fuzz k) f e
]
