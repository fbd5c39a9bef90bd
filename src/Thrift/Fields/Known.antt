-- ===== src/Thrift/Fields/Known.antt =====
-- The fields that a request names.
use yab.Prelude.{
  true, [], Option, none, some, Text, ◌≡◌, ◌⊎◌, inl, inr, refl, sym, subst, text_comparable,
  Bool-cases,
}
use yab.Prelude.Assoc.{Assoc}
use yab.Value.{Value, is_nil, Fields, no_fields, field}
use yab.Thrift.{FieldSpec}
use yab.Thrift.Fields.{FieldMaps, get_field, Given, give_field, give}
use yab.Thrift.Fields.Found.{Holds, insert-Holds, cons_empty}

-- Every name of the request is one of a field, and the field is there, unless the value is nil.
abbrev pub AreGiven : FieldMaps → Fields → Assoc Text Value → Type 0
AreGiven m no_fields us = Unit
AreGiven m (field k v request) us =
    ((f : FieldSpec) × (get_field m k ≡ some f) × ((is_nil v ≡ true) ⊎ Holds f.name us))
    × AreGiven m request us

give_field-not_found :
    (k : Text) (v : Value) (g : Given) (o : Option FieldSpec)
    → (give_field k v g o).not_found ≡ []
    → (g.not_found ≡ []) × (f : FieldSpec) × (o ≡ some f)
give_field-not_found k v g none h = absurd (cons_empty g.not_found k h)
give_field-not_found k v g (some f) h = elim (Bool-cases (is_nil v)) [
  | inl e ↦ (rw e at h, f, refl)
  | inr e ↦ (rw e at h, f, refl)
]

give-not_found :
    (m : FieldMaps) (request : Fields) (g : Given)
    → (give m request g).not_found ≡ []
    → g.not_found ≡ []
unfolding give
give-not_found m no_fields g h = h
give-not_found m (field k v request) g h =
    let turned : (give_field k v g (get_field m k)).not_found ≡ [] = give-not_found m request _ h in
    (give_field-not_found k v g (get_field m k) turned).0

give_field-Holds :
    (k : Text) (v : Value) (g : Given) (o : Option FieldSpec) (n : Text)
    → Holds n g.user_fields
    → Holds n (give_field k v g o).user_fields
give_field-Holds k v g none n held = held
give_field-Holds k v g (some f) n held = elim (Bool-cases (is_nil v)) [
  | inl e ↦ rw e held
  | inr e ↦ rw e (insert-Holds g.user_fields f.name v n (inl held))
]

give-Holds :
    (m : FieldMaps) (request : Fields) (g : Given) (n : Text)
    → Holds n g.user_fields
    → Holds n (give m request g).user_fields
unfolding give
give-Holds m no_fields g n held = held
give-Holds m (field k v request) g n held =
    give-Holds m request (give_field k v g (get_field m k)) n
      (give_field-Holds k v g (get_field m k) n held)

give_field-given :
    (k : Text) (v : Value) (g : Given) (f : FieldSpec)
    → (is_nil v ≡ true) ⊎ Holds f.name (give_field k v g (some f)).user_fields
give_field-given k v g f = elim (Bool-cases (is_nil v)) [
  | inl e ↦ inl e
  | inr e ↦ inr (rw e (insert-Holds g.user_fields f.name v f.name (inr refl)))
]

pub give-AreGiven :
    (m : FieldMaps) (request : Fields) (g : Given)
    → (give m request g).not_found ≡ []
    → AreGiven m request (give m request g).user_fields
unfolding give
give-AreGiven m no_fields g h = tt
give-AreGiven m (field k v request) g h =
    let next : Given = give_field k v g (get_field m k) in
    let turned : next.not_found ≡ [] = give-not_found m request next h in
    let (_, f, found) = give_field-not_found k v g (get_field m k) turned in
    let given : (is_nil v ≡ true) ⊎ Holds f.name next.user_fields =
      subst (λ o. (is_nil v ≡ true) ⊎ Holds f.name (give_field k v g o).user_fields) (sym found)
        (give_field-given k v g f) in
    (
      (
        f,
        found,
        elim given [
          | inl nothing ↦ inl nothing
          | inr held ↦ inr (give-Holds m request next f.name held)
        ],
      ),
      give-AreGiven m request next h,
    )
