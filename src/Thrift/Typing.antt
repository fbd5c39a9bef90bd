-- ===== src/Thrift/Typing.antt =====
-- When a Thrift value belongs to a type, and what the fields of a struct are found by.
use yab.Prelude.{
  ℕ, suc, false, List, [], ◌∷◌, some, ◌⊎◌, inl, inr, ◌≡◌, ◌≢◌, refl, sym, subst, ◌∙◌, All,
  Comparable, ◌==◌, Bool-cases,
}
use yab.Prelude.Assoc.{Assoc, lookup, insert, lookup-insert}
use yab.Prelude.Int.{ℤ, ◌≤ℤ◌, int_comparable}
use yab.ThriftTypes.Ranges.{FitsInto}
use yab.Thrift.{
  Outcome, done, fail, crash, out_of_fuel, ◌>>=◌, map_fail, EnumSpec, TypeSpec, bool_spec, i8_spec,
  i16_spec, i32_spec, i64_spec, double_spec, string_spec, binary_spec, enum_spec, struct_spec,
  list_spec, set_spec, map_spec, FieldSpec, Structs, root_type_spec, type_code, Wire, wire_bool,
  wire_i8, wire_i16, wire_i32, wire_i64, wire_double, wire_binary, wire_struct, wire_list, wire_set,
  wire_map, Wires, no_wires, wire, WireFields, no_wire_fields, wire_field, WirePairs, no_wire_pairs,
  wire_pair,
}
use yab.Thrift.Fields.{index_from}

-- `getFieldMap` of thrift/from_wire.go: the fields of a struct under their numbers.
unfoldable pub get_field_map : List FieldSpec → Assoc ℤ FieldSpec
unfolding index_from
get_field_map fs = index_from (λ f. f.id) fs []

abbrev pub count_fields : WireFields → ℕ
count_fields no_wire_fields = 0
count_fields (wire_field id w fs) = suc (count_fields fs)

-- The number is not above those of the fields.
abbrev pub IsBelow : ℤ → WireFields → Type 0
IsBelow id no_wire_fields = Unit
IsBelow id (wire_field j w fs) = (id ≤ℤ j) × IsBelow id fs

abbrev pub IsAscending : WireFields → Type 0
IsAscending no_wire_fields = Unit
IsAscending (wire_field id w fs) = IsBelow id fs × IsAscending fs

module _ (structs : Structs) where
  -- The value belongs to the type, which is no typedef. Numbers that are no items of enums lie in their
  -- range, what lists, sets and maps hold belongs to the types of their items, the fields of a struct
  -- are fields of its specification, in the order of their numbers, and a union has one.
  abbrev mutual
    pub HasRoot : TypeSpec → Wire → Type 0
    HasRoot s (wire_bool b) = s ≡ bool_spec
    HasRoot s (wire_i8 n) = (s ≡ i8_spec) × FitsInto 7 n
    HasRoot s (wire_i16 n) = (s ≡ i16_spec) × FitsInto 15 n
    HasRoot s (wire_i32 n) = ((s ≡ i32_spec) × FitsInto 31 n) ⊎ ((e : EnumSpec) × (s ≡ enum_spec e))
    HasRoot s (wire_i64 n) = (s ≡ i64_spec) × FitsInto 63 n
    HasRoot s (wire_double d) = s ≡ double_spec
    HasRoot s (wire_binary bs) = (s ≡ string_spec) ⊎ (s ≡ binary_spec)
    HasRoot s (wire_struct fs) =
        (k : ℕ) × (s ≡ struct_spec k)
        × HaveFields (structs k).fields fs
        × IsAscending fs
        × (((structs k).is_union ≡ false) ⊎ (count_fields fs ≡ 1))
    HasRoot s (wire_list c ws) =
        (e : TypeSpec) × (s ≡ list_spec e) × (c ≡ type_code e) × HaveType e ws
    HasRoot s (wire_set c ws) =
        (e : TypeSpec) × (s ≡ set_spec e) × (c ≡ type_code e) × HaveType e ws
    HasRoot s (wire_map c d ps) =
        (k : TypeSpec) × (v : TypeSpec) × (s ≡ map_spec k v)
        × (c ≡ type_code k)
        × (d ≡ type_code v)
        × HaveTypes k v ps

    pub HaveType : TypeSpec → Wires → Type 0
    HaveType s no_wires = Unit
    HaveType s (wire w ws) = HasRoot (root_type_spec s) w × HaveType s ws

    pub HaveTypes : TypeSpec → TypeSpec → WirePairs → Type 0
    HaveTypes k v no_wire_pairs = Unit
    HaveTypes k v (wire_pair x y ps) =
        HasRoot (root_type_spec k) x × HasRoot (root_type_spec v) y × HaveTypes k v ps

    pub HaveFields : List FieldSpec → WireFields → Type 0
    HaveFields fs no_wire_fields = Unit
    HaveFields fs (wire_field id w ws) =
        (f : FieldSpec) × (lookup id (get_field_map fs) ≡ some f)
        × HasRoot (root_type_spec f.spec) w
        × HaveFields fs ws

  abbrev pub HasType : TypeSpec → Wire → Type 0
  HasType s w = HasRoot (root_type_spec s) w

-- What holds of a value that is computed.
abbrev pub Post {ℓ κ} : {E : Type 0} {A : Type ℓ} → (A → Type κ) → Outcome E A → Type κ
Post P (done a) = P a
Post P (fail e) = Unit
Post P crash = Unit
Post P out_of_fuel = Unit

pub Post-bind {ℓ κ μ} :
    {E : Type 0} {A : Type ℓ} {B : Type κ} (P : A → Type μ) (Q : B → Type μ) (m : Outcome E A)
    (f : A → Outcome E B)
    → Post P m
    → ((a : A) → P a → Post Q (f a))
    → Post Q (m >>= f)
Post-bind P Q (done a) f p h = h a p
Post-bind P Q (fail e) f p h = tt
Post-bind P Q crash f p h = tt
Post-bind P Q out_of_fuel f p h = tt

pub Post-map_fail {ℓ κ} :
    {E F : Type 0} {A : Type ℓ} (P : A → Type κ) (g : E → F) (m : Outcome E A)
    → Post P m
    → Post P (map_fail g m)
Post-map_fail P g (done a) p = p
Post-map_fail P g (fail e) p = tt
Post-map_fail P g crash p = tt
Post-map_fail P g out_of_fuel p = tt

-- The values of a map have a property.
module _ {V : Type 0} (P : V → Type 0) where
  abbrev pub AllValues : {K : Type 0} → Assoc K V → Type 0
  AllValues m = All (λ p. P p.1) m

  pub insert-AllValues :
      {K : Type 0} ⦃c : Comparable K⦄ (k : K) (v : V) (m : Assoc K V)
      → P v
      → AllValues m
      → AllValues (insert k v m)
  unfolding insert
  insert-AllValues k v [] h hs = (h, tt)
  insert-AllValues k v ((j, w) ∷ m) h (hw, hs) = elim (Bool-cases (j == k)) [
    | inl e ↦ rw e (h, hs)
    | inr e ↦ rw e (hw, insert-AllValues k v m h hs)
  ]

pub index_from-AllValues :
    {K : Type 0} ⦃c : Comparable K⦄ (P : FieldSpec → Type 0) (key : FieldSpec → K)
    (fs : List FieldSpec) (m : Assoc K FieldSpec)
    → All P fs
    → AllValues P m
    → AllValues P (index_from key fs m)
unfolding index_from
index_from-AllValues P key [] m h hs = hs
index_from-AllValues P key (f ∷ fs) m (k, ks) hs =
    index_from-AllValues P key fs (insert (key f) f m) ks (insert-AllValues P (key f) f m k hs)

abbrev pub MemField : FieldSpec → List FieldSpec → Type 0
MemField f [] = ⊥
MemField f (g ∷ fs) = (f ≡ g) ⊎ MemField f fs

-- The keys of the fields differ.
module _ {ℓ} {K : Type ℓ} (key : FieldSpec → K) where
  abbrev pub HaveKeys : List FieldSpec → Type ℓ
  HaveKeys [] = Unit
  HaveKeys (f ∷ fs) = All (λ g. key f ≢ key g) fs × HaveKeys fs

module _ {ℓ} {K : Type ℓ} ⦃c : Comparable K⦄ (key : FieldSpec → K) where
  pub MemField-index_from :
      (fs : List FieldSpec) (m : Assoc K FieldSpec) (k : K) (f : FieldSpec)
      → lookup k (index_from key fs m) ≡ some f
      → (lookup k m ≡ some f) ⊎ MemField f fs
  unfolding index_from
  MemField-index_from [] m k f h = inl h
  MemField-index_from (g ∷ fs) m k f h = elim (MemField-index_from fs (insert (key g) g m) k f h) [
    | inr later ↦ inr (inr later)
    | inl e ↦ elim (Bool-cases (key g == k)) [
      | inl same ↦
          let at : lookup k (insert (key g) g m) ≡ some g =
            lookup-insert m (key g) g k ∙ rw same refl in
          inr (inl (cc (e, at)))
      | inr differ ↦
          let at : lookup k (insert (key g) g m) ≡ lookup k m =
            lookup-insert m (key g) g k ∙ rw differ refl in
          inl (sym at ∙ e)
    ]
  ]

  index_from-other :
      (fs : List FieldSpec) (m : Assoc K FieldSpec) (k : K)
      → All (λ g. k ≢ key g) fs
      → lookup k (index_from key fs m) ≡ lookup k m
  unfolding index_from
  index_from-other [] m k h = refl
  index_from-other (g ∷ fs) m k (h, hs) =
      index_from-other fs (insert (key g) g m) k hs
      ∙ lookup-insert m (key g) g k
      ∙ elim (Bool-cases (key g == k)) [
        | inl same ↦ absurd (h (sym ((c.equals_iff (key g) k).0 same)))
        | inr differ ↦ rw differ refl
      ]

  pub index_from-MemField :
      (fs : List FieldSpec) (m : Assoc K FieldSpec) (f : FieldSpec)
      → HaveKeys key fs
      → MemField f fs
      → lookup (key f) (index_from key fs m) ≡ some f
  unfolding index_from
  index_from-MemField [] m f hs member = elim member [ ]
  index_from-MemField (g ∷ fs) m f (new, hs) (inl e) =
      subst (λ x. lookup (key x) (index_from key fs (insert (key g) g m)) ≡ some x) (sym e)
        (index_from-other fs (insert (key g) g m) (key g) new
          ∙ lookup-insert m (key g) g (key g)
          ∙ rw ((c.equals_iff (key g) (key g)).1 refl) refl)
  index_from-MemField (g ∷ fs) m f (new, hs) (inr later) =
      index_from-MemField fs (insert (key g) g m) f hs later
