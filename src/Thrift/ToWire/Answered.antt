-- ===== src/Thrift/ToWire/Answered.antt =====
-- A struct has the fields that are required and those that the request gives.
use yab.Prelude.{
  ℕ, Bool, true, false, List, [], ◌∷◌, some, Text, ◌≡◌, ◌⊎◌, inl, inr, refl, sym, ap, ◌∙◌, ◌==◌,
  nat_comparable, All, text_comparable, Bool-cases, arith,
}
use yab.Prelude.Assoc.{Assoc, lookup}
use yab.Value.{Value, is_nil, Fields, no_fields, field}
use yab.Thrift.{Outcome, done, fail, crash, out_of_fuel, TypeSpec, FieldSpec, Wire, WireFields}
use yab.Thrift.Fields.{FieldMaps, exact_key, get_fields, get_field, Given, give, Filled, fill}
use yab.Thrift.Fields.Found.{Holds, fill-Holds, fill-required, some_inj}
use yab.Thrift.Fields.Known.{AreGiven, give-AreGiven}
use yab.Thrift.Typing.{Post, Post-bind, MemField, HaveKeys, index_from-MemField}
use yab.Thrift.ToWire.{
  WireError, of_crash, sort_by_id, fields_to_wire, finish_fields, field_group_to_value,
}
use yab.Thrift.ToWire.Parts.{of_crash-Post}
use yab.Thrift.ToWire.Ids.{HasId, sort_by_id-HasId, get_field-MemField}

-- Each of the required fields is there.
abbrev pub HaveRequired : List FieldSpec → WireFields → Type 0
HaveRequired fs ws = All (λ f. (f.required ≡ false) ⊎ HasId f.id ws) fs

-- Each name of the request is one of a field, and the field is there, unless the value is nil.
abbrev pub AreAnswered : FieldMaps → Fields → WireFields → Type 0
AreAnswered m no_fields ws = Unit
AreAnswered m (field k v request) ws =
    ((f : FieldSpec) × (get_field m k ≡ some f) × ((is_nil v ≡ true) ⊎ HasId f.id ws))
    × AreAnswered m request ws

-- The struct has the fields of all the names that it is made from.
abbrev HasAll : Assoc Text FieldSpec → Assoc Text Value → WireFields → Type 0
HasAll fields us ws =
    (n : Text) (f : FieldSpec) → lookup n fields ≡ some f → Holds n us → HasId f.id ws

module _ (to_wire : TypeSpec → Value → Outcome WireError Wire) where
  fields_to_wire-HasAll :
      (fields : Assoc Text FieldSpec) (us : Assoc Text Value)
      → Post (HasAll fields us) (fields_to_wire to_wire fields us)
  unfolding fields_to_wire lookup
  fields_to_wire-HasAll fields [] = λ n f found (v, held). absurd (ground arith)
  fields_to_wire-HasAll fields ((k, v) ∷ us) =
      Post-bind (λ f. lookup k fields ≡ some f) (HasAll fields ((k, v) ∷ us)) _ _
        (of_crash-Post (λ f. lookup k fields ≡ some f) (lookup k fields) λ f found. found)
        λ f at.
          Post-bind (λ w. Unit) (HasAll fields ((k, v) ∷ us)) _ _ (Post-any (to_wire f.spec v))
            λ w t.
              Post-bind (HasAll fields us) (HasAll fields ((k, v) ∷ us)) _ _
                (fields_to_wire-HasAll fields us)
                λ ws hs n g found held. holds ws f at n g found held (hs n g found)
    where
      holds :
          (ws : WireFields) (f : FieldSpec)
          → lookup k fields ≡ some f
          → (n : Text) (g : FieldSpec) → lookup n fields ≡ some g
          → Holds n ((k, v) ∷ us)
          → (Holds n us → HasId g.id ws)
          → (f.id ≡ g.id) ⊎ HasId g.id ws
      holds ws f at n g found (x, e) later = elim (Bool-cases (k == n)) [
        | inr other ↦ inr (later (x, rw other at e))
        | inl same ↦
            let key : k ≡ n = (text_comparable.equals_iff k n).0 same in
            inl (ap (λ x. x.id) (some_inj f g (sym at ∙ ap (λ n. lookup n fields) key ∙ found)))
      ]

      Post-any : {A : Type 0} (m : Outcome WireError A) → Post (λ a. Unit {0}) m
      Post-any (done a) = tt
      Post-any (fail e) = tt
      Post-any crash = tt
      Post-any out_of_fuel = tt

  finish_fields-Post :
      (float_eq : ℕ → ℕ → Bool) (m : FieldMaps) (not_found missing : List Text)
      (us : Assoc Text Value) (P Q : WireFields → Type 0)
      → (not_found ≡ [] → missing ≡ [] → (ws : WireFields) → P ws → Q (sort_by_id ws))
      → Post P (fields_to_wire to_wire m.exact us)
      → Post Q (
          finish_fields to_wire float_eq m not_found
            (record { user_fields = us; missing_required = missing }))
  unfolding finish_fields
  finish_fields-Post float_eq m (n ∷ ns) missing us P Q h p = tt
  finish_fields-Post float_eq m [] (k ∷ ks) us P Q h p = tt
  finish_fields-Post float_eq m [] [] us P Q h p =
      Post-bind P Q (fields_to_wire to_wire m.exact us) _ p λ ws hs. h refl refl ws hs

  module _ (fs : List FieldSpec) (keys : HaveKeys exact_key fs) where
    exact-MemField : (f : FieldSpec) → MemField f fs → lookup f.name (get_fields fs).exact ≡ some f
    unfolding get_fields
    exact-MemField f member = index_from-MemField exact_key fs [] f keys member

    AreGiven-AreAnswered :
        (request : Fields) (us : Assoc Text Value) (ws : WireFields)
        → HasAll (get_fields fs).exact us ws
        → AreGiven (get_fields fs) request us
        → AreAnswered (get_fields fs) request (sort_by_id ws)
    AreGiven-AreAnswered no_fields us ws all h = tt
    AreGiven-AreAnswered (field k v request) us ws all ((f, found, given), hs) =
        let at = exact-MemField f (get_field-MemField fs k f found) in
        (
          (
            f,
            found,
            elim given [
              | inl nothing ↦ inl nothing
              | inr held ↦ inr (sort_by_id-HasId f.id ws (all f.name f at held))
            ],
          ),
          AreGiven-AreAnswered request us ws all hs,
        )

    HaveRequired-fill :
        (float_eq : ℕ → ℕ → Bool) (r s : Filled) (ws : WireFields) (gs : List FieldSpec)
        → ((f : FieldSpec) → MemField f gs → MemField f fs)
        → fill float_eq (get_fields fs).exact r ≡ some s
        → s.missing_required ≡ []
        → HasAll (get_fields fs).exact s.user_fields ws
        → HaveRequired gs (sort_by_id ws)
    HaveRequired-fill float_eq r s ws [] inside h m all = tt
    HaveRequired-fill float_eq r s ws (g ∷ gs) inside h m all =
        let at = exact-MemField g (inside g (inl refl)) in
        (
          elim (Bool-cases g.required) [
            | inr e ↦ inl e
            | inl e ↦ inr (
                sort_by_id-HasId g.id ws (
                  all g.name g at
                    (fill-required float_eq (get_fields fs).exact r s g.name g h m at e)))
          ],
          HaveRequired-fill float_eq r s ws gs (λ f member. inside f (inr member)) h m all,
        )

-- If the fields of a struct have different names, a struct that fieldGroupToValue gives for a request
-- has every required field of the specification, and every name of the request is one of a field, by its
-- name, its number or its fuzzy name, which the struct has too unless the value is nil.
pub field_group_to_value-HaveRequired :
    (to_wire : TypeSpec → Value → Outcome WireError Wire) (float_eq : ℕ → ℕ → Bool)
    (fs : List FieldSpec) (request : Fields)
    → HaveKeys exact_key fs
    → Post
        (λ ws. HaveRequired fs ws × AreAnswered (get_fields fs) request ws)
        (field_group_to_value to_wire float_eq fs request)
unfolding field_group_to_value
field_group_to_value-HaveRequired to_wire float_eq fs request keys =
    let m = get_fields fs in
    let g : Given = give m request (record { user_fields = []; not_found = [] }) in
    let start : Filled = record { user_fields = g.user_fields; missing_required = [] } in
    let Q : WireFields → Type 0 = λ ws. HaveRequired fs ws × AreAnswered m request ws in
    Post-bind {E = WireError} (λ r. fill float_eq m.exact start ≡ some r) Q
      (of_crash (fill float_eq m.exact start)) (λ r. finish_fields to_wire float_eq m g.not_found r)
      (of_crash-Post (λ r. fill float_eq m.exact start ≡ some r) (fill float_eq m.exact start)
        λ r e. e)
      λ r filled.
        finish_fields-Post to_wire float_eq m g.not_found r.missing_required r.user_fields
          (HasAll m.exact r.user_fields) Q
          (λ known missing ws all. (
            HaveRequired-fill to_wire fs keys float_eq start r ws fs (λ f member. member) filled
                missing all,
            AreGiven-AreAnswered to_wire fs keys request r.user_fields ws all (
                AreGiven-fill m request g.user_fields r.user_fields
                  (λ n held. fill-Holds float_eq m.exact start r n filled held)
                  (give-AreGiven m request _ known)),
          ))
          (fields_to_wire-HasAll to_wire m.exact r.user_fields)
  where
    AreGiven-fill :
        (m : FieldMaps) (request : Fields) (us vs : Assoc Text Value)
        → ((n : Text) → Holds n us → Holds n vs)
        → AreGiven m request us
        → AreGiven m request vs
    AreGiven-fill m no_fields us vs keep h = tt
    AreGiven-fill m (field k v request) us vs keep ((f, found, given), hs) = (
      (f, found, elim given [ inl nothing ↦ inl nothing | inr held ↦ inr (keep f.name held) ]),
      AreGiven-fill m request us vs keep hs,
    )
