-- ===== src/Thrift/Fields/Found.antt =====
-- The fields that a request or a default fills.
use yab.Prelude.{
  ℕ, Bool, true, List, [], ◌∷◌, ◌++◌, none, some, Text, ◌≡◌, ◌⊎◌, inl, inr, refl, sym, subst, ◌∙◌,
  ◌==◌, text_comparable, Bool-cases, Option-cases, arith,
}
use yab.Prelude.Assoc.{Assoc, lookup, insert, lookup-insert}
use yab.Thrift.{FieldSpec}
use yab.Thrift.Const.{const_to_request}
use yab.Thrift.Fields.{Filled, fill_field, fill}

-- The map holds the key.
abbrev pub Holds {ℓ} : {V : Type ℓ} → Text → Assoc Text V → Type ℓ
Holds {V = V} k m = (v : V) × (lookup k m ≡ some v)

pub insert-Holds :
    {V : Type 0} (m : Assoc Text V) (k : Text) (v : V) (n : Text)
    → Holds n m ⊎ (k ≡ n)
    → Holds n (insert k v m)
insert-Holds m k v n h = elim (Bool-cases (k == n)) [
  | inl e ↦ (v, lookup-insert m k v n ∙ rw e refl)
  | inr e ↦ elim h [
    | inl (w, held) ↦ (w, lookup-insert m k v n ∙ rw e held)
    | inr same ↦ absurd (ground (arith, same, e, text_comparable.equals_iff k n))
  ]
]

pub some_inj : {A : Type 0} (a b : A) → some a ≡ some b → a ≡ b
some_inj a b e = ground arith

pub cons_empty : {A : Type 0} (xs : List A) (x : A) → xs ++ x ∷ [] ≡ [] → ⊥
cons_empty [] x e = ground arith
cons_empty (y ∷ xs) x e = ground arith

-- What a field of the specification does to the fields so far: none is lost, and if none is missing
-- after it, then none was missing and the field is there if it is required.
abbrev Keeps : FieldSpec → Filled → Filled → Type 0
Keeps arg r s =
    (s.missing_required ≡ [] → (r.missing_required ≡ []))
    × ((n : Text) → Holds n r.user_fields → Holds n s.user_fields)
    × (arg.required ≡ true → s.missing_required ≡ [] → Holds arg.name s.user_fields)

module _ (float_eq : ℕ → ℕ → Bool) where
  fill_field-Keeps :
      (k : Text) (arg : FieldSpec) (r s : Filled)
      → fill_field float_eq k arg r ≡ some s
      → Keeps arg r s
  unfolding fill_field
  fill_field-Keeps k arg r s h = elim (Option-cases arg.fallback) [
    | inr (d, e) ↦ elim (Option-cases (const_to_request float_eq d)) [
      | inl failed ↦ absurd (ground (arith, e, failed, h))
      | inr (v, at) ↦
          let t : Filled = record r { user_fields = insert arg.name v r.user_fields } in
          let step : fill_field float_eq k arg r ≡ some t = rw (fill_field, e, at) refl in
          subst (Keeps arg r) (some_inj t s (sym step ∙ h)) (
            λ m. m,
            λ n held. insert-Holds r.user_fields arg.name v n (inl held),
            λ q m. insert-Holds r.user_fields arg.name v arg.name (inr refl),
          )
    ]
    | inl e ↦ elim (Bool-cases arg.required) [
      | inl required ↦
          let t : Filled = record r { missing_required = r.missing_required ++ k ∷ [] } in
          let step : fill_field float_eq k arg r ≡ some t = rw (fill_field, e, required) refl in
          subst (Keeps arg r) (some_inj t s (sym step ∙ h)) (
            λ m. absurd (cons_empty r.missing_required k m),
            λ n held. held,
            λ q m. absurd (cons_empty r.missing_required k m),
          )
      | inr optional ↦
          let step : fill_field float_eq k arg r ≡ some r = rw (fill_field, e, optional) refl in
          subst (Keeps arg r) (some_inj r s (sym step ∙ h))
            (λ m. m, λ n held. held, λ q m. absurd (ground (arith, q, optional)))
    ]
  ]

  -- One turn of the loop.
  fill-step :
      (k : Text) (arg : FieldSpec) (fields : Assoc Text FieldSpec) (r s : Filled)
      → fill float_eq ((k, arg) ∷ fields) r ≡ some s
      → (t : Filled) × Keeps arg r t × (fill float_eq fields t ≡ some s)
  unfolding fill
  fill-step k arg fields r s h = elim (Option-cases (lookup arg.name r.user_fields)) [
    | inr (v, e) ↦
        let turn : fill float_eq ((k, arg) ∷ fields) r ≡ fill float_eq fields r =
          rw (fill, e) refl in
        (r, (λ m. m, λ n held. held, λ q m. (v, e)), sym turn ∙ h)
    | inl e ↦ elim (Option-cases (fill_field float_eq k arg r)) [
      | inr (t, at) ↦
          let turn : fill float_eq ((k, arg) ∷ fields) r ≡ fill float_eq fields t =
            rw (fill, e, at) refl in
          (t, fill_field-Keeps k arg r t at, sym turn ∙ h)
      | inl failed ↦
          let turn : fill float_eq ((k, arg) ∷ fields) r ≡ none = rw (fill, e, failed) refl in
          absurd (ground (arith, sym turn ∙ h))
    ]
  ]

  fill-missing :
      (fields : Assoc Text FieldSpec) (r s : Filled)
      → fill float_eq fields r ≡ some s
      → s.missing_required ≡ []
      → r.missing_required ≡ []
  unfolding fill
  fill-missing [] r s h m = subst (λ x. x.missing_required ≡ []) (sym (some_inj r s h)) m
  fill-missing ((k, arg) ∷ fields) r s h m =
      let (t, (missing, _, _), rest) = fill-step k arg fields r s h in
      missing (fill-missing fields t s rest m)

  pub fill-Holds :
      (fields : Assoc Text FieldSpec) (r s : Filled) (n : Text)
      → fill float_eq fields r ≡ some s
      → Holds n r.user_fields
      → Holds n s.user_fields
  unfolding fill
  fill-Holds [] r s n h held = subst (λ x. Holds n x.user_fields) (some_inj r s h) held
  fill-Holds ((k, arg) ∷ fields) r s n h held =
      let (t, (_, keeps, _), rest) = fill-step k arg fields r s h in
      fill-Holds fields t s n rest (keeps n held)

  pub fill-required :
      (fields : Assoc Text FieldSpec) (r s : Filled) (k : Text) (f : FieldSpec)
      → fill float_eq fields r ≡ some s
      → s.missing_required ≡ []
      → lookup k fields ≡ some f
      → f.required ≡ true
      → Holds f.name s.user_fields
  unfolding lookup
  fill-required [] r s k f h m found required = absurd (ground arith)
  fill-required ((j, arg) ∷ fields) r s k f h m found required =
      let (t, (_, _, there), rest) = fill-step j arg fields r s h in
      elim (Bool-cases (j == k)) [
        | inr other ↦ fill-required fields t s k f rest m (rw other at found) required
        | inl same ↦
            let here : arg ≡ f = some_inj arg f (rw same at found) in
            fill-Holds fields t s f.name rest (
              subst (λ x. Holds x.name t.user_fields) here
                (there (subst (λ x. x.required ≡ true) (sym here) required)
                  (fill-missing fields t s rest m)))
      ]
