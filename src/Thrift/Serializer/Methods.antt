-- ===== src/Thrift/Serializer/Methods.antt =====
-- The names of methods, in and out of one text.
use yab.Prelude.{
  List, [], ◌∷◌, ◌++◌, inl, inr, ◌≡◌, ◌≢◌, refl, ap, ◌∙◌, Text, codes, All, ◌==◌, nat_comparable,
  arith, Bool-cases,
}
use yab.Thrift.Serializer.{split_colons, method_of, split_method}

abbrev pub HasNoColon : Text → Type 0
HasNoColon s = All (λ c. c ≢ b':') s

split_colons-plain : (s : Text) → HasNoColon s → split_colons s ≡ s ∷ []
unfolding split_colons
split_colons-plain [] h = refl
split_colons-plain (c ∷ []) h = refl
split_colons-plain (c ∷ d ∷ s) (h, hs) = ground (arith, split_colons-plain (d ∷ s) hs)

split_colons-append :
    (s rest : Text)
    → HasNoColon s
    → split_colons (s ++ (b':' ∷ b':' ∷ rest)) ≡ s ∷ split_colons rest
unfolding split_colons
split_colons-append [] rest h = refl
split_colons-append (c ∷ []) rest (h, hs) = ground arith
split_colons-append (c ∷ d ∷ s) rest (h, hs) = ground (arith, split_colons-append (d ∷ s) rest hs)

split_colons-cons : (s : Text) → (p : Text) × (ps : List Text) × (split_colons s ≡ p ∷ ps)
unfolding split_colons
split_colons-cons [] = ([], [], refl)
split_colons-cons (c ∷ []) = (c ∷ [], [], refl)
split_colons-cons (c ∷ d ∷ s) =
    let (p, ps, e) = split_colons-cons (d ∷ s) in
    elim (Bool-cases (c == b':')) [
      | inr other ↦ rw (other, e) (c ∷ p, ps, refl)
      | inl colon ↦ elim (Bool-cases (d == b':')) [
        | inl both ↦ rw (colon, both) ([], split_colons s, refl)
        | inr one ↦ rw (colon, one, e) (c ∷ p, ps, refl)
      ]
    ]

-- A service without a colon, alone or with a method without a colon behind two colons, is split into
-- these names, the method of a service alone being empty; what has two further colons behind the method
-- is refused.
pub split_method-append :
    (svc method rest : Text)
    → HasNoColon svc
    → HasNoColon method
    → (split_method svc ≡ inr (svc, []))
      × (split_method (svc ++ (codes "::" ++ method)) ≡ inr (svc, method))
      × (split_method (svc ++ (codes "::" ++ (method ++ (codes "::" ++ rest))))
          ≡ inl (svc ++ (codes "::" ++ (method ++ (codes "::" ++ rest)))))
unfolding split_method
split_method-append svc method rest h k =
    let (p, ps, more) = split_colons-cons rest in
    let all = svc ++ (codes "::" ++ (method ++ (codes "::" ++ rest))) in
    (
      ap (method_of svc) (split_colons-plain svc h),
      ap (method_of (svc ++ (codes "::" ++ method)))
          (split_colons-append svc method h ∙ ap (λ l. svc ∷ l) (split_colons-plain method k)),
      ap (method_of all) (
          split_colons-append svc (method ++ (codes "::" ++ rest)) h
          ∙ ap (λ l. svc ∷ l) (split_colons-append method rest k)
          ∙ ap (λ l. svc ∷ method ∷ l) more),
    )
