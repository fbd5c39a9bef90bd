-- ===== src/Handler/Printed.antt =====
-- What is printed for a response.
use yab.Prelude.{
  not, ◌&&◌, [], ◌∷◌, Option, none, some, inl, inr, ◌≡◌, refl, ap, ◌∙◌, Text, ◌==◌, text_comparable,
  text_beq_iff, Bool-cases, arith, is_nil, codes, if◌then◌else◌,
}
use yab.Prelude.Assoc.{Assoc, lookup, insert, lookup-insert, Distinct}
use yab.Template.Laws.{or_else}
use yab.Handler.{
  Printable, body_value, headers_value, field_value, Response, add_fields, own_values,
  out_serialized,
}

module _ {B F : Type 0} where
  abbrev pub as_field : Option F → Option (Printable B F)
  as_field none = none
  as_field (some v) = some (field_value v)

  add_fields-lookup :
      (fields : Assoc Text F) (m : Assoc Text (Printable B F)) (key : Text)
      → Distinct fields
      → lookup key (add_fields fields m) ≡ or_else (as_field (lookup key fields)) (lookup key m)
  unfolding add_fields lookup
  add_fields-lookup [] m key h = refl
  add_fields-lookup ((k, v) ∷ fields) m key (h, hs) =
      elim (Bool-cases (k == key))
        as (λ _.
          lookup key (add_fields ((k, v) ∷ fields) m)
          ≡ or_else (as_field (lookup key ((k, v) ∷ fields))) (lookup key m)) [
            | inl e ↦ ground (
              arith,
              add_fields-lookup fields (insert k (field_value v) m) key hs,
              lookup-insert m k (field_value v) key,
              text_beq_iff k key,
              ap (λ j. lookup j fields) ((text_beq_iff k key).0 e),
            )
            | inr e ↦ ground (
              arith,
              add_fields-lookup fields (insert k (field_value v) m) key hs,
              lookup-insert m k (field_value v) key,
            )
          ]

  -- The headers, if there are any, and the body.
  abbrev pub own_value : B → Response F → Text → Option (Printable B F)
  own_value b res key =
      if codes "headers" == key && not (is_nil res.headers)
      then some (headers_value res.headers)
      else if codes "body" == key
      then some (body_value b)
      else none

  own_values-lookup :
      (b : B) (res : Response F) (key : Text) → lookup key (own_values b res) ≡ own_value b res key
  unfolding lookup
  own_values-lookup b res key = elim (Bool-cases (is_nil res.headers)) [
    | inl e ↦
        rw e (elim (Bool-cases (codes "headers" == key)) [ inl h ↦ rw h refl | inr h ↦ rw h refl ])
    | inr e ↦
        rw
          (
            e,
            lookup-insert {V = Printable B F} ((codes "body", body_value b) ∷ []) (codes "headers")
                (headers_value res.headers) key,
          )
          (elim (Bool-cases (codes "headers" == key)) [ inl h ↦ rw h refl | inr h ↦ rw h refl ])
  ]

  -- If no field stands twice, what is printed under a key is the transport's field of that name if
  -- there is one, else the headers, if there are any, and the body under their own names.
  pub out_serialized-lookup :
      (b : B) (res : Response F) (key : Text)
      → Distinct res.transport_fields
      → lookup key (out_serialized b res)
        ≡ or_else (as_field (lookup key res.transport_fields)) (own_value b res key)
  unfolding out_serialized
  out_serialized-lookup b res key h =
      add_fields-lookup res.transport_fields (own_values b res) key h
      ∙ ap (or_else (as_field (lookup key res.transport_fields))) (own_values-lookup b res key)
