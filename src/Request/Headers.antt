-- ===== src/Request/Headers.antt =====
-- The headers of a call: which of two sources wins, and when getHeaders panics.
use yab.Prelude.{
  false, [], ◌∷◌, Option, none, some, ◌⊎◌, inl, inr, Text, ◌==◌, ◌≡◌, ◌↔◌, refl, arith,
  text_comparable, is_nil, text_beq_iff, ap, Bool-cases,
}
use yab.Prelude.Assoc.{Assoc, lookup, insert, lookup-insert, Distinct}
use yab.Template.Laws.{or_else}
use yab.Request.{
  Input, headers, panicked, override_all, decode_headers, get_headers, get_request_input,
}

override_all-lookup :
    (override m : Assoc Text Text) (key : Text)
    → Distinct override
    → lookup key (override_all m override) ≡ or_else (lookup key override) (lookup key m)
unfolding override_all lookup
override_all-lookup [] m key h = refl
override_all-lookup ((k, v) ∷ override) m key (h, hs) =
    elim (Bool-cases (k == key))
      as (λ _.
        lookup key (override_all m ((k, v) ∷ override))
        ≡ or_else (lookup key ((k, v) ∷ override)) (lookup key m)) [
          | inl e ↦ ground (
            arith,
            override_all-lookup override (insert k v m) key hs,
            lookup-insert m k v key,
            text_beq_iff k key,
            ap (λ j. lookup j override) ((text_beq_iff k key).0 e),
          )
          | inr e ↦
              ground
                (arith, override_all-lookup override (insert k v m) key hs, lookup-insert m k v key)
        ]

module _ (read : Input → Text ⊎ Text) (unmarshal : Text → Text ⊎ Option (Assoc Text Text)) where
  -- Headers of the command line win over those of the decoded input, which are kept at every other
  -- key. This is where reading and decoding give a map.
  pub get_headers-lookup :
      (text name contents : Text) (override m : Assoc Text Text) (key : Text)
      → Distinct override
      → read (get_request_input text name) ≡ inr contents
      → is_nil contents ≡ false
      → unmarshal contents ≡ inr (some m)
      → (hs : Assoc Text Text) × (get_headers read unmarshal text name override ≡ headers hs)
        × (lookup key hs ≡ or_else (lookup key override) (lookup key m))
  unfolding get_headers decode_headers
  get_headers-lookup text name contents override m key d r c u =
      (override_all m override, cc (r, c, u), override_all-lookup override m key d)

  -- Where the input is read, getHeaders panics exactly when the input is not empty, the document in it
  -- holds nothing or null, and the command line gives a header.
  pub get_headers-panicked_iff :
      (text name contents : Text) (override : Assoc Text Text)
      → read (get_request_input text name) ≡ inr contents
      → (get_headers read unmarshal text name override ≡ panicked)
        ↔ (is_nil contents ≡ false) × (unmarshal contents ≡ inr none) × (is_nil override ≡ false)
  unfolding get_headers decode_headers
  get_headers-panicked_iff text name contents override r = (λ h. ground arith, λ h. ground arith)
