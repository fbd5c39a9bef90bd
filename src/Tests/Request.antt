-- ===== src/Tests/Request.antt =====
-- request.go: headers from the command line and from a document, and the theorems at them.
use yab.Prelude.{
  Text, Option, none, some, ◌⊎◌, inl, inr, [], ◌∷◌, false, is_nil, ◌≡◌, ◌↔◌, refl, codes, text_beq,
  text_comparable,
}
use yab.Prelude.Assoc.{Assoc}
use yab.Request.{Input, inline, get_request_input, panicked, get_headers}
use yab.Request.Headers.{get_headers-panicked_iff}

abbrev read_inline : Input → Text ⊎ Text
read_inline (inline s) = inr s
read_inline _ = inl []

-- The document that is decoded holds one header.
abbrev one_header : Text → Text ⊎ Option (Assoc Text Text)
one_header s = inr (some ((codes "k", s) ∷ []))

-- The document that is decoded holds nothing.
abbrev no_header : Text → Text ⊎ Option (Assoc Text Text)
no_header s = inr none

abbrev own : Assoc Text Text
own = (codes "j", codes "w") ∷ []

get_headers-panicked_iff_example :
    (get_headers read_inline no_header (codes "null") [] ((codes "j", codes "w") ∷ []) ≡ panicked)
    ↔ (is_nil (codes "null") ≡ false) × (no_header (codes "null") ≡ inr none) × (is_nil own ≡ false)
unfolding get_request_input text_beq
get_headers-panicked_iff_example =
    get_headers-panicked_iff read_inline no_header (codes "null") [] (codes "null")
      ((codes "j", codes "w") ∷ []) refl
