-- ===== src/Proto/Names.antt =====
-- The full name of a Protobuf method, and the name of a message in a type URL.
use yab.Prelude.{
  ℕ, true, false, List, [], ◌∷◌, ◌++◌, ◌⊎◌, inl, inr, ◌≡◌, ◌↔◌, refl, sym, ap, ap₂, ◌∙◌, Text,
  Bool-cases, nat_comparable, nat_beq, nat_beq_iff, arith, subst,
}
use yab.Proto.{
  slash, split_slashes, split_method, message_name, last_part, invalid_method, ProtoError,
}

-- No byte of the text is a slash.
unfoldable pub NoSlash : Text → Type 0
NoSlash [] = Unit
NoSlash (c ∷ cs) = (nat_beq c slash ≡ false) × NoSlash cs

split_slashes-NoSlash : (s : Text) → NoSlash s → split_slashes s ≡ s ∷ []
unfolding split_slashes NoSlash
split_slashes-NoSlash [] h = refl
split_slashes-NoSlash (c ∷ cs) (h, hs) = rw (split_slashes, h, split_slashes-NoSlash cs hs) refl

split_slashes-append :
    (a b : Text) → NoSlash a → split_slashes (a ++ slash ∷ b) ≡ a ∷ split_slashes b
unfolding split_slashes NoSlash
split_slashes-append [] b h = refl
split_slashes-append (c ∷ cs) b (h, hs) = rw (split_slashes, h, split_slashes-append cs b hs) refl

abbrev HasSlash : Text → Type 0
HasSlash s = (a : Text) × (b : Text) × (s ≡ a ++ slash ∷ b) × NoSlash a

unfolding_slash : (c : ℕ) (cs : Text) → nat_beq c slash ≡ true → HasSlash (c ∷ cs)
unfolding NoSlash
unfolding_slash c cs h = ([], cs, ap (λ d. d ∷ cs) ((nat_beq_iff c slash).0 h), tt)

behind_slash :
    (c : ℕ) (cs : Text)
    → nat_beq c slash ≡ false
    → NoSlash cs ⊎ HasSlash cs
    → NoSlash (c ∷ cs) ⊎ HasSlash (c ∷ cs)
unfolding NoSlash
behind_slash c cs h (inl hs) = inl (h, hs)
behind_slash c cs h (inr (a, b, e, n)) = inr (c ∷ a, b, ap (λ l. c ∷ l) e, (h, n))

first_slash : (s : Text) → NoSlash s ⊎ HasSlash s
unfolding NoSlash
first_slash [] = inl tt
first_slash (c ∷ cs) = elim (Bool-cases (nat_beq c slash)) [
  | inl h ↦ inr (unfolding_slash c cs h)
  | inr h ↦ behind_slash c cs h (first_slash cs)
]

split_slashes-some : (s : Text) → (p : Text) × (ps : List Text) × (split_slashes s ≡ p ∷ ps)
split_slashes-some s = elim (first_slash s) [
  | inl h ↦ (s, [], split_slashes-NoSlash s h)
  | inr (a, b, e, h) ↦ (a, split_slashes b, ap split_slashes e ∙ split_slashes-append a b h)
]

split_method-none : (s : Text) → NoSlash s → split_method s ≡ inr (s, [])
unfolding split_method
split_method-none s h = rw (split_slashes-NoSlash s h) refl

split_method-one : (a b : Text) → NoSlash a → NoSlash b → split_method (a ++ slash ∷ b) ≡ inr (a, b)
unfolding split_method
split_method-one a b h k = rw (split_slashes-append a b h, split_slashes-NoSlash b k) refl

split_method-more :
    (a b c : Text)
    → NoSlash a
    → NoSlash b
    → split_method (a ++ slash ∷ (b ++ slash ∷ c))
      ≡ inl (invalid_method (a ++ slash ∷ (b ++ slash ∷ c)))
unfolding split_method
split_method-more a b c h k =
    rw
      (
        split_slashes-append a (b ++ slash ∷ c) h,
        split_slashes-append b c k,
        (split_slashes-some c).2,
      )
      refl

-- A name with at most one slash.
unfoldable pub IsMethod : Text → Text → Text → Type 0
IsMethod s svc m =
    (NoSlash s × (svc ≡ s) × (m ≡ [])) ⊎ ((s ≡ svc ++ slash ∷ m) × NoSlash svc × NoSlash m)

abbrev answer : Text → Text → ProtoError ⊎ (Text × Text)
answer svc m = inr (svc, m)

pair_inj : {svc m a b : Text} → answer svc m ≡ answer a b → (svc ≡ a) × (m ≡ b)
pair_inj e = ground (arith, e)

one_name : (s svc m : Text) → NoSlash s → split_method s ≡ inr (svc, m) → IsMethod s svc m
unfolding IsMethod
one_name s svc m h e =
    let names = pair_inj (sym e ∙ split_method-none s h) in inl (h, names.0, names.1)

not_invalid : {svc m s : Text} → answer svc m ≡ inl (invalid_method s) → ⊥
not_invalid e = ground (arith, e)

from_names : (s svc m : Text) → IsMethod s svc m → split_method s ≡ inr (svc, m)
unfolding IsMethod
from_names s svc m (inl (h, e, f)) = split_method-none s h ∙ ap₂ answer (sym e) (sym f)
from_names s svc m (inr (e, h, k)) = ap split_method e ∙ split_method-one svc m h k

two_names :
    (s svc m a b : Text)
    → s ≡ a ++ slash ∷ b
    → NoSlash a
    → NoSlash b
    → split_method s ≡ inr (svc, m)
    → IsMethod s svc m
unfolding IsMethod
two_names s svc m a b same h k e =
    let names = pair_inj (sym e ∙ ap split_method same ∙ split_method-one a b h k) in
    inr (
      same ∙ ap₂ (λ x y. x ++ slash ∷ y) (sym names.0) (sym names.1),
      subst NoSlash (sym names.0) h,
      subst NoSlash (sym names.1) k,
    )

more_names :
    (s svc m a b c d : Text)
    → s ≡ a ++ slash ∷ b
    → NoSlash a
    → b ≡ c ++ slash ∷ d
    → NoSlash c
    → split_method s ≡ inr (svc, m)
    → IsMethod s svc m
more_names s svc m a b c d same h again k e = absurd (
    not_invalid (
      sym e
      ∙ ap split_method (same ∙ ap (λ x. a ++ slash ∷ x) again)
      ∙ split_method-more a c d h k))

-- A full method name is split exactly if it has at most one slash: into the service and the method
-- around it, or into the service and an empty method where it has none.
pub split_method_iff : (s svc m : Text) → (split_method s ≡ inr (svc, m)) ↔ IsMethod s svc m
split_method_iff s svc m = (
  λ e. elim (first_slash s) [
    | inl h ↦ one_name s svc m h e
    | inr (a, b, same, h) ↦ elim (first_slash b) [
      | inl k ↦ two_names s svc m a b same h k e
      | inr (c, d, again, k) ↦ more_names s svc m a b c d same h again k e
    ]
  ],
  from_names s svc m,
)

-- Two parts at least, of which `b` is the last.
unfoldable EndsWith : Text → List Text → Type 0
EndsWith b parts =
    (p : Text) × (q : Text) × (qs : List Text) × (parts ≡ p ∷ q ∷ qs) × (last_part q qs ≡ b)

part_behind :
    (c : ℕ) (cs b : Text) → EndsWith b (split_slashes cs) → EndsWith b (split_slashes (c ∷ cs))
unfolding EndsWith split_slashes
part_behind c cs b (p, q, qs, e, last) = elim (Bool-cases (nat_beq c slash)) [
  | inl h ↦ ([], p, q ∷ qs, rw (h, e) refl, last)
  | inr h ↦ (c ∷ p, q, qs, rw (h, e) refl, last)
]

split_slashes-EndsWith : (a b : Text) → NoSlash b → EndsWith b (split_slashes (a ++ slash ∷ b))
unfolding EndsWith split_slashes
split_slashes-EndsWith [] b h = ([], b, [], ap (λ l. [] ∷ l) (split_slashes-NoSlash b h), refl)
split_slashes-EndsWith (c ∷ a) b h = part_behind c (a ++ slash ∷ b) b (split_slashes-EndsWith a b h)

EndsWith-last : {b : Text} (parts : List Text) → EndsWith b parts → last_part [] parts ≡ b
unfolding EndsWith
EndsWith-last parts (p, q, qs, e, last) = ap (last_part []) e ∙ last

-- The message of a type URL is looked for under the text behind its last slash.
pub message_name-append : (a b : Text) → NoSlash b → message_name (a ++ slash ∷ b) ≡ b
unfolding message_name
message_name-append a b h =
    EndsWith-last (split_slashes (a ++ slash ∷ b)) (split_slashes-EndsWith a b h)
