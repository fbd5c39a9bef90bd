-- ===== src/Prelude/Assoc.antt =====
-- Go maps: association lists, each key at most once. The order of the list is the order in which a
-- `range` loop meets the entries, which Go leaves open.
use mathlib.Core.Path.{◌≡◌, refl}
use mathlib.Core.List.{List, [], ◌∷◌}
use mathlib.Core.Option.{Option, none, some}
use native.Mathlib.Omega.{arith}
use yab.Prelude.Tests.{Comparable, ◌==◌, if◌then◌else◌}

abbrev pub Assoc {ℓ κ} : Type ℓ → Type κ → Type (ℓ ⊔ κ)
Assoc K V = List (K × V)

module _ {ℓ κ} {K : Type ℓ} {V : Type κ} ⦃c : Comparable K⦄ where
  -- `v, ok := m[key]`
  unfoldable pub lookup : K → Assoc K V → Option V
  lookup key [] = none
  lookup key ((k, v) ∷ rest) = let found = lookup key rest in if k == key then some v else found

  -- `m[key] = value`: a new key goes to the end.
  unfoldable pub insert : K → V → Assoc K V → Assoc K V
  insert key value [] = (key, value) ∷ []
  insert key value ((k, v) ∷ rest) =
      let more = insert key value rest in if k == key then (k, value) ∷ rest else (k, v) ∷ more

  -- No key stands twice, as in a Go map.
  abbrev pub Distinct : Assoc K V → Type (ℓ ⊔ κ)
  Distinct [] = Unit
  Distinct ((k, v) ∷ m) = (lookup k m ≡ none) × Distinct m

  -- A write is read back at its key, and changes no other.
  pub lookup-insert :
      (m : Assoc K V) (key : K) (value : V) (other : K)
      → lookup other (insert key value m) ≡ (if key == other then some value else lookup other m)
  unfolding lookup insert
  lookup-insert [] key value other = refl
  lookup-insert ((k, v) ∷ rest) key value other =
      let ih = lookup-insert rest key value other in
      ground (arith, ih, c.equals_iff k key, c.equals_iff k other, c.equals_iff key other)
