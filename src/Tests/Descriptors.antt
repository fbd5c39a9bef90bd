-- ===== src/Tests/Descriptors.antt =====
-- protobuf/filedescriptorsets.go: two files of which one imports the other, a file that imports
-- itself, and the theorems at them.
use yab.Prelude.{
  ℕ, ◌<◌, List, [], ◌∷◌, ◌++◌, none, some, ◌⊎◌, inr, ◌≡◌, refl, Text, codes, text_beq, arith,
  text_comparable, text_beq_iff, subst, Bool, true, false, if◌then◌else◌, ◌==◌, All,
}
use yab.Prelude.Assoc.{Assoc, lookup, insert}
use yab.Descriptors.{
  FileProto, DescriptorError, unresolved_of, new_descriptor_provider, resolve_file_descriptor,
}
use yab.Descriptors.Built.{IsBuilt, new_descriptor_provider-IsBuilt}
use yab.Descriptors.Ranked.{
  IsRanked, new_descriptor_provider-IsRanked, resolve_file_descriptor-self_import,
}

abbrev importing : FileProto
importing = record { name = codes "a"; dependency = codes "b" ∷ [] }

abbrev imported : FileProto
imported = record { name = codes "b"; dependency = [] }

-- A descriptor is the list of the names it was made of.
abbrev join_names : List (List Text) → List Text
join_names [] = []
join_names (l ∷ ls) = l ++ join_names ls

abbrev by_names : FileProto → List (List Text) → Text ⊎ List Text
by_names fd deps = inr (fd.name ∷ join_names deps)

abbrev both_files : Assoc Text (List Text)
both_files = (codes "b", codes "b" ∷ []) ∷ (codes "a", codes "a" ∷ codes "b" ∷ []) ∷ []

new_descriptor_provider-IsBuilt_example :
    IsBuilt by_names
      (unresolved_of [] (importing ∷ imported ∷ []))
      (codes "a")
      (codes "a" ∷ codes "b" ∷ [])
unfolding new_descriptor_provider lookup insert text_beq
new_descriptor_provider-IsBuilt_example =
    new_descriptor_provider-IsBuilt by_names 2 (importing ∷ imported ∷ []) both_files (codes "a")
      (codes "a" ∷ codes "b" ∷ []) refl refl

abbrev place : Text → ℕ
place name = if name == codes "a" then 1 else 0

abbrev Below : Text → FileProto → Type 0
Below name fd = All (λ d. place d < place name) fd.dependency

some_inj : {A : Type 0} {a b : A} → some a ≡ some b → a ≡ b
some_inj h = ground (arith, h)

either_file :
    (is_a is_b : Bool) (name : Text) (fd : FileProto)
    → (is_a ≡ true → codes "a" ≡ name)
    → (if is_a then some importing else if is_b then some imported else none) ≡ some fd
    → Below name fd
unfolding text_beq
either_file true is_b name fd same e =
    subst (Below name) (some_inj e) (subst (λ n. Below n importing) (same refl) (ground arith, tt))
either_file false true name fd same e = subst (Below name) (some_inj e) tt
either_file false false name fd same e = absurd (ground (arith, e))

imports_go_down : IsRanked by_names (unresolved_of [] (importing ∷ imported ∷ [])) place
unfolding unresolved_of lookup insert text_beq
imports_go_down name fd e =
    either_file (codes "a" == name) (codes "b" == name) name fd (text_beq_iff (codes "a") name).0 e

new_descriptor_provider-IsRanked_example :
    (a : DescriptorError ⊎ Assoc Text (List Text)) × (new_descriptor_provider by_names 2
        (importing ∷ imported ∷ [])
      ≡ some a)
unfolding text_beq
new_descriptor_provider-IsRanked_example =
    new_descriptor_provider-IsRanked by_names (importing ∷ imported ∷ []) place 2 imports_go_down
      (ground arith, (ground arith, tt))

abbrev own_import : FileProto
own_import = record { name = codes "a"; dependency = codes "a" ∷ [] }

resolve_file_descriptor-self_import_example :
    resolve_file_descriptor by_names ((codes "a", own_import) ∷ []) 100 [] (codes "a") ≡ none
unfolding lookup text_beq
resolve_file_descriptor-self_import_example =
    resolve_file_descriptor-self_import by_names ((codes "a", own_import) ∷ []) 100 [] (codes "a")
      own_import [] refl refl refl
