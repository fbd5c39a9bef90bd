-- ===== src/Descriptors/Ranked.antt =====
-- When the resolving of descriptors ends: always, where imports do not go in circles, and never at a
-- file that imports itself first.
use yab.Prelude.{
  ℕ, zero, suc, ◌≤◌, ◌<◌, List, [], ◌∷◌, Option, none, some, ◌⊎◌, inl, inr, ◌≡◌, refl, Text, arith,
  text_comparable, All,
}
use yab.Prelude.Assoc.{Assoc, lookup}
use yab.Descriptors.{
  FileProto, DescriptorError, Step, created, with_deps, and_dep, next_dep, resolve_all,
  unless_resolved, from_proto, resolve_file_descriptor, no_descriptor, next_file, resolve_files,
  unresolved_of, new_descriptor_provider,
}

abbrev Gives : {A : Type 0} → Option A → Type 0
Gives {A} o = (a : A) × (o ≡ some a)

module _ {F : Type 0} (create : FileProto → List F → Text ⊎ F)
    (unresolved : Assoc Text FileProto) where
  -- Imports go down: every file that is imported has a smaller rank.
  abbrev pub IsRanked : (Text → ℕ) → Type 0
  IsRanked rank =
      (name : Text) (fd : FileProto)
      → lookup name unresolved ≡ some fd
      → All (λ d. rank d < rank name) fd.dependency

  and_dep-Gives :
      (f : F) (o : Option (Step F (List F))) → Gives o → Gives (and_dep create unresolved f o)
  and_dep-Gives f none (a, e) = absurd (ground (arith, e))
  and_dep-Gives f (some (m, inl e)) g = ((m, inl e), refl)
  and_dep-Gives f (some (m, inr ds)) g = ((m, inr (f ∷ ds)), refl)

  next_dep-Gives :
      (rest : Assoc Text F → Option (Step F (List F))) (o : Option (Step F F))
      → ((m : Assoc Text F) → Gives (rest m))
      → Gives o
      → Gives (next_dep create unresolved rest o)
  next_dep-Gives rest none more (a, e) = absurd (ground (arith, e))
  next_dep-Gives rest (some (m, inl e)) more g = ((m, inl e), refl)
  next_dep-Gives rest (some (m, inr f)) more g = and_dep-Gives f (rest m) (more m)

  resolve_all-Gives :
      (one : Assoc Text F → Text → Option (Step F F)) (ds : List Text)
      → All (λ d. (m : Assoc Text F) → Gives (one m d)) ds
      → (m : Assoc Text F) → Gives (resolve_all create unresolved one m ds)
  unfolding resolve_all
  resolve_all-Gives one [] h m = ((m, inr []), refl)
  resolve_all-Gives one (d ∷ ds) (h, hs) m =
      next_dep-Gives (λ m'. resolve_all create unresolved one m' ds) (one m d)
        (resolve_all-Gives one ds hs) (h m)

  with_deps-Gives :
      (name : Text) (fd : FileProto) (o : Option (Step F (List F)))
      → Gives o
      → Gives (with_deps create unresolved name fd o)
  with_deps-Gives name fd none (a, e) = absurd (ground (arith, e))
  with_deps-Gives name fd (some (m, inl e)) g = ((m, inl e), refl)
  with_deps-Gives name fd (some (m, inr ds)) g =
      (created create unresolved name m (create fd ds), refl)

  unless_resolved-Gives :
      (m : Assoc Text F) (o : Option F) (rest : Option (Step F F))
      → Gives rest
      → Gives (unless_resolved create unresolved m o rest)
  unless_resolved-Gives m none rest g = g
  unless_resolved-Gives m (some r) rest g = ((m, inr r), refl)

  -- The imports of a file, each with enough fuel.
  deps-Gives :
      (fuel : ℕ) (rank : Text → ℕ)
      → ((m : Assoc Text F) (name : Text)
          → rank name < fuel
          → Gives (resolve_file_descriptor create unresolved fuel m name))
      → (bound : ℕ) (ds : List Text) → bound ≤ fuel
      → All (λ d. rank d < bound) ds
      → All
          (λ d. (m : Assoc Text F) → Gives (resolve_file_descriptor create unresolved fuel m d))
          ds
  deps-Gives fuel rank ih bound [] le h = tt
  deps-Gives fuel rank ih bound (d ∷ ds) le (h, hs) =
      (λ m. ih m d (omega (arith, h, le)), deps-Gives fuel rank ih bound ds le hs)

  from_proto-Gives :
      (rank : Text → ℕ) (fuel : ℕ) (m : Assoc Text F) (name : Text) (o : Option FileProto)
      → ((m' : Assoc Text F) (d : Text)
          → rank d < fuel
          → Gives (resolve_file_descriptor create unresolved fuel m' d))
      → rank name ≤ fuel
      → ((fd : FileProto) → o ≡ some fd → All (λ d. rank d < rank name) fd.dependency)
      → Gives
          (from_proto create unresolved (resolve_file_descriptor create unresolved fuel) name m o)
  from_proto-Gives rank fuel m name none ih le down = ((m, inl (no_descriptor name)), refl)
  from_proto-Gives rank fuel m name (some fd) ih le down =
      with_deps-Gives name fd
        (resolve_all create unresolved (resolve_file_descriptor create unresolved fuel) m
          fd.dependency)
        (resolve_all-Gives (resolve_file_descriptor create unresolved fuel) fd.dependency
          (deps-Gives fuel rank ih (rank name) fd.dependency le (down fd refl)) m)

  -- If imports go down in rank, a file is resolved, or its error is found, with fuel of one more than
  -- its rank.
  pub resolve_file_descriptor-IsRanked :
      (rank : Text → ℕ)
      → IsRanked rank
      → (fuel : ℕ) (m : Assoc Text F) (name : Text) → rank name < fuel
      → (a : Step F F) × (resolve_file_descriptor create unresolved fuel m name ≡ some a)
  unfolding resolve_file_descriptor
  resolve_file_descriptor-IsRanked rank ranked zero m name h = absurd (omega (arith, h))
  resolve_file_descriptor-IsRanked rank ranked (suc fuel) m name h =
      unless_resolved-Gives m (lookup name m)
        (from_proto create unresolved (resolve_file_descriptor create unresolved fuel) name m
          (lookup name unresolved))
        (from_proto-Gives rank fuel m name (lookup name unresolved)
          (resolve_file_descriptor-IsRanked rank ranked fuel) (omega (arith, h)) (ranked name))

  -- A file that imports itself first, and is not resolved yet, is resolved with no fuel at all: the
  -- recursion of the code does not end.
  pub resolve_file_descriptor-self_import :
      (fuel : ℕ) (m : Assoc Text F) (name : Text) (fd : FileProto) (ds : List Text)
      → lookup name m ≡ none
      → lookup name unresolved ≡ some fd
      → fd.dependency ≡ name ∷ ds
      → resolve_file_descriptor create unresolved fuel m name ≡ none
  unfolding resolve_file_descriptor resolve_all
  resolve_file_descriptor-self_import zero m name fd ds new there self = refl
  resolve_file_descriptor-self_import (suc fuel) m name fd ds new there self =
      let ih = resolve_file_descriptor-self_import fuel m name fd ds new there self in
      rw (new, there, self, ih) refl

  next_file-Gives :
      (rest : Assoc Text F → Option (DescriptorError ⊎ Assoc Text F)) (o : Option (Step F F))
      → ((m : Assoc Text F) → Gives (rest m))
      → Gives o
      → Gives (next_file create unresolved rest o)
  next_file-Gives rest none more (a, e) = absurd (ground (arith, e))
  next_file-Gives rest (some (m, inl e)) more g = (inl e, refl)
  next_file-Gives rest (some (m, inr f)) more g = more m

  resolve_files-Gives :
      (rank : Text → ℕ)
      → IsRanked rank
      → (fuel : ℕ) (fds : List FileProto) → All (λ fd. rank fd.name < fuel) fds
      → (m : Assoc Text F) → Gives (resolve_files create unresolved fuel m fds)
  unfolding resolve_files
  resolve_files-Gives rank ranked fuel [] h m = (inr m, refl)
  resolve_files-Gives rank ranked fuel (fd ∷ fds) (h, hs) m =
      next_file-Gives (λ m'. resolve_files create unresolved fuel m' fds)
        (resolve_file_descriptor create unresolved fuel m fd.name)
        (resolve_files-Gives rank ranked fuel fds hs)
        (resolve_file_descriptor-IsRanked rank ranked fuel m fd.name h)

-- If the imports of a descriptor set go down in rank, then with fuel above the ranks of its files the
-- resolving ends, with an error or with the files.
pub new_descriptor_provider-IsRanked :
    {F : Type 0} (create : FileProto → List F → Text ⊎ F) (files : List FileProto) (rank : Text → ℕ)
    (fuel : ℕ)
    → IsRanked create (unresolved_of [] files) rank
    → All (λ fd. rank fd.name < fuel) files
    → (a : DescriptorError ⊎ Assoc Text F) × (new_descriptor_provider create fuel files ≡ some a)
unfolding new_descriptor_provider
new_descriptor_provider-IsRanked create files rank fuel ranked above =
    resolve_files-Gives create (unresolved_of [] files) rank ranked fuel files above []
