-- ===== src/Descriptors/Built.antt =====
-- What is resolved: each file is created from its own descriptor and those of the files it imports.
use yab.Prelude.{
  ℕ, zero, Bool, suc, true, false, List, [], ◌∷◌, Option, none, some, ◌⊎◌, inl, inr, ◌≡◌, refl, sym,
  ◌∙◌, subst, Text, arith, ◌==◌, text_comparable, text_beq_iff, if◌then◌else◌,
}
use yab.Prelude.Assoc.{Assoc, lookup, insert, lookup-insert}
use yab.Descriptors.{
  FileProto, DescriptorError, Step, created, with_deps, and_dep, next_dep, resolve_all,
  unless_resolved, from_proto, resolve_file_descriptor, next_file, resolve_files, unresolved_of,
  new_descriptor_provider,
}

some_inj {ℓ} : {A : Type ℓ} {a b : A} → some a ≡ some b → a ≡ b
some_inj h = ground (arith, h)

module _ {F : Type 0} (create : FileProto → List F → Text ⊎ F)
    (unresolved : Assoc Text FileProto) where
  mutual
    -- The descriptor of a name is created from the file of that name and the descriptors of its imports.
    pub data IsBuilt : Text → F → Type 0 where
      built :
          {name : Text} {fd : FileProto} {deps : List F} {r : F}
          → lookup name unresolved ≡ some fd
          → AreBuilt fd.dependency deps
          → create fd deps ≡ inr r
          → IsBuilt name r

    pub data AreBuilt : List Text → List F → Type 0 where
      no_deps : AreBuilt [] []
      more_deps :
          {d : Text} {ds : List Text} {f : F} {fs : List F}
          → IsBuilt d f
          → AreBuilt ds fs
          → AreBuilt (d ∷ ds) (f ∷ fs)

  -- Every file that is resolved is so built.
  abbrev pub AllBuilt : Assoc Text F → Type 0
  AllBuilt m = (name : Text) (r : F) → lookup name m ≡ some r → IsBuilt name r

  -- What a step leaves, for a result that is good.
  abbrev StepBuilt : {A : Type 0} → (A → Type 0) → Option (Step F A) → Type 0
  StepBuilt Good none = Unit
  StepBuilt Good (some (m, inl e)) = AllBuilt m
  StepBuilt Good (some (m, inr a)) = AllBuilt m × Good a

  inserted :
      (c : Bool) (name other : Text) (r q : F) (m : Assoc Text F)
      → (c ≡ true → name ≡ other)
      → IsBuilt name r
      → AllBuilt m
      → (if c then some r else lookup other m) ≡ some q
      → IsBuilt other q
  inserted true name other r q m same b all e =
      subst (λ n. IsBuilt n q) (same refl) (subst (IsBuilt name) (some_inj e) b)
  inserted false name other r q m same b all e = all other q e

  insert-AllBuilt :
      (name : Text) (r : F) (m : Assoc Text F)
      → IsBuilt name r
      → AllBuilt m
      → AllBuilt (insert name r m)
  insert-AllBuilt name r m b all other q e =
      inserted (name == other) name other r q m (text_beq_iff name other).0 b all
        (sym (lookup-insert m name r other) ∙ e)

  and_dep-Built :
      (d : Text) (ds : List Text) (f : F) (o : Option (Step F (List F)))
      → IsBuilt d f
      → StepBuilt (AreBuilt ds) o
      → StepBuilt (AreBuilt (d ∷ ds)) (and_dep create unresolved f o)
  and_dep-Built d ds f none b g = tt
  and_dep-Built d ds f (some (m, inl e)) b g = g
  and_dep-Built d ds f (some (m, inr fs)) b (all, g) = (all, more_deps b g)

  next_dep-Built :
      (d : Text) (ds : List Text) (rest : Assoc Text F → Option (Step F (List F)))
      (o : Option (Step F F))
      → ((m : Assoc Text F) → AllBuilt m → StepBuilt (AreBuilt ds) (rest m))
      → StepBuilt (IsBuilt d) o
      → StepBuilt (AreBuilt (d ∷ ds)) (next_dep create unresolved rest o)
  next_dep-Built d ds rest none more g = tt
  next_dep-Built d ds rest (some (m, inl e)) more g = g
  next_dep-Built d ds rest (some (m, inr f)) more (all, b) =
      and_dep-Built d ds f (rest m) b (more m all)

  resolve_all-Built :
      (one : Assoc Text F → Text → Option (Step F F)) (ds : List Text)
      → ((m : Assoc Text F) (d : Text) → AllBuilt m → StepBuilt (IsBuilt d) (one m d))
      → (m : Assoc Text F) → AllBuilt m
      → StepBuilt (AreBuilt ds) (resolve_all create unresolved one m ds)
  unfolding resolve_all
  resolve_all-Built one [] good m all = (all, no_deps)
  resolve_all-Built one (d ∷ ds) good m all =
      next_dep-Built d ds (λ m'. resolve_all create unresolved one m' ds) (one m d)
        (resolve_all-Built one ds good) (good m d all)

  created-Built :
      (name : Text) (fd : FileProto) (deps : List F) (m : Assoc Text F) (c : Text ⊎ F)
      → lookup name unresolved ≡ some fd
      → AreBuilt fd.dependency deps
      → create fd deps ≡ c
      → AllBuilt m
      → StepBuilt (IsBuilt name) (some (created create unresolved name m c))
  created-Built name fd deps m (inl e) there d h all = all
  created-Built name fd deps m (inr r) there d h all =
      (insert-AllBuilt name r m (built there d h) all, built there d h)

  with_deps-Built :
      (name : Text) (fd : FileProto) (o : Option (Step F (List F)))
      → lookup name unresolved ≡ some fd
      → StepBuilt (AreBuilt fd.dependency) o
      → StepBuilt (IsBuilt name) (with_deps create unresolved name fd o)
  with_deps-Built name fd none there g = tt
  with_deps-Built name fd (some (m, inl e)) there g = g
  with_deps-Built name fd (some (m, inr deps)) there (all, d) =
      created-Built name fd deps m (create fd deps) there d refl all

  from_proto-Built :
      (one : Assoc Text F → Text → Option (Step F F)) (name : Text) (m : Assoc Text F)
      (o : Option FileProto)
      → ((m' : Assoc Text F) (d : Text) → AllBuilt m' → StepBuilt (IsBuilt d) (one m' d))
      → lookup name unresolved ≡ o
      → AllBuilt m
      → StepBuilt (IsBuilt name) (from_proto create unresolved one name m o)
  from_proto-Built one name m none good there all = all
  from_proto-Built one name m (some fd) good there all =
      with_deps-Built name fd (resolve_all create unresolved one m fd.dependency) there
        (resolve_all-Built one fd.dependency good m all)

  unless_resolved-Built :
      (name : Text) (m : Assoc Text F) (o : Option F) (rest : Option (Step F F))
      → lookup name m ≡ o
      → AllBuilt m
      → StepBuilt (IsBuilt name) rest
      → StepBuilt (IsBuilt name) (unless_resolved create unresolved m o rest)
  unless_resolved-Built name m (some r) rest h all g = (all, all name r h)
  unless_resolved-Built name m none rest h all g = g

  resolve_file_descriptor-Built :
      (fuel : ℕ) (m : Assoc Text F) (name : Text)
      → AllBuilt m
      → StepBuilt (IsBuilt name) (resolve_file_descriptor create unresolved fuel m name)
  unfolding resolve_file_descriptor
  resolve_file_descriptor-Built zero m name all = tt
  resolve_file_descriptor-Built (suc fuel) m name all =
      unless_resolved-Built name m (lookup name m)
        (from_proto create unresolved (resolve_file_descriptor create unresolved fuel) name m
          (lookup name unresolved))
        refl all
        (from_proto-Built (resolve_file_descriptor create unresolved fuel) name m
          (lookup name unresolved) (resolve_file_descriptor-Built fuel) refl all)

  abbrev FilesBuilt : Option (DescriptorError ⊎ Assoc Text F) → Type 0
  FilesBuilt none = Unit
  FilesBuilt (some (inl e)) = Unit
  FilesBuilt (some (inr m)) = AllBuilt m

  next_file-Built :
      (name : Text) (rest : Assoc Text F → Option (DescriptorError ⊎ Assoc Text F))
      (o : Option (Step F F))
      → ((m : Assoc Text F) → AllBuilt m → FilesBuilt (rest m))
      → StepBuilt (IsBuilt name) o
      → FilesBuilt (next_file create unresolved rest o)
  next_file-Built name rest none more g = tt
  next_file-Built name rest (some (m, inl e)) more g = tt
  next_file-Built name rest (some (m, inr f)) more (all, b) = more m all

  resolve_files-Built :
      (fuel : ℕ) (fds : List FileProto) (m : Assoc Text F)
      → AllBuilt m
      → FilesBuilt (resolve_files create unresolved fuel m fds)
  unfolding resolve_files
  resolve_files-Built fuel [] m all = all
  resolve_files-Built fuel (fd ∷ fds) m all =
      next_file-Built fd.name (λ m'. resolve_files create unresolved fuel m' fds)
        (resolve_file_descriptor create unresolved fuel m fd.name) (resolve_files-Built fuel fds)
        (resolve_file_descriptor-Built fuel m fd.name all)

nothing_built :
    {F : Type 0} (create : FileProto → List F → Text ⊎ F) (unresolved : Assoc Text FileProto)
    → AllBuilt create unresolved []
unfolding lookup
nothing_built create unresolved name r e = absurd (ground (arith, e))

-- Whatever is resolved behind the files of a descriptor set, in whatever order they stand, is created
-- from the last file of its name and the descriptors, so created themselves, of the files it imports,
-- in the order of the imports.
pub new_descriptor_provider-IsBuilt :
    {F : Type 0} (create : FileProto → List F → Text ⊎ F) (fuel : ℕ) (files : List FileProto)
    (m : Assoc Text F) (name : Text) (r : F)
    → new_descriptor_provider create fuel files ≡ some (inr m)
    → lookup name m ≡ some r
    → IsBuilt create (unresolved_of [] files) name r
unfolding new_descriptor_provider
new_descriptor_provider-IsBuilt create fuel files m name r h =
    subst (FilesBuilt create (unresolved_of [] files)) h
      (resolve_files-Built create (unresolved_of [] files) fuel files []
        (nothing_built create (unresolved_of [] files)))
      name r
