-- ===== src/Descriptors.antt =====
-- protobuf/filedescriptorsets.go: descriptors from files, resolved with the files they import.
--
-- `desc.CreateFileDescriptor` is the parameter `create`, over descriptors `F`, as are reading a file
-- and parsing it. The recursion of resolveFileDescriptor runs on fuel, and gives none where it is used
-- up.
pub mod Built
pub mod Ranked
use yab.Prelude.{
  ℕ, zero, suc, Bool, List, [], ◌∷◌, ◌++◌, Option, none, some, ◌⊎◌, inl, inr, Text, ◌==◌,
  text_comparable, if◌then◌else◌,
}
use yab.Prelude.Assoc.{Assoc, lookup, insert}
use yab.Proto.{Service}

-- `descriptor.FileDescriptorProto`: its name and the files it imports.
pub record FileProto : Type 0 where
  pub name : Text
  pub dependency : List Text

pub data DescriptorError : Type 0 where
  not_read not_parsed_file : (file because : Text) → DescriptorError
  no_descriptor : Text → DescriptorError
  not_created : Text → DescriptorError

-- What a step of the resolving gives: the files that are resolved by then, and the result.
abbrev pub Step : Type 0 → Type 0 → Type 0
Step F A = Assoc Text F × (DescriptorError ⊎ A)

module _ {F : Type 0} (create : FileProto → List F → Text ⊎ F)
    (unresolved : Assoc Text FileProto) where
  abbrev pub created : Text → Assoc Text F → Text ⊎ F → Step F F
  created filename m (inl e) = (m, inl (not_created e))
  created filename m (inr r) = (insert filename r m, inr r)

  -- The end of `resolveFileDescriptor`, behind its loop over the imports.
  abbrev pub with_deps : Text → FileProto → Option (Step F (List F)) → Option (Step F F)
  with_deps filename fd none = none
  with_deps filename fd (some (m, inl e)) = some (m, inl e)
  with_deps filename fd (some (m, inr deps)) = some (created filename m (create fd deps))

  abbrev pub and_dep : F → Option (Step F (List F)) → Option (Step F (List F))
  and_dep d none = none
  and_dep d (some (m, inl e)) = some (m, inl e)
  and_dep d (some (m, inr deps)) = some (m, inr (d ∷ deps))

  abbrev pub next_dep :
      (Assoc Text F → Option (Step F (List F))) → Option (Step F F) → Option (Step F (List F))
  next_dep rest none = none
  next_dep rest (some (m, inl e)) = some (m, inl e)
  next_dep rest (some (m, inr f)) = and_dep f (rest m)

  -- The loop over the imports, with the resolving of one.
  unfoldable pub resolve_all :
      (Assoc Text F → Text → Option (Step F F))
      → Assoc Text F
      → List Text
      → Option (Step F (List F))
  resolve_all resolve_one m [] = some (m, inr [])
  resolve_all resolve_one m (d ∷ ds) =
      next_dep (λ m'. resolve_all resolve_one m' ds) (resolve_one m d)

  abbrev pub unless_resolved : Assoc Text F → Option F → Option (Step F F) → Option (Step F F)
  unless_resolved m (some r) rest = some (m, inr r)
  unless_resolved m none rest = rest

  abbrev pub from_proto :
      (Assoc Text F → Text → Option (Step F F))
      → Text
      → Assoc Text F
      → Option FileProto
      → Option (Step F F)
  from_proto resolve_one filename m none = some (m, inl (no_descriptor filename))
  from_proto resolve_one filename m (some fd) =
      with_deps filename fd (resolve_all resolve_one m fd.dependency)

  -- `resolveFileDescriptor`
  unfoldable pub resolve_file_descriptor : ℕ → Assoc Text F → Text → Option (Step F F)
  unfolding resolve_all
  resolve_file_descriptor zero m filename = none
  resolve_file_descriptor (suc fuel) m filename =
      unless_resolved m (lookup filename m)
        (from_proto (resolve_file_descriptor fuel) filename m (lookup filename unresolved))

  -- The loop of `NewDescriptorProviderFileDescriptorSet`: the files that are resolved at its end.
  abbrev pub next_file :
      (Assoc Text F → Option (DescriptorError ⊎ Assoc Text F))
      → Option (Step F F)
      → Option (DescriptorError ⊎ Assoc Text F)
  next_file rest none = none
  next_file rest (some (m, inl e)) = some (inl e)
  next_file rest (some (m, inr f)) = rest m

  unfoldable pub resolve_files :
      ℕ → Assoc Text F → List FileProto → Option (DescriptorError ⊎ Assoc Text F)
  unfolding resolve_file_descriptor
  resolve_files fuel m [] = some (inr m)
  resolve_files fuel m (fd ∷ fds) =
      next_file (λ m'. resolve_files fuel m' fds) (resolve_file_descriptor fuel m fd.name)

-- The map `unresolved`: the last file of a name counts.
unfoldable pub unresolved_of : Assoc Text FileProto → List FileProto → Assoc Text FileProto
unresolved_of m [] = m
unresolved_of m (fd ∷ fds) = unresolved_of (insert fd.name fd m) fds

-- `NewDescriptorProviderFileDescriptorSet`
unfoldable pub new_descriptor_provider :
    {F : Type 0}
    → (FileProto → List F → Text ⊎ F)
    → ℕ
    → List FileProto
    → Option (DescriptorError ⊎ Assoc Text F)
unfolding resolve_files unresolved_of
new_descriptor_provider create fuel files =
    resolve_files create (unresolved_of [] files) fuel [] files

-- `NewDescriptorProviderFileDescriptorSetBins`, up to the files it has read and parsed, of which each
-- gives its descriptors.
abbrev pub and_files :
    List FileProto → DescriptorError ⊎ List FileProto → DescriptorError ⊎ List FileProto
and_files fds (inl e) = inl e
and_files fds (inr more) = inr (fds ++ more)

abbrev pub of_file :
    Text
    → Text ⊎ List FileProto
    → DescriptorError ⊎ List FileProto
    → DescriptorError ⊎ List FileProto
of_file f (inl e) rest = inl (not_parsed_file f e)
of_file f (inr fds) rest = and_files fds rest

abbrev pub of_read :
    Text
    → (Text → Text ⊎ List FileProto)
    → Text ⊎ Text
    → DescriptorError ⊎ List FileProto
    → DescriptorError ⊎ List FileProto
of_read f unmarshal (inl e) rest = inl (not_read f e)
of_read f unmarshal (inr b) rest = of_file f (unmarshal b) rest

unfoldable pub read_bins :
    (Text → Text ⊎ Text)
    → (Text → Text ⊎ List FileProto)
    → List Text
    → DescriptorError ⊎ List FileProto
read_bins read unmarshal [] = inr []
read_bins read unmarshal (f ∷ fs) = of_read f unmarshal (read f) (read_bins read unmarshal fs)

-- `fileSource.FindService`: the service, or the names that are known, in the order in which the map
-- gives its files. `services` are those of a file.
module _ {F : Type 0} (services : F → List Service) where
  unfoldable pub find_in_services : Text → List Text → List Service → List Text ⊎ Service
  find_in_services name available [] = inl available
  find_in_services name available (svc ∷ rest) =
      let later = find_in_services name (available ++ svc.full_name ∷ []) rest in
      if svc.full_name == name then inr svc else later

  abbrev pub next_services :
      (List Text → List Text ⊎ Service) → List Text ⊎ Service → List Text ⊎ Service
  next_services rest (inl available) = rest available
  next_services rest (inr svc) = inr svc

  unfoldable pub find_in_files : Text → List Text → Assoc Text F → List Text ⊎ Service
  unfolding find_in_services
  find_in_files name available [] = inl available
  find_in_files name available ((file, fd) ∷ files) =
      next_services (λ a. find_in_files name a files)
        (find_in_services name available (services fd))

-- `fileSource.FindMessage`, with the search in one file
module _ {F D : Type 0} (find_in_file : F → Text → Option D) where
  abbrev pub or_next_file : Option D → Option D → Option D
  or_next_file (some d) rest = some d
  or_next_file none rest = rest

  unfoldable pub find_file_message : Text → Assoc Text F → Option D
  find_file_message message_type [] = none
  find_file_message message_type ((file, fd) ∷ files) =
      or_next_file (find_in_file fd message_type) (find_file_message message_type files)
