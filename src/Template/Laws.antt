-- ===== src/Template/Laws.antt =====
-- What a template sets and what the command line keeps.
use yab.Prelude.{
  Bool, true, ◌||◌, [], ◌∷◌, Option, none, some, ◌⊎◌, inl, inr, Text, text_comparable, is_nil, ◌≡◌,
  refl, arith, Option-cases, text_beq_iff,
}
use yab.Prelude.Assoc.{Assoc, lookup, insert, lookup-insert}
use yab.Options.{TransportOptions, Options}
use yab.Template.{
  Template, TemplateError, merge, merge_into, template_peers, read_yaml_request, template_transport,
}

abbrev pub or_else {ℓ} : {A : Type ℓ} → Option A → Option A → Option A
or_else none b = b
or_else (some a) b = some a

merge_into-lookup :
    (source target : Assoc Text Text) (key : Text)
    → lookup key (merge_into target source) ≡ or_else (lookup key target) (lookup key source)
unfolding merge_into lookup
merge_into-lookup [] target key = ground arith
merge_into-lookup ((k, v) ∷ source) target key =
    elim (Option-cases (lookup k target))
      as (λ _.
        lookup key (merge_into target ((k, v) ∷ source))
        ≡ or_else (lookup key target) (lookup key ((k, v) ∷ source))) [
          | inl e ↦ ground (
            arith,
            e,
            merge_into-lookup source (insert k v target) key,
            lookup-insert target k v key,
            text_beq_iff k key,
          )
          | inr (w, e) ↦ ground (arith, e, merge_into-lookup source target key, text_beq_iff k key)
        ]

-- A merged map holds what the target, the map of the command line, has at a key, and else what the
-- source, the map of the template, has there.
pub merge-lookup :
    (target source : Assoc Text Text) (key : Text)
    → lookup key (merge target source) ≡ or_else (lookup key target) (lookup key source)
unfolding merge lookup
merge-lookup target [] key = ground arith
merge-lookup [] (e ∷ source) key = refl
merge-lookup (t ∷ target) (e ∷ source) key = merge_into-lookup (e ∷ source) (t ∷ target) key

-- Peers are given in one way only: by a list of them, or by the URL of one.
abbrev pub one_source : TransportOptions → Bool
one_source o = is_nil o.peers || is_nil o.peer_list

abbrev sources_of : TemplateError ⊎ TransportOptions → Bool
sources_of (inl e) = true
sources_of (inr o) = one_source o

abbrev pub sources_after : TemplateError ⊎ Options → Bool
sources_after (inl e) = true
sources_after (inr o) = one_source o.t_opts

module _ {R : Type 0} (process_map : R → Text ⊎ R) (marshal : R → Text ⊎ Text)
    (resolve : Text → Text ⊎ Text) (resolve_path : Text → Text ⊎ Text) where
  template_peers-one_source :
      (t : Template R) (o : TransportOptions)
      → one_source o ≡ true
      → sources_of (template_peers process_map marshal resolve resolve_path t o) ≡ true
  unfolding template_peers
  template_peers-one_source t o h = ground arith

  -- If the command line gives the peers in one way only, so do the options behind a template, also
  -- where the template gives them in the other way.
  pub read_yaml_request-one_source :
      (t : Template R) (opts : Options)
      → one_source opts.t_opts ≡ true
      → sources_after (read_yaml_request process_map marshal resolve resolve_path t opts) ≡ true
  unfolding read_yaml_request template_transport
  read_yaml_request-one_source t opts h = ground (arith, template_peers-one_source t opts.t_opts h)
