-- ===== src/TemplateArgs/Plain.antt =====
-- The substitution on a request in which no string holds a `$` or a backslash.
use yab.Prelude.{
  ℕ, Bool, true, false, [], ◌∷◌, ◌≡◌, refl, sym, ap, ◌∙◌, Text, All, append-nil, text_beq_refl,
  text_beq, arith, text_comparable,
}
use yab.Prelude.Assoc.{Assoc}
use yab.Interpolate.{parse, ok, literal}
use yab.Interpolate.Grammar.{IsPlain, simple}
use yab.Interpolate.Scan.{parse-print}
use yab.Interpolate.Render.{render, render-concat_values, term_value}
use yab.Value.{
  Value, string, list, mapping, Values, end, item, Entries, no_entries, entry, is_hashable, key_eq,
  append_entries, append_entries_assoc, put,
}
use yab.TemplateArgs.{done, process_value, process_list, process_map, process_string, assign, ◌>>=◌}

-- The key differs from those of the entries.
abbrev pub IsNewKey : (ℕ → ℕ → Bool) → Value → Entries → Type 0
IsNewKey feq k no_entries = Unit
IsNewKey feq k (entry j w es) = (key_eq feq j k ≡ false) × IsNewKey feq k es

-- No string in the value holds a `$` or a backslash, and the maps are maps: their keys can be hashed,
-- and differ from those before them.
module _ (feq : ℕ → ℕ → Bool) where
  abbrev mutual
    pub IsPlainValue : Value → Type 0
    IsPlainValue (string v) = All IsPlain v
    IsPlainValue (list l) = IsPlainList l
    IsPlainValue (mapping m) = IsPlainMap no_entries m
    IsPlainValue v = Unit

    pub IsPlainList : Values → Type 0
    IsPlainList end = Unit
    IsPlainList (item v l) = IsPlainValue v × IsPlainList l

    pub IsPlainMap : Entries → Entries → Type 0
    IsPlainMap seen no_entries = Unit
    IsPlainMap seen (entry k v m) =
        IsPlainValue k
        × IsPlainValue v
        × (is_hashable k ≡ true)
        × IsNewKey feq k seen
        × IsPlainMap (append_entries seen (entry k v no_entries)) m

parse-plain :
    (c : ℕ) (cs : Text) → All IsPlain (c ∷ cs) → parse (c ∷ cs) ≡ ok (literal (c ∷ cs) ∷ [])
parse-plain c cs h =
    ap (λ t. parse (c ∷ t)) (sym (append-nil cs)) ∙ parse-print (simple c cs ∷ []) (h, tt)

process_string-plain :
    (yaml : Text → Value × Bool) (v : Text) (args : Assoc Text Text)
    → All IsPlain v
    → process_string yaml v args ≡ done (string v)
unfolding process_string
process_string-plain yaml [] args h = unfold parse render text_beq in refl
process_string-plain yaml (c ∷ cs) args h = rw (parse-plain c cs h) (
    rw render-concat_values (
      unfold term_value in
      rw (append-nil cs) (unfold text_beq in ground (arith, text_beq_refl cs))))

put-new :
    (feq : ℕ → ℕ → Bool) (k v : Value) (es : Entries)
    → IsNewKey feq k es
    → put feq k v es ≡ append_entries es (entry k v no_entries)
unfolding put
put-new feq k v no_entries h = refl
put-new feq k v (entry j w es) (h, hs) = rw h (ap (entry j w) (put-new feq k v es hs))

append_entries_nil : (m : Entries) → append_entries m no_entries ≡ m
append_entries_nil no_entries = refl
append_entries_nil (entry k v m) = ap (entry k v) (append_entries_nil m)

module _ (yaml : Text → Value × Bool) (feq : ℕ → ℕ → Bool) (args : Assoc Text Text) where
  pub process_map-entry :
      (k v : Value) (m r : Entries)
      → process_map yaml feq args r (entry k v m) ≡ (do
        new_k ← process_value yaml feq args k
        new_v ← process_value yaml feq args v
        r' ← assign feq new_k new_v r
        process_map yaml feq args r' m)
  unfolding process_value
  process_map-entry k v m r = refl

  process_list-item :
      (v : Value) (l : Values)
      → process_list yaml feq args (item v l) ≡ (do
        new_v ← process_value yaml feq args v
        rest ← process_list yaml feq args l
        done (item new_v rest))
  unfolding process_value
  process_list-item v l = refl

  assign-new :
      (k v : Value) (es : Entries)
      → is_hashable k ≡ true
      → IsNewKey feq k es
      → assign feq k v es ≡ done (append_entries es (entry k v no_entries))
  unfolding assign
  assign-new k v es h new = rw h (ap done (put-new feq k v es new))

  mutual
    unfolding process_value

    value_unchanged : (v : Value) → IsPlainValue feq v → process_value yaml feq args v ≡ done v
    value_unchanged (string v) h = process_string-plain yaml v args h
    value_unchanged (list l) h = rw (list_unchanged l h)
    value_unchanged (mapping m) h = rw (map_unchanged m no_entries h)
    value_unchanged _ h = refl

    list_unchanged : (l : Values) → IsPlainList feq l → process_list yaml feq args l ≡ done l
    list_unchanged end h = refl
    list_unchanged (item v l) (h, hs) =
        process_list-item v l ∙ rw (value_unchanged v h) (rw (list_unchanged l hs))

    map_unchanged :
        (m seen : Entries)
        → IsPlainMap feq seen m
        → process_map yaml feq args seen m ≡ done (append_entries seen m)
    map_unchanged no_entries seen h = ap done (sym (append_entries_nil seen))
    map_unchanged (entry k v m) seen (hk, hv, hash, new, hs) =
        process_map-entry k v m seen
        ∙ rw (value_unchanged k hk) (
            rw (value_unchanged v hv) (
              rw (assign-new k v seen hash new) (
                map_unchanged m (append_entries seen (entry k v no_entries)) hs
                ∙ ap done (append_entries_assoc seen (entry k v no_entries) m))))

-- A request whose strings hold no `$` and no backslash is returned unchanged, whatever the arguments
-- and the decoder are.
pub process_value-plain :
    (yaml : Text → Value × Bool) (feq : ℕ → ℕ → Bool) (args : Assoc Text Text) (v : Value)
    → IsPlainValue feq v
    → process_value yaml feq args v ≡ done v
process_value-plain yaml feq args v h = value_unchanged yaml feq args v h
