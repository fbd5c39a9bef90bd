-- ===== src/Tests/TemplateArgs.antt =====
-- templateargs: the cases of process_test.go, and the theorems at concrete requests.
use yab.Prelude.{
  ℕ, Bool, true, false, [], ◌∷◌, ◌≡◌, refl, none, some, Text, codes, arith, text_beq, if◌then◌else◌,
  ◌==◌, text_comparable,
}
use yab.Prelude.Assoc.{Assoc, lookup}
use yab.Prelude.Int.{pos}
use yab.Interpolate.{parse, is_name_start}
use yab.Interpolate.Grammar.{IsName, name, end, print, reference}
use yab.Interpolate.Render.{render}
use yab.Value.{
  Value, nil, bool, int, string, list, mapping, Values, Entries, no_entries, entry, key_eq,
}
use yab.TemplateArgs.{done, fail, crash, process_value, process_map, process_string, no_value}
use yab.TemplateArgs.Plain.{IsPlainValue}
use yab.TemplateArgs.Reference.{process_string-reference, process_map-crash, IsReplaced}

-- A decoder that knows three texts.
abbrev yaml : Text → Value × Bool
yaml t =
    if t == codes "12"
    then (int (pos 12), false)
    else if t == codes "[]"
    then (list Values.end, false)
    else if t == codes "yes"
    then (bool true, false)
    else (string t, false)

abbrev no_floats : ℕ → ℕ → Bool
no_floats a b = false

abbrev args : Assoc Text Text
args = (codes "n", codes "12") ∷ (codes "l", codes "[]") ∷ (codes "y", codes "yes") ∷ []

abbrev request : Entries
request =
    entry (string (codes "key")) (string (codes "${n}"))
      (entry (string (codes "a${n}")) (string (codes "${y}")) no_entries)

process_request :
    process_map yaml no_floats args no_entries request
    ≡ done (
        entry
          (string (codes "key"))
          (int (pos 12))
          (entry (string (codes "a12")) (string (codes "yes")) no_entries))
unfolding process_value parse render text_beq lookup key_eq
process_request = refl

process_missing : process_string yaml (codes "${z}") args ≡ fail (no_value (codes "z"))
unfolding process_string parse render text_beq lookup
process_missing = refl

abbrev plain_request : Value
plain_request = mapping (
    entry (string (codes "k")) (int (pos 1))
      (entry (string (codes "v")) (list (Values.item nil Values.end)) no_entries))

plain_request-IsPlainValue : IsPlainValue no_floats plain_request
unfolding key_eq text_beq
plain_request-IsPlainValue =
    ((omega arith, tt), tt, refl, tt, ((omega arith, tt), (tt, tt), refl, (refl, tt), tt))

IsName-n : IsName (codes "n")
unfolding is_name_start
IsName-n = name refl end

IsName-l : IsName (codes "l")
unfolding is_name_start
IsName-l = name refl end

process_string-reference_example :
    IsReplaced yaml args
      (codes "n")
      none
      (print (reference (codes "n") none ∷ []))
      (process_string yaml (print (reference (codes "n") none ∷ [])) args)
process_string-reference_example = process_string-reference yaml args (codes "n") none IsName-n tt

lookup_l : lookup (codes "l") args ≡ some (codes "[]")
unfolding lookup text_beq
lookup_l = refl

yaml_list : yaml (codes "[]") ≡ (list Values.end, false)
unfolding text_beq
yaml_list = refl

process_one : process_value yaml no_floats args (int (pos 1)) ≡ done (int (pos 1))
unfolding process_value
process_one = refl

process_map-crash_example :
    process_map yaml no_floats args no_entries
      (entry (string (print (reference (codes "l") none ∷ []))) (int (pos 1)) no_entries)
    ≡ crash
process_map-crash_example =
    process_map-crash yaml no_floats args (codes "l") (codes "[]") Values.end (int (pos 1))
      (int (pos 1)) no_entries no_entries IsName-l lookup_l (cc) (cc) yaml_list process_one
