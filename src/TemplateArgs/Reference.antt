-- ===== src/TemplateArgs/Reference.antt =====
-- A string that is one reference to a template argument.
use yab.Prelude.{
  ℕ, Bool, true, false, ◌⊎◌, sym, subst, Option-cases, [], ◌∷◌, ◌≡◌, ◌≢◌, refl, ◌∙◌, Option, none,
  some, Text, arith, inl, inr, text_comparable, text_beq, text_beq_iff, Bool-cases,
}
use yab.Prelude.Assoc.{Assoc, lookup}
use yab.Interpolate.{no_variable}
use yab.Interpolate.Grammar.{reference, print, IsName, IsDefault, carried}
use yab.Interpolate.Scan.{parse-print}
use yab.Interpolate.Render.{
  Rendered, rendered, unknown_variable, render, render-singleton, term_value,
}
use yab.Value.{is_bool, Value, string, list, Values, Entries, entry}
use yab.TemplateArgs.Plain.{process_map-entry}
use yab.TemplateArgs.{
  Outcome, done, fail, crash, no_value, bad_yaml, is_go_bool, decode, process_value, process_map,
  process_string, process_rendered, assign,
}

-- What one reference is rendered as: the argument, or else the default, or else an error.
abbrev pub reference_value : Assoc Text Text → Text → Option Text → Rendered
reference_value args n d = elim (lookup n args) [
  | some val ↦ rendered val
  | none ↦ elim d [ some s ↦ rendered s | none ↦ unknown_variable n ]
]

render-reference :
    (args : Assoc Text Text) (n : Text) (d : Option Text)
    → render (λ k. lookup k args) (carried no_variable (reference n d ∷ []))
      ≡ reference_value args n d
render-reference args n none = render-singleton _ _ ∙ unfold term_value in ground arith
render-reference args n (some []) = render-singleton _ _ ∙ unfold term_value in ground arith
render-reference args n (some (c ∷ cs)) = render-singleton _ _ ∙ unfold term_value in ground arith

process_string-reference_value :
    (yaml : Text → Value × Bool) (args : Assoc Text Text) (n : Text) (d : Option Text)
    → IsName n
    → IsDefault d
    → process_string yaml (print (reference n d ∷ [])) args
      ≡ process_rendered yaml (print (reference n d ∷ [])) (reference_value args n d)
unfolding process_string
process_string-reference_value yaml args n d hn hd =
    rw (parse-print (reference n d ∷ []) ((hn, hd), tt)) (rw (render-reference args n d))

-- What the text `text` in place of the string `v` becomes, where the decoder gives `value` for it and
-- says whether it `failed`.
pub data Becomes (v text : Text) (value : Value) (failed : Bool) : Outcome Value → Type 0 where
  stays_empty : text ≡ [] → Becomes v text value failed (done (string []))
  stays_itself : text ≡ v → Becomes v text value failed (done (string v))
  no_bool :
      text ≢ []
      → text ≢ v
      → is_bool value ≡ true
      → is_go_bool text ≡ false
      → Becomes v text value failed (done (string text))
  undecoded :
      text ≢ []
      → text ≢ v
      → (is_bool value ≡ false) ⊎ (is_go_bool text ≡ true)
      → failed ≡ true
      → Becomes v text value failed (fail (bad_yaml text))
  decoded :
      text ≢ []
      → text ≢ v
      → (is_bool value ≡ false) ⊎ (is_go_bool text ≡ true)
      → failed ≡ false
      → Becomes v text value failed (done value)

-- The outcome for a reference `${n}` or `${n:d}`, which is the string `v`: the argument, or else the
-- default, in its place, or else an error.
abbrev pub IsReplaced :
    (Text → Value × Bool) → Assoc Text Text → Text → Option Text → Text → Outcome Value → Type 0
IsReplaced yaml args n d v o =
    ((text : Text) × (lookup n args ≡ some text) × Becomes v text (yaml text).0 (yaml text).1 o)
    ⊎ ((text : Text) × (lookup n args ≡ none)
        × (d ≡ some text)
        × Becomes v text (yaml text).0 (yaml text).1 o)
    ⊎ ((lookup n args ≡ none) × (d ≡ none) × (o ≡ fail (no_value n)))

text_beq-ne : (a b : Text) → text_beq a b ≡ false → a ≢ b
text_beq-ne a b h e = absurd (ground (arith, h, (text_beq_iff a b).1 e))

decode-Becomes :
    (yaml : Text → Value × Bool) (v text : Text)
    → text ≢ []
    → text ≢ v
    → Becomes v text (yaml text).0 (yaml text).1 (decode yaml text)
unfolding decode
decode-Becomes yaml v text h k = elim (Bool-cases (is_bool (yaml text).0)) [
  | inl e ↦ elim (Bool-cases (is_go_bool text)) [
    | inl f ↦ elim (Bool-cases (yaml text).1) [
      | inl g ↦ rw (decode, e, f, g) (undecoded h k (inr f) refl)
      | inr g ↦ rw (decode, e, f, g) (decoded h k (inr f) refl)
    ]
    | inr f ↦ rw (decode, e, f) (no_bool h k e f)
  ]
  | inr e ↦ elim (Bool-cases (yaml text).1) [
    | inl g ↦ rw (decode, e, g) (undecoded h k (inl e) refl)
    | inr g ↦ rw (decode, e, g) (decoded h k (inl e) refl)
  ]
]

process_rendered-Becomes :
    (yaml : Text → Value × Bool) (v text : Text)
    → Becomes v text (yaml text).0 (yaml text).1 (process_rendered yaml v (rendered text))
unfolding process_rendered
process_rendered-Becomes yaml v text = elim (Bool-cases (text_beq text [])) [
  | inl e ↦ rw (process_rendered, e) (stays_empty ((text_beq_iff text []).0 e))
  | inr e ↦ elim (Bool-cases (text_beq text v)) [
    | inl f ↦ rw (process_rendered, e, f) (stays_itself ((text_beq_iff text v).0 f))
    | inr f ↦
        rw (process_rendered, e, f)
          (decode-Becomes yaml v text (text_beq-ne text [] e) (text_beq-ne text v f))
  ]
]

default-IsReplaced :
    (yaml : Text → Value × Bool) (args : Assoc Text Text) (n v : Text) (d : Option Text)
    → lookup n args ≡ none
    → IsReplaced yaml args n d v (process_rendered yaml v (reference_value args n d))
unfolding process_rendered
default-IsReplaced yaml args n v none e = rw (reference_value, e) (inr (inr (refl, refl, refl)))
default-IsReplaced yaml args n v (some text) e =
    rw (reference_value, e) (inr (inl (text, refl, refl, process_rendered-Becomes yaml v text)))

-- A string that is one reference `${n}` or `${n:d}` is replaced by the argument `n` if it is given,
-- else by the default, and is an error if there is neither. What it is replaced by stays a string if
-- it is empty or the reference itself, or if the decoder reads it as a Boolean though it is none to
-- Go; else it is an error if the decoder fails, and is what the decoder reads if not.
pub process_string-reference :
    (yaml : Text → Value × Bool) (args : Assoc Text Text) (n : Text) (d : Option Text)
    → IsName n
    → IsDefault d
    → IsReplaced yaml args n d
        (print (reference n d ∷ []))
        (process_string yaml (print (reference n d ∷ [])) args)
process_string-reference yaml args n d hn hd =
    let v = print (reference n d ∷ []) in
    subst (IsReplaced yaml args n d v) (sym (process_string-reference_value yaml args n d hn hd))
      (elim (Option-cases (lookup n args)) [
        | inr (text, e) ↦
            rw (reference_value, e) (inl (text, refl, process_rendered-Becomes yaml v text))
        | inl e ↦ default-IsReplaced yaml args n v d e
      ])

text_beq_ne : (a b : Text) → a ≢ b → text_beq a b ≡ false
text_beq_ne a b h = elim (Bool-cases (text_beq a b)) [
  | inl e ↦ absurd (h ((text_beq_iff a b).0 e))
  | inr e ↦ e
]

process_rendered-list :
    (yaml : Text → Value × Bool) (v text : Text) (l : Values)
    → text ≢ []
    → text ≢ v
    → yaml text ≡ (list l, false)
    → process_rendered yaml v (rendered text) ≡ done (list l)
unfolding process_rendered
process_rendered-list yaml v text l h k e = rw (text_beq_ne text [] h, text_beq_ne text v k, e)

value_of_string :
    (yaml : Text → Value × Bool) (feq : ℕ → ℕ → Bool) (args : Assoc Text Text) (s : Text)
    → process_value yaml feq args (string s) ≡ process_string yaml s args
unfolding process_value
value_of_string yaml feq args s = refl

-- A key that is one reference, to an argument which the decoder reads as a list, makes `processMap`
-- panic, once the entry's value has been processed: a list cannot be the key of a map.
pub process_map-crash :
    (yaml : Text → Value × Bool) (feq : ℕ → ℕ → Bool) (args : Assoc Text Text) (n val : Text)
    (l : Values) (v v' : Value) (m seen : Entries)
    → IsName n
    → lookup n args ≡ some val
    → val ≢ []
    → val ≢ print (reference n none ∷ [])
    → yaml val ≡ (list l, false)
    → process_value yaml feq args v ≡ done v'
    → process_map yaml feq args seen (entry (string (print (reference n none ∷ []))) v m) ≡ crash
process_map-crash yaml feq args n val l v v' m seen hn found h k e done_v =
    process_map-entry yaml feq args (string (print (reference n none ∷ []))) v m seen
    ∙ rw key (rw done_v (unfold assign in refl))
  where
    key : process_value yaml feq args (string (print (reference n none ∷ []))) ≡ done (list l)
    key =
        value_of_string yaml feq args _
        ∙ process_string-reference_value yaml args n none hn tt
        ∙ rw (found, reference_value) (process_rendered-list yaml _ val l h k e)
