-- ===== src/Interpolate/Render.antt =====
-- `Render` and `RenderTo` of templateargs/interpolate/types.go. The resolver is a function from names
-- to values; the writer is the buffer of `Render`, to which a write cannot fail.
use yab.Prelude.{
  ℕ, true, false, List, [], ◌∷◌, ◌++◌, ◌≡◌, refl, ap, ◌∙◌, sym, ◌⊎◌, inl, inr, ◌↔◌, ◌≢◌, All,
  Option-cases, Bool-cases, Option, none, some, Text, arith, if◌then◌else◌, append_assoc,
  append-nil,
}
use yab.Interpolate.{Term, unset, literal, variable, parse, ok}
use yab.Interpolate.Grammar.{reference, IsWellFormed, print}
use yab.Interpolate.Scan.{parse-print}

pub data Rendered : Type 0 where
  rendered : Text → Rendered
  unknown_variable : Text → Rendered

abbrev pub Resolver : Type 0
Resolver = Text → Option Text

-- `value` of one term, in the switch of `RenderTo`
unfoldable pub term_value : Resolver → Term → Rendered
term_value resolve unset = rendered []
term_value resolve (literal t) = rendered t
term_value resolve (variable v) = elim (resolve v.name) [
  | some val ↦ rendered val
  | none ↦ if v.has_default then rendered v.default else unknown_variable v.name
]

-- The loop of `RenderTo`, with what has been written so far.
unfoldable pub render_to : Text → Resolver → List Term → Rendered
unfolding term_value
render_to buff resolve [] = rendered buff
render_to buff resolve (t ∷ ts) = elim (term_value resolve t) [
  | rendered value ↦ render_to (buff ++ value) resolve ts
  | unknown_variable name ↦ unknown_variable name
]

unfoldable pub render : Resolver → List Term → Rendered
unfolding render_to
render = render_to []

-- `pre` in front of what was rendered.
abbrev pub prepend : Text → Rendered → Rendered
prepend pre (rendered s) = rendered (pre ++ s)
prepend pre (unknown_variable n) = unknown_variable n

-- Rendering piece by piece: the first error, or all values in order.
abbrev pub concat_values : Resolver → List Term → Rendered
concat_values resolve [] = rendered []
concat_values resolve (t ∷ ts) = elim (term_value resolve t) [
  | rendered value ↦ prepend value (concat_values resolve ts)
  | unknown_variable name ↦ unknown_variable name
]

prepend-prepend : (a b : Text) (r : Rendered) → prepend (a ++ b) r ≡ prepend a (prepend b r)
prepend-prepend a b (rendered s) = ap rendered (append_assoc a b s)
prepend-prepend a b (unknown_variable n) = refl

prepend-nil : (r : Rendered) → prepend [] r ≡ r
prepend-nil (rendered s) = refl
prepend-nil (unknown_variable n) = refl

Rendered-cases :
    (r : Rendered) → ((s : Text) × (r ≡ rendered s)) ⊎ ((n : Text) × (r ≡ unknown_variable n))
Rendered-cases (rendered s) = inl (s, refl)
Rendered-cases (unknown_variable n) = inr (n, refl)

render_to-concat_values :
    (ts : List Term) (buff : Text) (resolve : Resolver)
    → render_to buff resolve ts ≡ prepend buff (concat_values resolve ts)
unfolding render_to
render_to-concat_values [] buff resolve = ap rendered (sym (append-nil buff))
render_to-concat_values (t ∷ ts) buff resolve = elim (Rendered-cases (term_value resolve t)) [
  | inl (value, e) ↦
      rw (e, render_to, concat_values)
        (render_to-concat_values ts (buff ++ value) resolve
          ∙ prepend-prepend buff value (concat_values resolve ts))
  | inr (name, e) ↦ rw (e, render_to, concat_values)
]

-- `Render` writes the values of all terms in order, and stops with an error at the first variable
-- that has neither a value nor a default.
pub render-concat_values :
    (resolve : Resolver) (ts : List Term) → render resolve ts ≡ concat_values resolve ts
unfolding render
render-concat_values resolve ts = render_to-concat_values ts [] resolve ∙ prepend-nil _

prepend-rendered_nil :
    (r : Rendered)
    → (elim r [
      | rendered value ↦ prepend value (rendered [])
      | unknown_variable n ↦ unknown_variable n
    ])
      ≡ r
prepend-rendered_nil (rendered s) = ap rendered (append-nil s)
prepend-rendered_nil (unknown_variable n) = refl

pub render-singleton :
    (resolve : Resolver) (t : Term) → render resolve (t ∷ []) ≡ term_value resolve t
render-singleton resolve t =
    render-concat_values resolve (t ∷ []) ∙ prepend-rendered_nil (term_value resolve t)

-- A variable that can be rendered.
abbrev pub IsResolved : Resolver → Term → Type 0
IsResolved resolve (variable v) = (resolve v.name ≢ none) ⊎ (v.has_default ≡ true)
IsResolved resolve t = Unit

term_value-rendered :
    (resolve : Resolver) (t : Term)
    → IsResolved resolve t
    → (s : Text) × (term_value resolve t ≡ rendered s)
unfolding term_value
term_value-rendered resolve unset h = ([], refl)
term_value-rendered resolve (literal t) h = (t, refl)
term_value-rendered resolve (variable v) h = elim (Option-cases (resolve v.name)) [
  | inr (val, e) ↦ (val, ground arith)
  | inl e ↦ (v.default, elim h [ inl h' ↦ absurd (h' e) | inr d ↦ ground arith ])
]

term_value-IsResolved :
    (resolve : Resolver) (t : Term) {s : Text}
    → term_value resolve t ≡ rendered s
    → IsResolved resolve t
unfolding term_value
term_value-IsResolved resolve unset e = tt
term_value-IsResolved resolve (literal t) e = tt
term_value-IsResolved resolve (variable v) e = elim (Option-cases (resolve v.name)) [
  | inr (val, q) ↦ inl (λ n. cc (q, n))
  | inl q ↦ elim (Bool-cases v.has_default) [ inl d ↦ inr d | inr d ↦ absurd (ground arith) ]
]

-- Rendering succeeds exactly when every variable has a value or a default.
pub render-rendered_iff :
    (resolve : Resolver) (ts : List Term)
    → All (IsResolved resolve) ts ↔ ((s : Text) × (render resolve ts ≡ rendered s))
render-rendered_iff resolve ts = rw render-concat_values (forth ts, λ p. back ts p.0 p.1)
  where
    forth :
        (us : List Term)
        → All (IsResolved resolve) us
        → (s : Text) × (concat_values resolve us ≡ rendered s)
    forth [] h = ([], refl)
    forth (u ∷ us) h =
        let (a, e) = term_value-rendered resolve u h.0 in
        let (b, q) = forth us h.1 in (a ++ b, ground arith)

    back :
        (us : List Term) (s : Text)
        → concat_values resolve us ≡ rendered s
        → All (IsResolved resolve) us
    back [] s e = tt
    back (u ∷ us) s e = elim (Rendered-cases (term_value resolve u)) [
      | inr (n, q) ↦ absurd (ground arith)
      | inl (a, q) ↦ elim (Rendered-cases (concat_values resolve us)) [
        | inr (n, r) ↦ absurd (ground arith)
        | inl (b, r) ↦ (term_value-IsResolved resolve u q, back us b r)
      ]
    ]

-- `${n:d}${k}`, where `d` is not empty and the resolver has no value for `n` and none for `k`, is
-- rendered as `d` twice, though the second reference has no default.
pub render-stale_default :
    (resolve : Resolver) (n k : Text) (d : ℕ) (ds : Text)
    → IsWellFormed false (reference n (some (d ∷ ds)) ∷ reference k none ∷ [])
    → resolve n ≡ none
    → resolve k ≡ none
    → (ts : List Term) × (parse (print (reference n (some (d ∷ ds)) ∷ reference k none ∷ []))
        ≡ ok ts)
      × (render resolve ts ≡ rendered ((d ∷ ds) ++ (d ∷ ds)))
render-stale_default resolve n k d ds h hn hk = (
  _,
  parse-print (reference n (some (d ∷ ds)) ∷ reference k none ∷ []) h,
  render-concat_values resolve _ ∙ unfold term_value in ground (arith, append-nil (d ∷ ds)),
)
