-- ===== src/Tests/Interpolate.antt =====
-- templateargs/interpolate: the cases of parse_test.go, and the theorems at concrete strings.
use yab.Prelude.{
  Bool, true, false, ◌↔◌, List, [], ◌∷◌, ◌≡◌, refl, none, some, Text, codes, arith, text_beq,
  if◌then◌else◌, ◌==◌, text_comparable,
}
use yab.Interpolate.{Term, literal, variable, parse, ok, cannot_parse, no_variable, is_name_start}
use yab.Interpolate.Grammar.{
  Piece, simple, escaped, reference, IsName, name, end, IsWellFormed, print, carried, meaning,
}
use yab.Interpolate.Scan.{parse-meaning_iff, IsFresh}
use yab.Interpolate.Accept.{parse-ok_iff}
use yab.Interpolate.Render.{rendered, Resolver, render, render-stale_default}

abbrev var : Text → Text → Bool → Term
var n d h = variable (record { name = n; default = d; has_default = h })

parse_foo :
    parse (codes "foo ${bar:x-y} \\$${a.b-c}$z")
    ≡ ok (
        literal (codes "foo ")
        ∷ var (codes "bar") (codes "x-y") true
        ∷ literal (codes " ")
        ∷ literal (codes "$")
        ∷ var (codes "a.b-c") (codes "x-y") true
        ∷ literal (codes "$z")
        ∷ [])
unfolding parse
parse_foo = refl

parse_bad : parse (codes "a ${b-}") ≡ cannot_parse (literal (codes "a ") ∷ [])
unfolding parse
parse_bad = refl

IsName-a : IsName (codes "a")
unfolding is_name_start
IsName-a = name refl end

IsName-b : IsName (codes "b")
unfolding is_name_start
IsName-b = name refl end

-- "x ${a:1}${b:}\n"
abbrev pieces : List Piece
pieces =
    simple b'x' (codes " ")
    ∷ reference (codes "a") (some (codes "1"))
    ∷ reference (codes "b") (some [])
    ∷ escaped b'n'
    ∷ []

pieces-IsWellFormed : IsWellFormed false pieces
pieces-IsWellFormed = (
  (omega arith, (omega arith, tt)),
  (refl, (IsName-a, (omega arith, tt)), ((IsName-b, tt), (tt, tt))),
)

parse-meaning_iff_example :
    IsFresh no_variable pieces ↔ (parse (print pieces) ≡ ok (meaning pieces))
parse-meaning_iff_example = parse-meaning_iff pieces pieces-IsWellFormed

parse-ok_iff_example :
    (parse (codes "x ${a:1}") ≡ ok (literal (codes "x ") ∷ var (codes "a") (codes "1") true ∷ []))
    ↔ ((ps : List Piece) × IsWellFormed false ps
        × (codes "x ${a:1}" ≡ print ps)
        × ((literal (codes "x ") ∷ var (codes "a") (codes "1") true ∷ []) ≡ carried no_variable ps))
parse-ok_iff_example =
    parse-ok_iff (codes "x ${a:1}") (literal (codes "x ") ∷ var (codes "a") (codes "1") true ∷ [])

abbrev only_a : Resolver
only_a k = if k == codes "a" then some (codes "A") else none

abbrev greeting : List Term
greeting = literal (codes "hi ") ∷ var (codes "a") [] false ∷ var (codes "b") (codes "B") true ∷ []

render-greeting : render only_a greeting ≡ rendered (codes "hi AB")
unfolding render text_beq
render-greeting = refl

-- `${b:B}${a}` is rendered as "BB" though `a` has neither a value nor a default.
render-stale_default_example :
    (ts : List Term) × (parse (codes "${b:B}${a}") ≡ ok ts)
    × (render (λ k. none) ts ≡ rendered (codes "BB"))
render-stale_default_example =
    render-stale_default (λ k. none) (codes "b") (codes "a") b'B' []
      ((IsName-b, (omega arith, tt)), ((IsName-a, tt), tt)) refl refl
