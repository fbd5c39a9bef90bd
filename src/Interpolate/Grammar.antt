-- ===== src/Interpolate/Grammar.antt =====
-- The grammar of an interpolated string, as templateargs/interpolate/parse.rl writes it down: the
-- pieces of a string, their concrete syntax, and the terms that the documentation assigns to them.
use yab.Prelude.{
  ℕ, Bool, true, false, ◌⊎◌, ◌≢◌, List, [], ◌∷◌, ◌++◌, ◌≡◌, Option, none, some, Text, All, map,
}
use yab.Interpolate.{Variable, Term, literal, variable, is_name_start, is_name_byte, no_variable}

-- `simple_lit` with its first byte, `escaped_lit`, `dollar_lit`, and `var` with its default.
pub data Piece : Type 0 where
  simple : ℕ → Text → Piece
  escaped : ℕ → Piece
  dollar : ℕ → Piece
  reference : Text → Option Text → Piece

-- What follows the first byte of `var_name`.
pub data IsNameRest : Text → Type 0 where
  end : IsNameRest []
  byte : {c : ℕ} {cs : Text} → is_name_byte c ≡ true → IsNameRest cs → IsNameRest (c ∷ cs)
  joined :
      {j c : ℕ} {cs : Text}
      → (j ≡ b'-') ⊎ (j ≡ b'.')
      → is_name_byte c ≡ true
      → IsNameRest cs
      → IsNameRest (j ∷ c ∷ cs)

pub data IsName : Text → Type 0 where
  name : {c : ℕ} {cs : Text} → is_name_start c ≡ true → IsNameRest cs → IsName (c ∷ cs)

-- A byte of `simple_lit`, and one of `var_default`.
abbrev pub IsPlain : ℕ → Type 0
IsPlain c = (c ≢ b'$') × (c ≢ b'\\')

abbrev pub IsDefaultByte : ℕ → Type 0
IsDefaultByte c = c ≢ b'}'

abbrev pub IsDefault : Option Text → Type 0
IsDefault none = Unit
IsDefault (some d) = All IsDefaultByte d

abbrev pub IsPiece : Piece → Type 0
IsPiece (simple c cs) = All IsPlain (c ∷ cs)
IsPiece (escaped c) = Unit
IsPiece (dollar c) = c ≢ b'{'
IsPiece (reference n d) = IsName n × IsDefault d

abbrev pub is_simple : Piece → Bool
is_simple (simple _ _) = true
is_simple _ = false

-- The pieces fit the grammar, and a simple literal is as long as it can be: none follows another.
-- The flag says that the piece before is a simple literal.
abbrev pub IsWellFormed : Bool → List Piece → Type 0
IsWellFormed after [] = Unit
IsWellFormed true (p ∷ ps) = (is_simple p ≡ false) × IsPiece p × IsWellFormed (is_simple p) ps
IsWellFormed false (p ∷ ps) = IsPiece p × IsWellFormed (is_simple p) ps

abbrev pub print_default : Option Text → Text
print_default none = []
print_default (some d) = b':' ∷ d

abbrev pub print_piece : Piece → Text → Text
print_piece (simple c cs) rest = c ∷ (cs ++ rest)
print_piece (escaped c) rest = b'\\' ∷ c ∷ rest
print_piece (dollar c) rest = b'$' ∷ c ∷ rest
print_piece (reference n d) rest = b'$' ∷ b'{' ∷ (n ++ (print_default d ++ b'}' ∷ rest))

abbrev pub print : List Piece → Text
print [] = []
print (p ∷ ps) = print_piece p (print ps)

-- The variable that a reference stands for, on top of what the scanner's variable `v` held before.
abbrev pub refer : Variable → Text → Option Text → Variable
refer v n none = record v { name = n }
refer v n (some []) = record v { name = n; has_default = true }
refer v n (some (d ∷ ds)) = record v { name = n; default = d ∷ ds; has_default = true }

abbrev pub after_piece : Variable → Piece → Variable
after_piece v (reference n d) = refer v n d
after_piece v p = v

abbrev pub term_of : Variable → Piece → Term
term_of v (simple c cs) = literal (c ∷ cs)
term_of v (escaped c) = literal (c ∷ [])
term_of v (dollar c) = literal (b'$' ∷ c ∷ [])
term_of v (reference n d) = variable (refer v n d)

-- The terms with each reference on its own, as the documentation of `Parse` describes them.
abbrev pub meaning : List Piece → List Term
meaning = map (term_of no_variable)

-- The terms with one variable carried through all references.
abbrev pub carried : Variable → List Piece → List Term
carried v [] = []
carried v (p ∷ ps) = term_of v p ∷ carried (after_piece v p) ps
