-- ===== src/Interpolate/Continuing.antt =====
-- What may follow in each state of the scanner, for the whole to be well formed, and how it is put
-- together again.
use yab.Prelude.{
  ℕ, Bool, true, false, ◌≢◌, ◌⊎◌, inl, inr, List, [], ◌∷◌, ◌++◌, ◌≡◌, refl, ap, Option, Text, All,
  arith, ◌==◌, nat_comparable, ◌||◌, if◌then◌else◌,
}
use yab.Interpolate.{
  State, s0, s1, s2, s3, s4, s5, s6, s7, s8, s9, s10, Machine, step, is_name_start, is_name_byte,
}
use yab.Interpolate.Grammar.{
  Piece, simple, escaped, dollar, reference, IsNameRest, IsName, IsPlain, IsDefaultByte, IsDefault,
  IsWellFormed, print_default, print,
}

-- What may follow in each state, for the whole to be well formed.
pub record Pieces (text : Text) : Type 0 where
  pub ps : List Piece
  pub well : IsWellFormed false ps
  pub prints : text ≡ print ps

-- the rest of a simple literal, and the pieces behind it
pub record RestOfSimple (text : Text) : Type 0 where
  pub cs : Text
  pub ps : List Piece
  pub plain : All IsPlain cs
  pub well : IsWellFormed true ps
  pub prints : text ≡ cs ++ print ps

-- the rest of a reference, and the pieces behind it
pub record RestOfReference (IsNamePart : Text → Type 0) (text : Text) : Type 0 where
  pub cs : Text
  pub d : Option Text
  pub ps : List Piece
  pub named : IsNamePart cs
  pub default : IsDefault d
  pub well : IsWellFormed false ps
  pub prints : text ≡ cs ++ (print_default d ++ b'}' ∷ print ps)

pub record RestOfDefault (text : Text) : Type 0 where
  pub cs : Text
  pub ps : List Piece
  pub default : All IsDefaultByte cs
  pub well : IsWellFormed false ps
  pub prints : text ≡ cs ++ b'}' ∷ print ps

-- a name byte, and what may follow it
pub data IsNamePiece : Text → Type 0 where
  piece : {c : ℕ} {cs : Text} → is_name_byte c ≡ true → IsNameRest cs → IsNamePiece (c ∷ cs)

-- after a dollar sign or a backslash
pub data AfterDollar : Text → Type 0 where
  other : {c : ℕ} {text : Text} → c ≢ b'{' → Pieces text → AfterDollar (c ∷ text)
  brace : {text : Text} → RestOfReference IsName text → AfterDollar (b'{' ∷ text)

pub data AfterBackslash : Text → Type 0 where
  any : (c : ℕ) {text : Text} → Pieces text → AfterBackslash (c ∷ text)

abbrev pub Accepts : State → Text → Type 0
Accepts s0 text = ⊥
Accepts s1 text = AfterDollar text
Accepts s2 text = AfterBackslash text
Accepts s3 text = RestOfReference IsName text
Accepts s4 text = RestOfReference IsNameRest text
Accepts s5 text = RestOfReference IsNamePiece text
Accepts s6 text = RestOfDefault text
Accepts s7 text = RestOfDefault text
Accepts s8 text = Pieces text
Accepts s9 text = RestOfSimple text
Accepts s10 text = Pieces text

-- The state that a byte leads to, whatever the machine holds.
abbrev pub next : State → ℕ → State
next s0 c = s0
next s1 c = if c == b'{' then s3 else s10
next s2 c = s10
next s3 c = if is_name_start c then s4 else s0
next s4 c =
    if c == b':'
    then s6
    else if c == b'}'
    then s10
    else if c == b'-' || c == b'.'
    then s5
    else if is_name_byte c
    then s4
    else s0
next s5 c = if is_name_byte c then s4 else s0
next s6 c = if c == b'}' then s10 else s7
next s7 c = if c == b'}' then s10 else s7
next _ c = if c == b'$' then s1 else if c == b'\\' then s2 else s9

pub step-next : (s : State) (m : Machine) (c : ℕ) → (step s m c).0 ≡ next s c
unfolding step
step-next s0 m c = refl
step-next _ m c = ground arith

-- A split on a test that a predicate waits for.
pub if_cases {ℓ κ} :
    {A : Type ℓ} (P : A → Type κ) (b : Bool) (x y : A)
    → P (if b then x else y)
    → ((b ≡ true) × P x) ⊎ ((b ≡ false) × P y)
if_cases P true x y h = inl (refl, h)
if_cases P false x y h = inr (refl, h)

pub of_dollar : {c : ℕ} {text : Text} → c ≡ b'$' → AfterDollar text → Pieces (c ∷ text)
of_dollar e (other {c = d} h p) = record {
  ps = dollar d ∷ p.ps;
  well = (h, p.well);
  prints = ground (arith, p.prints);
}
of_dollar e (brace r) = record {
  ps = reference r.cs r.d ∷ r.ps;
  well = ((r.named, r.default), r.well);
  prints = ground (arith, r.prints);
}

pub of_backslash : {c : ℕ} {text : Text} → c ≡ b'\\' → AfterBackslash text → Pieces (c ∷ text)
of_backslash e (any d p) = record {
  ps = escaped d ∷ p.ps;
  well = (tt, p.well);
  prints = ground (arith, p.prints);
}

pub IsWellFormed-true : (ps : List Piece) → IsWellFormed true ps → IsWellFormed false ps
IsWellFormed-true [] h = tt
IsWellFormed-true (p ∷ ps) h = (h.1, h.2)

pub of_simple : {c : ℕ} {text : Text} → IsPlain c → RestOfSimple text → Pieces (c ∷ text)
of_simple {c} h r = record {
  ps = simple c r.cs ∷ r.ps;
  well = ((h, r.plain), r.well);
  prints = ap (◌∷◌ c) r.prints;
}

-- Pieces that cannot go on with the simple literal before them, unless they start with one.
pub to_rest : {text : Text} → Pieces text → RestOfSimple text
to_rest {text} p = go p.ps p.well p.prints
  where
    go : (ps : List Piece) → IsWellFormed false ps → text ≡ print ps → RestOfSimple text
    go [] h e = record { cs = []; ps = []; plain = tt; well = tt; prints = e }
    go (simple c cs ∷ ps) h e = record { cs = c ∷ cs; ps = ps; plain = h.0; well = h.1; prints = e }
    go (escaped c ∷ ps) h e = record {
      cs = [];
      ps = escaped c ∷ ps;
      plain = tt;
      well = (refl, h.0, h.1);
      prints = e;
    }
    go (dollar c ∷ ps) h e = record {
      cs = [];
      ps = dollar c ∷ ps;
      plain = tt;
      well = (refl, h.0, h.1);
      prints = e;
    }
    go (reference n d ∷ ps) h e = record {
      cs = [];
      ps = reference n d ∷ ps;
      plain = tt;
      well = (refl, h.0, h.1);
      prints = e;
    }

pub more_simple : {c : ℕ} {text : Text} → IsPlain c → RestOfSimple text → RestOfSimple (c ∷ text)
more_simple {c} h r = record {
  cs = c ∷ r.cs;
  ps = r.ps;
  plain = (h, r.plain);
  well = r.well;
  prints = ap (◌∷◌ c) r.prints;
}

-- The three ways on from a boundary.
pub at_boundary : (c : ℕ) (text : Text) → Accepts (next s8 c) text → Pieces (c ∷ text)
at_boundary c text a = elim (if_cases (λ s. Accepts s text) (c == b'$') s1 _ a) [
  | inl (e, h) ↦ of_dollar (ground arith) h
  | inr (e, a') ↦ elim (if_cases (λ s. Accepts s text) (c == b'\\') s2 s9 a') [
    | inl (f, h) ↦ of_backslash (ground arith) h
    | inr (f, h) ↦ of_simple (ground arith) h
  ]
]
