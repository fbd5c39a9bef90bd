-- ===== src/Interpolate/Accept.antt =====
-- Which strings `Parse` accepts: the scanner read backwards, from its last state.
use yab.Prelude.{
  ℕ, false, ◌⊎◌, inl, inr, ◌↔◌, List, [], ◌∷◌, ◌≡◌, refl, sym, ap, subst, ◌∙◌, none, some, Text,
  arith, ◌==◌, nat_comparable, ◌||◌,
}
use yab.Interpolate.{
  State, s0, s1, s2, s3, s4, s5, s6, s7, s8, s9, s10, Term, Machine, step, finish, run, parse, ok,
  initial, is_name_start, is_name_byte, no_variable,
}
use yab.Interpolate.Grammar.{
  Piece, IsNameRest, end, byte, joined, name, IsDefaultByte, IsWellFormed, print, carried,
}
use yab.Interpolate.Scan.{parse-print}
use yab.Interpolate.Continuing.{
  Pieces, RestOfReference, RestOfDefault, IsNamePiece, Accepts, next, step-next, if_cases,
  of_dollar, of_backslash, to_rest, more_simple, at_boundary, piece, other, brace, any,
}

more_default :
    {c : ℕ} {text : Text} → IsDefaultByte c → RestOfDefault text → RestOfDefault (c ∷ text)
more_default {c} h r = record {
  cs = c ∷ r.cs;
  ps = r.ps;
  default = (h, r.default);
  well = r.well;
  prints = ap (◌∷◌ c) r.prints;
}

in_default : (c : ℕ) (text : Text) → Accepts (next s7 c) text → RestOfDefault (c ∷ text)
in_default c text a = elim (if_cases (λ s. Accepts s text) (c == b'}') s10 s7 a) [
  | inl (e, p) ↦ record {
    cs = [];
    ps = p.ps;
    default = tt;
    well = p.well;
    prints = ground (arith, p.prints);
  }
  | inr (e, r) ↦ more_default (ground arith) r
]

-- A byte in front of the rest of a reference.
more_reference :
    {P Q : Text → Type 0} {c : ℕ} {text : Text}
    → ((cs : Text) → P cs → Q (c ∷ cs))
    → RestOfReference P text
    → RestOfReference Q (c ∷ text)
more_reference {c} f r = record {
  cs = c ∷ r.cs;
  d = r.d;
  ps = r.ps;
  named = f r.cs r.named;
  default = r.default;
  well = r.well;
  prints = ap (◌∷◌ c) r.prints;
}

IsNamePiece-joined :
    {j : ℕ} (cs : Text) → (j ≡ b'-') ⊎ (j ≡ b'.') → IsNamePiece cs → IsNameRest (j ∷ cs)
IsNamePiece-joined _ h (piece b t) = joined h b t

in_name : (c : ℕ) (text : Text) → Accepts (next s4 c) text → RestOfReference IsNameRest (c ∷ text)
in_name c text a = elim (if_cases P (c == b':') s6 _ a) [
  | inl (e, r) ↦ record {
    cs = [];
    d = some r.cs;
    ps = r.ps;
    named = end;
    default = r.default;
    well = r.well;
    prints = ground (arith, r.prints);
  }
  | inr (e, a1) ↦ elim (if_cases P (c == b'}') s10 _ a1) [
    | inl (f, p) ↦ record {
      cs = [];
      d = none;
      ps = p.ps;
      named = end;
      default = tt;
      well = p.well;
      prints = ground (arith, p.prints);
    }
    | inr (f, a2) ↦ elim (if_cases P (c == b'-' || c == b'.') s5 _ a2) [
      | inl (g, r) ↦
          let j : (c ≡ b'-') ⊎ (c ≡ b'.') = ground arith in
          more_reference (λ cs. IsNamePiece-joined cs j) r
      | inr (g, a3) ↦ elim (if_cases P (is_name_byte c) s4 s0 a3) [
        | inl (k, r) ↦ more_reference (λ cs. byte k) r
        | inr (k, z) ↦ absurd z
      ]
    ]
  ]
]
  where
    P : State → Type 0
    P s = Accepts s text

-- What is accepted behind a byte is accepted with it.
next-Accepts : (s : State) (c : ℕ) (text : Text) → Accepts (next s c) text → Accepts s (c ∷ text)
next-Accepts s0 c text a = a
next-Accepts s1 c text a = elim (if_cases (λ s. Accepts s text) (c == b'{') s3 s10 a) [
  | inl (e, r) ↦ let q : c ≡ b'{' = ground arith in rw q (brace r)
  | inr (e, p) ↦ other (ground arith) p
]
next-Accepts s2 c text a = any c a
next-Accepts s3 c text a = elim (if_cases (λ s. Accepts s text) (is_name_start c) s4 s0 a) [
  | inl (e, r) ↦ more_reference (λ cs. name e) r
  | inr (e, z) ↦ absurd z
]
next-Accepts s4 c text a = in_name c text a
next-Accepts s5 c text a = elim (if_cases (λ s. Accepts s text) (is_name_byte c) s4 s0 a) [
  | inl (e, r) ↦ more_reference (λ cs. piece e) r
  | inr (e, z) ↦ absurd z
]
next-Accepts s6 c text a = in_default c text a
next-Accepts s7 c text a = in_default c text a
next-Accepts s8 c text a = at_boundary c text a
next-Accepts s9 c text a = elim (if_cases (λ s. Accepts s text) (c == b'$') s1 _ a) [
  | inl (e, h) ↦ to_rest (of_dollar (ground arith) h)
  | inr (e, a') ↦ elim (if_cases (λ s. Accepts s text) (c == b'\\') s2 s9 a') [
    | inl (f, h) ↦ to_rest (of_backslash (ground arith) h)
    | inr (f, h) ↦ more_simple (ground arith) h
  ]
]
next-Accepts s10 c text a = at_boundary c text a

Pieces-nil : Pieces []
Pieces-nil = record { ps = []; well = tt; prints = refl }

run-Accepts :
    (text : Text) (s : State) (m : Machine) {out : List Term}
    → run s m text ≡ ok out
    → Accepts s text
unfolding run
run-Accepts [] s8 m e = Pieces-nil
run-Accepts [] s9 m e = to_rest Pieces-nil
run-Accepts [] s10 m e = Pieces-nil
run-Accepts [] _ m e = unfold finish in cc e
run-Accepts (c ∷ cs) s m e =
    let a = run-Accepts cs (step s m c).0 (step s m c).1 e in
    next-Accepts s c cs (subst (λ q. Accepts q cs) (step-next s m c) a)

parse-Pieces : (text : Text) {out : List Term} → parse text ≡ ok out → Pieces text
unfolding parse
parse-Pieces text = run-Accepts text s8 initial

-- `Parse` accepts a string exactly when it is the concrete syntax of some well-formed pieces, and
-- then it returns the terms of those pieces, with one variable carried through all references.
pub parse-ok_iff :
    (text : Text) (out : List Term)
    → (parse text ≡ ok out) ↔ (
        (ps : List Piece) × IsWellFormed false ps
        × (text ≡ print ps)
        × (out ≡ carried no_variable ps))
parse-ok_iff text out = (forth, λ p. back p.0 p.1 p.2 p.3)
  where
    forth :
        parse text ≡ ok out
        → (ps : List Piece) × IsWellFormed false ps
          × (text ≡ print ps)
          × (out ≡ carried no_variable ps)
    forth e =
        let p = parse-Pieces text e in
        (p.ps, p.well, p.prints, cc (e, ap parse p.prints, parse-print p.ps p.well))

    back :
        (ps : List Piece)
        → IsWellFormed false ps
        → text ≡ print ps
        → out ≡ carried no_variable ps
        → parse text ≡ ok out
    back ps h e q = ap parse e ∙ parse-print ps h ∙ ap ok (sym q)
