-- ===== src/Interpolate/Scan.antt =====
-- `Parse` on a whole well-formed string: which terms it returns, and when they are the ones that the
-- documentation describes.
use yab.Prelude.{
  Bool, true, false, ◌↔◌, List, [], ◌∷◌, ◌++◌, ◌≡◌, refl, ap, ap₂, ◌∙◌, none, some, arith,
  append-nil, append_assoc,
}
use yab.Interpolate.{Variable, State, Machine, finish, run, parse, ok, initial, no_variable}
use yab.Interpolate.Grammar.{
  Piece, simple, escaped, dollar, reference, IsPiece, IsWellFormed, is_simple, print, after_piece,
  term_of, meaning, carried,
}
use yab.Interpolate.Segments.{AtBoundary, at_start, after_simple, after_other, flush}
use yab.Interpolate.Reading.{Fits, state_after, state_after-AtBoundary, run-print_piece}

IsWellFormed-head :
    (b : Bool) (p : Piece) (ps : List Piece)
    → IsWellFormed b (p ∷ ps)
    → Fits b p × IsPiece p × IsWellFormed (is_simple p) ps
IsWellFormed-head true p ps h = h
IsWellFormed-head false p ps h = (tt, h.0, h.1)

flush_after : (p : Piece) (m : Machine) → flush (state_after p) m ≡ m.out ++ m.t ∷ []
flush_after (simple c cs) m = refl
flush_after (escaped c) m = refl
flush_after (dollar c) m = refl
flush_after (reference n d) m = refl

run-print :
    {b : Bool} {s : State} (ps : List Piece) (m : Machine)
    → AtBoundary b s
    → IsWellFormed b ps
    → run s m (print ps) ≡ ok (flush s m ++ carried m.v ps)
run-print [] m at_start h = unfold run finish in rw append-nil
run-print [] m after_simple h = unfold run finish in rw append-nil
run-print [] m after_other h = unfold run finish in rw append-nil
run-print {b} {s} (p ∷ ps) m at h =
    let (f, hp, hs) = IsWellFormed-head b p ps h in
    let r = run-print_piece p m (print ps) at f hp in
    let out : flush (state_after p) r.last ≡ flush s m ++ term_of m.v p ∷ [] =
      flush_after p r.last ∙ ap₂ (λ o t. o ++ t ∷ []) r.out_is r.t_is in
    r.runs
    ∙ run-print ps r.last (state_after-AtBoundary p) hs
    ∙ ap₂ (λ o v. ok (o ++ carried v ps)) out r.v_is
    ∙ ap ok (append_assoc (flush s m) (term_of m.v p ∷ []) (carried (after_piece m.v p) ps))

-- `Parse` accepts every string of the grammar, and returns one term for each piece, in order, where
-- the variables are those of `carried`: the references share one variable, so a default stays with
-- it until another reference gives a default that is not empty.
pub parse-print :
    (ps : List Piece) → IsWellFormed false ps → parse (print ps) ≡ ok (carried no_variable ps)
unfolding parse
parse-print ps h = run-print ps initial at_start h

-- What the variable `v` must hold for a reference to get its own default and no other.
abbrev pub HasDefault : Variable → Piece → Type 0
HasDefault v (reference n none) = (v.has_default ≡ false) × (v.default ≡ [])
HasDefault v (reference n (some [])) = v.default ≡ []
HasDefault v p = Unit

abbrev pub IsFresh : Variable → List Piece → Type 0
IsFresh v [] = Unit
IsFresh v (p ∷ ps) = HasDefault v p × IsFresh (after_piece v p) ps

term_of-eq_iff : (v : Variable) (p : Piece) → HasDefault v p ↔ (term_of v p ≡ term_of no_variable p)
term_of-eq_iff v (simple c cs) = (λ h. refl, λ e. tt)
term_of-eq_iff v (escaped c) = (λ h. refl, λ e. tt)
term_of-eq_iff v (dollar c) = (λ h. refl, λ e. tt)
term_of-eq_iff v (reference n none) = (λ h. ground arith, λ e. ground arith)
term_of-eq_iff v (reference n (some [])) = (λ h. ground arith, λ e. ground arith)
term_of-eq_iff v (reference n (some (d ∷ ds))) = (λ h. refl, λ e. tt)

carried-eq_iff : (v : Variable) (ps : List Piece) → IsFresh v ps ↔ (carried v ps ≡ meaning ps)
carried-eq_iff v [] = (λ h. refl, λ e. tt)
carried-eq_iff v (p ∷ ps) = (
  λ h. ap₂ ◌∷◌ ((term_of-eq_iff v p).0 h.0) ((carried-eq_iff (after_piece v p) ps).0 h.1),
  λ e. ((term_of-eq_iff v p).1 (cc e), (carried-eq_iff (after_piece v p) ps).1 (cc e)),
)

-- The terms of a well-formed string are those with each reference on its own exactly when every
-- reference without a default comes before all references with one, an empty one included, and
-- every reference with an empty default comes before all those with a default that is not empty.
pub parse-meaning_iff :
    (ps : List Piece)
    → IsWellFormed false ps
    → IsFresh no_variable ps ↔ (parse (print ps) ≡ ok (meaning ps))
parse-meaning_iff ps h =
    let (forth, back) = carried-eq_iff no_variable ps in
    (λ f. parse-print ps h ∙ ap ok (forth f), λ e. back (cc (e, parse-print ps h)))
