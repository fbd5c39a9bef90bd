-- ===== src/Interpolate/Reading.antt =====
-- The scanner on the concrete syntax of each piece, with any text behind it.
use yab.Prelude.{ℕ, Bool, true, false, [], ◌∷◌, ◌≡◌, refl, ap, ◌∙◌, Text, arith}
use yab.Interpolate.{
  literal, variable, State, s1, s2, s9, s10, Machine, step, run, advance, append_term,
}
use yab.Interpolate.Grammar.{
  Piece, simple, escaped, dollar, reference, IsPiece, is_simple, print_piece, refer, after_piece,
  term_of,
}
use yab.Interpolate.Segments.{
  AtBoundary, flush, Reads, run-reference, run-simple, at_start, after_simple, after_other,
}

-- The byte that opens another piece: the term that is held goes to the output.
record Opens (s : State) (m : Machine) (c : ℕ) (s' : State) : Type 0 where
  last : Machine
  opened : step s m c ≡ (s', last)
  out_is : last.out ≡ flush s m
  v_is : last.v ≡ m.v
  prev_is : last.prev ≡ c

step-dollar : {b : Bool} {s : State} (m : Machine) → AtBoundary b s → Opens s m b'$' s1
unfolding step
step-dollar m at_start = record {
  last = advance m b'$';
  opened = refl;
  out_is = refl;
  v_is = refl;
  prev_is = refl;
}
step-dollar m after_simple = record {
  last = advance (append_term m) b'$';
  opened = refl;
  out_is = refl;
  v_is = refl;
  prev_is = refl;
}
step-dollar m after_other = record {
  last = advance (append_term m) b'$';
  opened = refl;
  out_is = refl;
  v_is = refl;
  prev_is = refl;
}

step-backslash : {b : Bool} {s : State} (m : Machine) → AtBoundary b s → Opens s m b'\\' s2
unfolding step
step-backslash m at_start = record {
  last = advance m b'\\';
  opened = refl;
  out_is = refl;
  v_is = refl;
  prev_is = refl;
}
step-backslash m after_simple = record {
  last = advance (append_term m) b'\\';
  opened = refl;
  out_is = refl;
  v_is = refl;
  prev_is = refl;
}
step-backslash m after_other = record {
  last = advance (append_term m) b'\\';
  opened = refl;
  out_is = refl;
  v_is = refl;
  prev_is = refl;
}

-- The state in which a piece leaves the scanner.
abbrev pub state_after : Piece → State
state_after (simple _ _) = s9
state_after _ = s10

pub state_after-AtBoundary : (p : Piece) → AtBoundary (is_simple p) (state_after p)
state_after-AtBoundary (simple c cs) = after_simple
state_after-AtBoundary (escaped c) = after_other
state_after-AtBoundary (dollar c) = after_other
state_after-AtBoundary (reference n d) = after_other

-- A piece that may stand at this boundary.
abbrev pub Fits : Bool → Piece → Type 0
Fits true p = is_simple p ≡ false
Fits false p = Unit

-- Reading one piece: the held term goes to the output, and the piece's own term is held.
pub run-print_piece :
    {b : Bool} {s : State} (p : Piece) (m : Machine) (rest : Text)
    → AtBoundary b s
    → Fits b p
    → IsPiece p
    → Reads s m
        (print_piece p rest)
        rest
        (state_after p)
        (flush s m)
        (term_of m.v p)
        (after_piece m.v p)
run-print_piece (simple c cs) m rest at_start f h = run-simple c cs m rest at_start h
run-print_piece (simple c cs) m rest after_other f h = run-simple c cs m rest after_other h
run-print_piece (simple c cs) m rest after_simple f h = absurd (cc f)
run-print_piece (escaped c) m rest b f h =
    let o = step-backslash m b in
    record {
      last = advance (record o.last { l = c ∷ []; t = literal (c ∷ []) }) c;
      runs = unfold run step in ground (arith, o.opened);
      out_is = o.out_is;
      t_is = refl;
      v_is = o.v_is;
    }
run-print_piece (dollar c) m rest b f h =
    let o = step-dollar m b in
    let text = o.last.prev ∷ c ∷ [] in
    record {
      last = advance (record o.last { l = text; t = literal text }) c;
      runs = unfold run step in ground (arith, o.opened);
      out_is = o.out_is;
      t_is = ap (λ (x : ℕ). literal (x ∷ c ∷ [])) o.prev_is;
      v_is = o.v_is;
    }
run-print_piece (reference n d) m rest b f (hn, hd) =
    let o = step-dollar m b in
    let r = run-reference n d (advance o.last b'{') rest hn hd in
    record {
      last = r.last;
      runs = unfold run step in ground (arith, o.opened, r.runs);
      out_is = r.out_is ∙ o.out_is;
      t_is = r.t_is ∙ ap (λ v. variable (refer v n d)) o.v_is;
      v_is = r.v_is ∙ ap (λ v. refer v n d) o.v_is;
    }
