-- ===== src/Interpolate/Segments.antt =====
-- The scanner on the parts of a piece: a row of plain bytes, a name, a default.
use yab.Prelude.{
  ℕ, Bool, true, false, List, [], ◌∷◌, ◌++◌, ◌≡◌, refl, ap, ◌∙◌, Option, none, some, Text, All,
  arith, append-nil, append_assoc,
}
use yab.Interpolate.{
  Variable, Term, literal, variable, State, s3, s4, s7, s8, s9, s10, Machine, step, run,
  is_name_start, is_name_byte, advance, start, lit, append_term, set_name, set_term,
}
use yab.Interpolate.Grammar.{
  IsNameRest, end, byte, joined, IsName, name, IsPlain, IsDefaultByte, IsDefault, print_default,
  refer,
}

-- Between two pieces the scanner is in one of three states; the flag says that the last piece was a
-- simple literal.
pub data AtBoundary : Bool → State → Type 0 where
  at_start : AtBoundary false s8
  after_simple : AtBoundary true s9
  after_other : AtBoundary false s10

-- The output once the term that is still held in `t` has been appended.
abbrev pub flush : State → Machine → List Term
flush s8 m = m.out
flush s m = m.out ++ m.t ∷ []

-- From `s` and `m` the scanner reads `text` up to `rest`, where it is in state `s'` with this output,
-- term and variable.
pub record Reads (s : State) (m : Machine) (text rest : Text) (s' : State) (out : List Term)
    (t : Term) (v : Variable) : Type 0 where
  pub last : Machine
  pub runs : run s m text ≡ run s' last rest
  pub out_is : last.out ≡ out
  pub t_is : last.t ≡ t
  pub v_is : last.v ≡ v

pub run-plain :
    (cs : Text) (m : Machine) (rest : Text)
    → All IsPlain cs
    → m.t ≡ literal m.window
    → Reads s9 m (cs ++ rest) rest s9 m.out (literal (m.window ++ cs)) m.v
unfolding run step
run-plain [] m rest h e = record {
  last = m;
  runs = refl;
  out_is = refl;
  t_is = rw append-nil e;
  v_is = refl;
}
run-plain (c ∷ cs) m rest ((a, b), h) e =
    let r = run-plain cs (advance (lit m c) c) rest h refl in
    record {
      last = r.last;
      runs = ground (arith, r.runs);
      out_is = r.out_is;
      t_is = r.t_is ∙ ap literal (append_assoc m.window (c ∷ []) cs);
      v_is = r.v_is;
    }

-- Inside a name: the name read so far is the window.
pub run-IsNameRest :
    {cs : Text} (m : Machine) (rest : Text)
    → IsNameRest cs
    → m.v.name ≡ m.window
    → Reads s4 m (cs ++ rest) rest s4 m.out m.t (record m.v { name = m.window ++ cs })
unfolding run step
run-IsNameRest m rest end e = record {
  last = m;
  runs = refl;
  out_is = refl;
  t_is = refl;
  v_is = rw append-nil (ground (arith, e));
}
run-IsNameRest m rest (byte {c} {cs} h t) e =
    let r = run-IsNameRest (advance (set_name m (m.window ++ c ∷ [])) c) rest t refl in
    record {
      last = r.last;
      runs = unfold is_name_byte in ground (arith, r.runs);
      out_is = r.out_is;
      t_is = r.t_is;
      v_is = r.v_is ∙ ap (λ w. record m.v { name = w }) (append_assoc m.window (c ∷ []) cs);
    }
run-IsNameRest m rest (joined {j} {c} {cs} k h t) e =
    let m' = advance m j in
    let r = run-IsNameRest (advance (set_name m' (m'.window ++ c ∷ [])) c) rest t refl in
    record {
      last = r.last;
      runs = unfold is_name_byte in ground (arith, r.runs);
      out_is = r.out_is;
      t_is = r.t_is;
      v_is =
          r.v_is
          ∙ ap (λ w. record m.v { name = w })
              (append_assoc (m.window ++ j ∷ []) (c ∷ []) cs
                ∙ append_assoc m.window (j ∷ []) (c ∷ cs));
    }

-- Inside a default: the default read so far is the window.
pub run-IsDefaultByte :
    (cs : Text) (m : Machine) (rest : Text)
    → All IsDefaultByte cs
    → m.v.default ≡ m.window
    → Reads s7 m
        (cs ++ b'}' ∷ rest)
        rest
        s10
        m.out
        (variable (record m.v { default = m.window ++ cs }))
        (record m.v { default = m.window ++ cs })
unfolding run step
run-IsDefaultByte [] m rest h e = record {
  last = advance (set_term m) b'}';
  runs = refl;
  out_is = refl;
  t_is = rw append-nil (ground (arith, e));
  v_is = rw append-nil (ground (arith, e));
}
run-IsDefaultByte (c ∷ cs) m rest (a, h) e =
    let m' = record m { v = record m.v { default = m.window ++ c ∷ [] } } in
    let r = run-IsDefaultByte cs (advance m' c) rest h refl in
    let path = append_assoc m.window (c ∷ []) cs in
    record {
      last = r.last;
      runs = ground (arith, r.runs);
      out_is = r.out_is;
      t_is = r.t_is ∙ ap (λ w. variable (record m.v { default = w })) path;
      v_is = r.v_is ∙ ap (λ w. record m.v { default = w }) path;
    }

-- From the end of a name to the closing brace.
pub run-print_default :
    (d : Option Text) (m : Machine) (rest : Text)
    → IsDefault d
    → Reads s4 m
        (print_default d ++ b'}' ∷ rest)
        rest
        s10
        m.out
        (variable (refer m.v m.v.name d))
        (refer m.v m.v.name d)
unfolding run step
run-print_default none m rest h = record {
  last = advance (set_term m) b'}';
  runs = refl;
  out_is = refl;
  t_is = refl;
  v_is = refl;
}
run-print_default (some []) m rest h =
    let m' = advance (record m { v = record m.v { has_default = true } }) b':' in
    record {
      last = advance (set_term (start m')) b'}';
      runs = refl;
      out_is = refl;
      t_is = refl;
      v_is = refl;
    }
run-print_default (some (c ∷ cs)) m rest (a, h) =
    let v' = record m.v { default = c ∷ []; has_default = true } in
    let m' = advance (record m { window = []; v = v' }) c in
    let r = run-IsDefaultByte cs m' rest h refl in
    record {
      last = r.last;
      runs = ground (arith, r.runs);
      out_is = r.out_is;
      t_is = r.t_is;
      v_is = r.v_is;
    }

pub run-reference :
    (n : Text) (d : Option Text) (m : Machine) (rest : Text)
    → IsName n
    → IsDefault d
    → Reads s3 m
        (n ++ (print_default d ++ b'}' ∷ rest))
        rest
        s10
        m.out
        (variable (refer m.v n d))
        (refer m.v n d)
unfolding run step
run-reference n d m rest (name {c} {cs} h t) hd =
    let m' = advance (set_name (start m) (c ∷ [])) c in
    let r = run-IsNameRest m' (print_default d ++ b'}' ∷ rest) t refl in
    let q = run-print_default d r.last rest hd in
    record {
      last = q.last;
      runs = unfold is_name_start in ground (arith, r.runs, q.runs);
      out_is = q.out_is ∙ r.out_is;
      t_is = q.t_is ∙ ap (λ v. variable (refer v v.name d)) r.v_is;
      v_is = q.v_is ∙ ap (λ v. refer v v.name d) r.v_is;
    }

-- A simple literal, from its first byte on, where none comes before it.
pub run-simple :
    {s : State} (c : ℕ) (cs : Text) (m : Machine) (rest : Text)
    → AtBoundary false s
    → All IsPlain (c ∷ cs)
    → Reads s m (c ∷ (cs ++ rest)) rest s9 (flush s m) (literal (c ∷ cs)) m.v
unfolding run step
run-simple c cs m rest at_start ((a, b), h) =
    let r = run-plain cs (advance (lit (start m) c) c) rest h refl in
    record {
      last = r.last;
      runs = ground (arith, r.runs);
      out_is = r.out_is;
      t_is = r.t_is;
      v_is = r.v_is;
    }
run-simple c cs m rest after_other ((a, b), h) =
    let r = run-plain cs (advance (lit (start (append_term m)) c) c) rest h refl in
    record {
      last = r.last;
      runs = ground (arith, r.runs);
      out_is = r.out_is;
      t_is = r.t_is;
      v_is = r.v_is;
    }
