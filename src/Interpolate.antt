-- ===== src/Interpolate.antt =====
-- templateargs/interpolate: the terms of an interpolated string (types.go), and the scanner that
-- Ragel generates for `Parse` (parse.go, from parse.rl). `Render` is in Interpolate/Render.
--
-- A slice `data[idx:p+1]` is carried as its bytes: `window` holds `data[idx:p]`, and `prev` holds
-- `data[p-1]`. The variables `v`, `l` and `t` of the Go function are fields of the machine, since
-- they live across its transitions.
pub mod Grammar
pub mod Segments
pub mod Reading
pub mod Scan
pub mod Continuing
pub mod Accept
pub mod Render
use yab.Prelude.{
  ℕ, Bool, true, false, ◌&&◌, ◌||◌, List, [], ◌∷◌, ◌++◌, ◌==◌, nat_comparable, leb, if◌then◌else◌,
  Text,
}

-- `variable`
pub record Variable : Type 0 where
  pub name : Text
  pub default : Text
  pub has_default : Bool

-- `term`; `unset` is the nil interface, the value of `t` before the first term is read.
pub data Term : Type 0 where
  unset : Term
  literal : Text → Term
  variable : Variable → Term

-- The states of the scanner, by their numbers in the generated code.
pub data State : Type 0 where
  s0 s1 s2 s3 s4 s5 s6 s7 s8 s9 s10 : State

pub record Machine : Type 0 where
  pub prev : ℕ
  pub window : Text
  pub v : Variable
  pub l : Text
  pub t : Term
  pub out : List Term

-- What `Parse` returns: both its results, since it returns `out` beside an error too.
pub data Parsed : Type 0 where
  ok : List Term → Parsed
  cannot_parse : List Term → Parsed

abbrev pub between : ℕ → ℕ → ℕ → Bool
between lo hi c = leb lo c && leb c hi

-- `[a-zA-Z_]`, the test of state 3
unfoldable pub is_name_start : ℕ → Bool
is_name_start c = c == b'_' || between b'A' b'Z' c || between b'a' b'z' c

-- `[a-zA-Z0-9_]`, the test of states 4 and 5
unfoldable pub is_name_byte : ℕ → Bool
is_name_byte c = c == b'_' || between b'0' b'9' c || between b'A' b'Z' c || between b'a' b'z' c

-- `out = append(out, t)`
abbrev pub append_term : Machine → Machine
append_term m = record m { out = m.out ++ m.t ∷ [] }

-- `idx = p`
abbrev pub start : Machine → Machine
start m = record m { window = [] }

-- `l = literal(data[idx : p+1]); t = l`
abbrev pub lit : Machine → ℕ → Machine
lit m c = record m { l = m.window ++ c ∷ []; t = literal (m.window ++ c ∷ []) }

-- `p++`, after which `data[idx:p]` has one byte more
abbrev pub advance : Machine → ℕ → Machine
advance m c = record m { prev = c; window = m.window ++ c ∷ [] }

abbrev pub set_name : Machine → Text → Machine
set_name m s = record m { v = record m.v { name = s } }

abbrev pub set_default : Machine → Text → Machine
set_default m s = record m { v = record m.v { default = s } }

abbrev pub set_term : Machine → Machine
set_term m = record m { t = variable m.v }

-- One byte `c = data[p]` in each state: the transition's actions, and the state that is reached.
-- State 0 is the error state, and is never left.
unfoldable pub step : State → Machine → ℕ → State × Machine
unfolding is_name_start is_name_byte
step s0 m c = (s0, m)
step s8 m c =
    if c == b'$'
    then (s1, advance m c)
    else if c == b'\\'
    then (s2, advance m c)
    else (s9, advance (lit (start m) c) c)
step s9 m c =
    if c == b'$'
    then (s1, advance (append_term m) c)
    else if c == b'\\'
    then (s2, advance (append_term m) c)
    else (s9, advance (lit m c) c)
step s10 m c =
    if c == b'$'
    then (s1, advance (append_term m) c)
    else if c == b'\\'
    then (s2, advance (append_term m) c)
    else (s9, advance (lit (start (append_term m)) c) c)
step s1 m c =
    if c == b'{'
    then (s3, advance m c)
    else (s10, advance (record m { l = m.prev ∷ c ∷ []; t = literal (m.prev ∷ c ∷ []) }) c)
step s2 m c = (s10, advance (record m { l = c ∷ []; t = literal (c ∷ []) }) c)
step s3 m c = if is_name_start c then (s4, advance (set_name (start m) (c ∷ [])) c) else (s0, m)
step s4 m c =
    if c == b':'
    then (s6, advance (record m { v = record m.v { has_default = true } }) c)
    else if c == b'}'
    then (s10, advance (set_term m) c)
    else if c == b'-' || c == b'.'
    then (s5, advance m c)
    else if is_name_byte c
    then (s4, advance (set_name m (m.window ++ c ∷ [])) c)
    else (s0, m)
step s5 m c = if is_name_byte c then (s4, advance (set_name m (m.window ++ c ∷ [])) c) else (s0, m)
step s6 m c =
    if c == b'}'
    then (s10, advance (set_term (start m)) c)
    else (s7, advance (set_default (start m) (c ∷ [])) c)
step s7 m c =
    if c == b'}'
    then (s10, advance (set_term m) c)
    else (s7, advance (set_default m (m.window ++ c ∷ [])) c)

-- `_test_eof`, and the test of `cs` behind it
unfoldable pub finish : State → Machine → Parsed
finish s8 m = ok m.out
finish s9 m = ok (m.out ++ m.t ∷ [])
finish s10 m = ok (m.out ++ m.t ∷ [])
finish _ m = cannot_parse m.out

unfoldable pub run : State → Machine → Text → Parsed
unfolding finish
run s m [] = finish s m
run s m (c ∷ cs) = let (s', m') = step s m c in run s' m' cs

abbrev pub no_variable : Variable
no_variable = record { name = []; default = []; has_default = false }

abbrev pub initial : Machine
initial = record { prev = 0; window = []; v = no_variable; l = []; t = unset; out = [] }

unfoldable pub parse : Text → Parsed
unfolding run step
parse data_bytes = run s8 initial data_bytes
