-- ===== src/Thrift/Enum/Names.antt =====
-- What a response calls an item of an enum, read as part of a request.
use yab.Prelude.{
  ℕ, true, false, List, [], ◌∷◌, ◌++◌, none, some, inl, inr, Text, codes, map, ◌≡◌, ◌≢◌, refl, ap,
  ◌==◌, nat_comparable, text_comparable, text_beq, text_beq_refl, All, arith, Option-cases,
  Bool-cases, append_assoc,
}
use yab.Prelude.Int.{ℤ, pos, negsuc, ◌≤ℤ◌, int_comparable, beq_ℤ_iff}
use yab.Options.{to_lower}
use yab.Thrift.{EnumSpec}
use yab.Thrift.Decimal.{itoa, parse_decimal, parse_decimal-itoa-pos, parse_decimal-itoa-negsuc}
use yab.Thrift.Enum.{
  equal_fold, find_value, strip_prefix, strip_paren, max_int32, parse_unnamed, parse_enum_string,
  find_name, map_enum_value_to_name,
}

-- The items differ in their names, not in case only, and no name holds a parenthesis.
abbrev pub IsOtherName : Text → List (Text × ℤ) → Type 0
IsOtherName name [] = Unit
IsOtherName name ((j, v) ∷ items) = (equal_fold name j ≡ false) × IsOtherName name items

abbrev pub AreItems : List (Text × ℤ) → Type 0
AreItems [] = Unit
AreItems ((name, value) ∷ items) =
    All (λ c. c ≢ b'(') name × IsOtherName name items × AreItems items

IsOtherName-find_name :
    (name m : Text) (items : List (Text × ℤ)) (n : ℤ)
    → IsOtherName name items
    → find_name items n ≡ some m
    → equal_fold name m ≡ false
unfolding find_name
IsOtherName-find_name name m [] n h e = absurd (ground arith)
IsOtherName-find_name name m ((j, v) ∷ items) n (h, hs) e = elim (Bool-cases (v == n)) [
  | inl same ↦ let at : j ≡ m = ground arith in rw (← at) h
  | inr other ↦ IsOtherName-find_name name m items n hs (ground arith)
]

equal_fold_self : (s : Text) → equal_fold s s ≡ true
unfolding equal_fold
equal_fold_self s = text_beq_refl (map to_lower s)

find_value-find_name :
    (items : List (Text × ℤ)) (n : ℤ) (m : Text)
    → AreItems items
    → find_name items n ≡ some m
    → find_value items m ≡ some n
unfolding find_value find_name
find_value-find_name [] n m h e = absurd (ground arith)
find_value-find_name ((j, v) ∷ items) n m (_, other, hs) e = elim (Bool-cases (v == n)) [
  | inl same ↦
      let at : j ≡ m = ground arith in
      let num : v ≡ n = (beq_ℤ_iff v n).0 same in rw (← at, equal_fold_self j) (ap some num)
  | inr differ ↦
      let later : find_name items n ≡ some m = ground arith in
      rw (IsOtherName-find_name j m items n other later) (find_value-find_name items n m hs later)
]

-- A text with a parenthesis is no name.
to_lower-paren : (c : ℕ) → to_lower c ≡ b'(' → c ≡ b'('
unfolding to_lower
to_lower-paren c h = ground arith

fold_paren :
    (name before after : Text)
    → All (λ c. c ≢ b'(') name
    → text_beq (map to_lower name) (map to_lower (before ++ b'(' ∷ after)) ≡ false
unfolding text_beq to_lower
fold_paren [] [] after h = refl
fold_paren [] (b ∷ before) after h = refl
fold_paren (c ∷ name) [] after (h, hs) = ground arith
fold_paren (c ∷ name) (b ∷ before) after (h, hs) = ground (arith, fold_paren name before after hs)

find_value-paren :
    (items : List (Text × ℤ)) (before after : Text)
    → AreItems items
    → find_value items (before ++ b'(' ∷ after) ≡ none
unfolding find_value equal_fold
find_value-paren [] before after h = refl
find_value-paren ((j, v) ∷ items) before after (plain, _, hs) =
    rw (fold_paren j before after plain) (find_value-paren items before after hs)

strip_prefix-append : (p s : Text) → strip_prefix p (p ++ s) ≡ some s
unfolding strip_prefix
strip_prefix-append [] s = refl
strip_prefix-append (c ∷ p) s = ground (arith, strip_prefix-append p s)

strip_paren-append : (s : Text) → strip_paren (s ++ codes ")") ≡ some s
unfolding strip_paren
strip_paren-append [] = refl
strip_paren-append (c ∷ []) = refl
strip_paren-append (c ∷ d ∷ s) = rw (strip_paren-append (d ∷ s)) refl

parse_unnamed-itoa :
    (name : Text) (n : ℤ)
    → parse_decimal max_int32 (itoa n) ≡ some n
    → parse_unnamed name ((name ++ codes "(") ++ (itoa n ++ codes ")")) ≡ some n
unfolding parse_unnamed
parse_unnamed-itoa name n h =
    cc (
      strip_prefix-append (name ++ codes "(") (itoa n ++ codes ")"),
      strip_paren-append (itoa n),
      h,
    )

-- The name that a response has for a 32-bit number of an enum, of an item or not, stands for that
-- number in a request.
pub parse_enum_string-map_enum_value_to_name :
    (e : EnumSpec) (n : ℤ)
    → AreItems e.items
    → negsuc max_int32 ≤ℤ n
    → n ≤ℤ pos max_int32
    → parse_enum_string e (map_enum_value_to_name e n) ≡ inr n
unfolding parse_enum_string map_enum_value_to_name
parse_enum_string-map_enum_value_to_name e n items low high =
    elim (Option-cases (find_name e.items n)) [
      | inr (m, found) ↦ cc (found, find_value-find_name e.items n m items found)
      | inl unnamed ↦ cc (
        unnamed,
        rw (← append_assoc e.name (codes "(") (itoa n ++ codes ")")) at
            (find_value-paren e.items e.name (itoa n ++ codes ")") items),
        parse_unnamed-itoa e.name n (in_range n low high),
      )
    ]
  where
    in_range :
        (k : ℤ)
        → negsuc max_int32 ≤ℤ k
        → k ≤ℤ pos max_int32
        → parse_decimal max_int32 (itoa k) ≡ some k
    in_range (pos k) l h = parse_decimal-itoa-pos max_int32 k (omega arith)
    in_range (negsuc k) l h = parse_decimal-itoa-negsuc max_int32 k (omega arith)
