-- ===== src/Thrift/Enum.antt =====
-- thrift/to_wire.go and thrift/from_wire.go: items of an enum by their names, and names of items.
pub mod Names
use yab.Prelude.{
  ℕ, zero, suc, ◌-◌, ◌^◌, Bool, true, false, List, [], ◌∷◌, ◌++◌, Option, none, some, ◌⊎◌, inl, inr,
  Text, codes, map, if◌then◌else◌, ◌==◌, nat_comparable, text_comparable,
}
use yab.Prelude.Int.{ℤ, int_comparable}
use yab.Options.{to_lower}
use yab.Value.{
  Value, nil, bool, int, int8, int16, int32, int64, uint64, float32, float64, string, bytes, list,
  mapping, object,
}
use yab.ThriftTypes.{ParseError, cannot_parse, parse_int}
use yab.Thrift.{EnumSpec}
use yab.Thrift.Decimal.{itoa, parse_decimal}

-- `strings.EqualFold`, for texts in ASCII
unfoldable pub equal_fold : Text → Text → Bool
unfolding to_lower
equal_fold a b = map to_lower a == map to_lower b

-- The loop of `parseEnumString`.
unfoldable pub find_value : List (Text × ℤ) → Text → Option ℤ
unfolding equal_fold
find_value [] s = none
find_value ((name, value) ∷ items) s =
    let rest = find_value items s in if equal_fold name s then some value else rest

unfoldable pub strip_prefix : Text → Text → Option Text
strip_prefix [] s = some s
strip_prefix (p ∷ ps) [] = none
strip_prefix (p ∷ ps) (c ∷ s) = let rest = strip_prefix ps s in if p == c then rest else none

-- The text in front of a closing parenthesis at the end.
unfoldable pub strip_paren : Text → Option Text
strip_paren [] = none
strip_paren (c ∷ []) = if c == b')' then some [] else none
strip_paren (c ∷ d ∷ s) = elim (strip_paren (d ∷ s)) [ none ↦ none | some t ↦ some (c ∷ t) ]

abbrev pub max_int32 : ℕ
max_int32 = 2 ^ 31 - 1

-- The form `Name(%d)` of an item that has no name.
unfoldable pub parse_unnamed : Text → Text → Option ℤ
unfolding strip_prefix strip_paren parse_decimal
parse_unnamed name s = elim (strip_prefix (name ++ codes "(") s) [
  | none ↦ none
  | some rest ↦ elim (strip_paren rest) [ none ↦ none | some num ↦ parse_decimal max_int32 num ]
]

pub data EnumError : Type 0 where
  unrecognized_enum : Text → EnumError
  bad_number : ParseError → EnumError

-- `parseEnumString`
unfoldable pub parse_enum_string : EnumSpec → Text → EnumError ⊎ ℤ
unfolding find_value parse_unnamed
parse_enum_string e s = elim (find_value e.items s) [
  | some value ↦ inr value
  | none ↦ elim (parse_unnamed e.name s) [
    | some value ↦ inr value
    | none ↦ inl (unrecognized_enum s)
  ]
]

abbrev number : ParseError ⊎ ℤ → EnumError ⊎ ℤ
number (inl e) = inl (bad_number e)
number (inr n) = inr n

-- `parseEnum`
unfoldable pub parse_enum : EnumSpec → Value → EnumError ⊎ ℤ
unfolding parse_enum_string parse_int
parse_enum e (string s) = parse_enum_string e s
parse_enum e v = number (parse_int v 32)

-- The loop of `mapEnumValueToName`.
unfoldable pub find_name : List (Text × ℤ) → ℤ → Option Text
find_name [] n = none
find_name ((name, value) ∷ items) n =
    let rest = find_name items n in if value == n then some name else rest

-- `mapEnumValueToName`
unfoldable pub map_enum_value_to_name : EnumSpec → ℤ → Text
unfolding find_name itoa
map_enum_value_to_name e n = elim (find_name e.items n) [
  | some name ↦ name
  | none ↦ (e.name ++ codes "(") ++ (itoa n ++ codes ")")
]
