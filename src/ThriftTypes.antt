-- ===== src/ThriftTypes.antt =====
-- thrift/types.go: the scalars of a decoded YAML value as Thrift values.
--
-- Base64 decoding, reading a file and printing a scalar (`fmt.Sprint`) are parameters.
pub mod Ranges
use yab.Prelude.{
  ℕ, zero, suc, ◌+◌, ◌-◌, ◌^◌, ◌%◌, Bool, true, false, ◌||◌, List, [], ◌∷◌, ◌++◌, Option, none,
  some, ◌⊎◌, inl, inr, Text, codes, map, ◌==◌, nat_comparable, text_comparable, if◌then◌else◌,
}
use yab.Prelude.Int.{ℤ, pos, negsuc, ltb_ℤ, int_comparable}
use yab.Value.{
  Value, nil, bool, int, int8, int16, int32, int64, uint64, float32, float64, string, bytes, list,
  mapping, object, Values, end, item, Entries, no_entries, entry,
}
use yab.Options.{to_lower}

pub data ParseError : Type 0 where
  cannot_parse : ParseError
  out_of_range : ℤ → ParseError
  not_a_byte : ℤ → ParseError
  not_a_string : ParseError
  binary_object_options : ParseError
  failed_with : Text → ParseError

-- `parseBoolNumber`
unfoldable pub parse_bool_number : ℤ → ParseError ⊎ Bool
parse_bool_number v =
    if v == pos 0 then inr false else if v == pos 1 then inr true else inl cannot_parse

-- `strconv.ParseBool`, for a text in lower case
unfoldable pub parse_bool_text : Text → ParseError ⊎ Bool
parse_bool_text s =
    if s == codes "1" || (s == codes "t" || s == codes "true")
    then inr true
    else if s == codes "0" || (s == codes "f" || s == codes "false")
    then inr false
    else inl cannot_parse

-- `parseBool`
unfoldable pub parse_bool : Value → ParseError ⊎ Bool
unfolding parse_bool_number parse_bool_text to_lower
parse_bool (bool b) = inr b
parse_bool (int v) = parse_bool_number v
parse_bool (string s) = parse_bool_text (map to_lower s)
parse_bool _ = inl cannot_parse

-- The bounds of a signed integer of `bits` bits, for `bits` from 1 to 64. (With 64 the shift of the
-- code wraps, and subtracting 1 wraps back.)
abbrev pub max_val : ℕ → ℕ
max_val bits = 2 ^ (bits - 1) - 1

abbrev pub min_val : ℕ → ℤ
min_val bits = negsuc (max_val bits)

-- The end of `parseInt`.
unfoldable pub check_range : ℕ → ℤ → ParseError ⊎ ℤ
check_range bits v64 =
    if ltb_ℤ v64 (min_val bits) || ltb_ℤ (pos (max_val bits)) v64
    then inl (out_of_range v64)
    else inr v64

-- `parseInt`
unfoldable pub parse_int : Value → ℕ → ParseError ⊎ ℤ
unfolding check_range
parse_int (int64 v) bits = check_range bits v
parse_int (int v) bits = check_range bits v
parse_int (int8 v) bits = check_range bits v
parse_int (int16 v) bits = check_range bits v
parse_int (int32 v) bits = check_range bits v
parse_int (uint64 v) bits = inl (out_of_range (pos v))
parse_int _ bits = inl cannot_parse

-- `parseDouble`; `float_of` is the conversion `float64(v)` of an integer.
unfoldable pub parse_double : (ℤ → ℕ) → Value → ParseError ⊎ ℕ
parse_double float_of (int v) = inr (float_of v)
parse_double float_of (int64 v) = inr (float_of v)
parse_double float_of (uint64 v) = inr (float_of (pos v))
parse_double float_of (float64 v) = inr v
parse_double float_of _ = inl cannot_parse

-- `byte(v)`
abbrev pub byte_of : ℤ → ℕ
byte_of (pos n) = n % 2 ^ 8
byte_of (negsuc n) = 2 ^ 8 - 1 - n % 2 ^ 8

-- `parseBinaryList`, with the bytes so far.
unfoldable pub parse_binary_list : Text → Values → ParseError ⊎ Text
parse_binary_list bs end = inr bs
parse_binary_list bs (item (int v) vs) =
    let rest = parse_binary_list (bs ++ byte_of v ∷ []) vs in
    if ltb_ℤ v (negsuc 127) || ltb_ℤ (pos 255) v then inl (not_a_byte v) else rest
parse_binary_list bs (item (string s) vs) = parse_binary_list (bs ++ s) vs
parse_binary_list bs (item _ vs) = inl cannot_parse

-- The entry of a map under a text.
unfoldable pub lookup_text : Text → Entries → Option Value
lookup_text k no_entries = none
lookup_text k (entry (string j) v es) =
    let rest = lookup_text k es in if j == k then some v else rest
lookup_text k (entry _ v es) = lookup_text k es

-- `strings.TrimRight` of the character `=`
unfoldable pub trim_right : Text → Text
trim_right [] = []
trim_right (c ∷ cs) = elim (trim_right cs) [
  | [] ↦ if c == b'=' then [] else c ∷ []
  | d ∷ ds ↦ c ∷ d ∷ ds
]

module _ (decode_base64 read_file : Text → Text ⊎ Text) where
  abbrev result : Text ⊎ Text → ParseError ⊎ Text
  result (inl e) = inl (failed_with e)
  result (inr bs) = inr bs

  abbrev decode_entry : Value → ParseError ⊎ Text
  decode_entry (string s) = result (decode_base64 (trim_right s))
  decode_entry _ = inl not_a_string

  abbrev file_entry : Value → ParseError ⊎ Text
  file_entry (string s) = result (read_file s)
  file_entry _ = inl not_a_string

  -- `parseBinaryMap`
  unfoldable pub parse_binary_map : Entries → ParseError ⊎ Text
  unfolding trim_right
  parse_binary_map es = elim (lookup_text (codes "base64") es) [
    | some v ↦ decode_entry v
    | none ↦ elim (lookup_text (codes "file") es) [
      | some v ↦ file_entry v
      | none ↦ inl binary_object_options
    ]
  ]

  module _ (sprint : Value → Text) where
    -- `parseBinary`
    unfoldable pub parse_binary : Value → ParseError ⊎ Text
    unfolding parse_binary_list parse_binary_map
    parse_binary (string s) = inr s
    parse_binary (bytes bs) = inr bs
    parse_binary (list vs) = parse_binary_list [] vs
    parse_binary (mapping es) = parse_binary_map es
    parse_binary nil = inl cannot_parse
    parse_binary (object fs) = inl cannot_parse
    parse_binary v = inr (sprint v)
