-- ===== src/ThriftTypes/Ranges.antt =====
-- The numbers that are taken: integers of a width, and lists of bytes, signed or not.
use yab.Prelude.{
  ℕ, zero, suc, ◌-◌, ◌^◌, ◌≤◌, ◌<◌, false, ◌||◌, [], ◌∷◌, ◌++◌, Option, none, some, inl, inr, Text,
  ◌≡◌, ◌↔◌, refl, ap, ◌∙◌, arith, All, append-nil, append_assoc, if◌then◌else◌,
}
use yab.Prelude.Int.{ℤ, pos, negsuc, pos_part, neg_part, ltb_ℤ, ◌≤ℤ◌, ltb_ℤ-cases}
use yab.Value.{
  Value, nil, bool, int, int8, int16, int32, int64, uint64, float32, float64, string, bytes, list,
  mapping, object, Values, end, item,
}
use yab.ThriftTypes.{
  ParseError, cannot_parse, out_of_range, max_val, min_val, check_range, parse_int, byte_of,
  parse_binary_list,
}

-- The number that a value stands for, where its Go type is a signed integer.
abbrev pub signed_value : Value → Option ℤ
signed_value (int v) = some v
signed_value (int8 v) = some v
signed_value (int16 v) = some v
signed_value (int32 v) = some v
signed_value (int64 v) = some v
signed_value _ = none

pow_pos : (b : ℕ) → 0 < 2 ^ b
pow_pos zero = omega arith
pow_pos (suc b) = omega (arith, pow_pos b)

-- The numbers of a width of `b + 1` bits: from -2^b up to and without 2^b.
abbrev pub FitsInto : ℕ → ℤ → Type 0
FitsInto b n = (neg_part n ≤ 2 ^ b) × (pos_part n < 2 ^ b)

bounds_iff :
    (b : ℕ) (n : ℤ) → ((min_val (suc b) ≤ℤ n) × (n ≤ℤ pos (max_val (suc b)))) ↔ FitsInto b n
bounds_iff b n = let p = pow_pos b in (λ h. ground (arith, p, h), λ h. ground (arith, p, h))

check_range_iff :
    (b : ℕ) (v n : ℤ) → (check_range (suc b) v ≡ inr n) ↔ (some v ≡ some n) × FitsInto b n
unfolding check_range
check_range_iff b v n =
    let low = ltb_ℤ-cases v (min_val (suc b)) in
    let high = ltb_ℤ-cases (pos (max_val (suc b))) v in
    let bounds = bounds_iff b v in
    (λ h. ground (arith, low, high, bounds), λ h. ground (arith, low, high, bounds))

refused_iff : (e : ParseError) (b : ℕ) (n : ℤ) → (inl e ≡ inr n) ↔ (none ≡ some n) × FitsInto b n
refused_iff e b n = (λ h. absurd (ground arith), λ h. absurd (ground arith))

-- A number is the result of parseInt for a width of b + 1 bits exactly when the value is that number,
-- of a signed Go type, and the number is at least -2^b and less than 2^b.
pub parse_int_iff :
    (v : Value) (b : ℕ) (n : ℤ)
    → (parse_int v (suc b) ≡ inr n) ↔ (signed_value v ≡ some n) × FitsInto b n
unfolding parse_int
parse_int_iff (int v) b n = check_range_iff b v n
parse_int_iff (int8 v) b n = check_range_iff b v n
parse_int_iff (int16 v) b n = check_range_iff b v n
parse_int_iff (int32 v) b n = check_range_iff b v n
parse_int_iff (int64 v) b n = check_range_iff b v n
parse_int_iff (uint64 v) b n = refused_iff (out_of_range (pos v)) b n
parse_int_iff nil b n = refused_iff cannot_parse b n
parse_int_iff (bool v) b n = refused_iff cannot_parse b n
parse_int_iff (float32 v) b n = refused_iff cannot_parse b n
parse_int_iff (float64 v) b n = refused_iff cannot_parse b n
parse_int_iff (string v) b n = refused_iff cannot_parse b n
parse_int_iff (bytes v) b n = refused_iff cannot_parse b n
parse_int_iff (list v) b n = refused_iff cannot_parse b n
parse_int_iff (mapping v) b n = refused_iff cannot_parse b n
parse_int_iff (object v) b n = refused_iff cannot_parse b n

-- A byte as a signed number, as Java has it.
abbrev pub signed_byte : ℕ → ℤ
signed_byte b = if ltb_ℤ (pos b) (pos 128) then pos b else negsuc (255 - b)

abbrev pub items : (ℕ → ℤ) → Text → Values
items f [] = end
items f (b ∷ bs) = item (int (f b)) (items f bs)

byte_of-signed_byte : (b : ℕ) → b < 256 → byte_of (signed_byte b) ≡ b
byte_of-signed_byte b h = ground arith

items-byte :
    (f : ℕ → ℤ)
    → ((b : ℕ)
        → b < 256
        → (byte_of (f b) ≡ b) × ((ltb_ℤ (f b) (negsuc 127) || ltb_ℤ (pos 255) (f b)) ≡ false))
    → (so_far bs : Text) → All (λ b. b < 256) bs
    → parse_binary_list so_far (items f bs) ≡ inr (so_far ++ bs)
unfolding parse_binary_list
items-byte f ok so_far [] h = rw append-nil refl
items-byte f ok so_far (b ∷ bs) (h, hs) =
    rw ((ok b h).1, (ok b h).0)
      (items-byte f ok (so_far ++ b ∷ []) bs hs ∙ ap inr (append_assoc so_far (b ∷ []) bs))

-- A list of the numbers of some bytes is read as those bytes, whether the numbers are unsigned or
-- signed.
pub parse_binary_list-items :
    (bs : Text)
    → All (λ b. b < 256) bs
    → (parse_binary_list [] (items pos bs) ≡ inr bs)
      × (parse_binary_list [] (items signed_byte bs) ≡ inr bs)
parse_binary_list-items bs h = (
  items-byte pos (λ b k. (omega arith, ground arith)) [] bs h,
  items-byte signed_byte (λ b k. (byte_of-signed_byte b k, ground arith)) [] bs h,
)
