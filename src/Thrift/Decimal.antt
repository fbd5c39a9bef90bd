-- ===== src/Thrift/Decimal.antt =====
-- Decimal numbers as `strconv` and `fmt` write them (`Itoa`, `%v`), and as `strconv.ParseInt` reads them
-- in base 10.
use yab.Prelude.{
  ℕ, zero, suc, ◌+◌, ◌-◌, ◌*◌, ◌/◌, ◌%◌, ◌<◌, ◌≤◌, ◌&&◌, [], ◌∷◌, Option, none, some, Text, ◌≡◌,
  refl, ap, ◌∙◌, arith, ltb, leb, if◌then◌else◌, ◌==◌, nat_comparable, Bool-cases, inl, inr,
}
use yab.Prelude.Int.{ℤ, pos, negsuc}

-- The digits of a number, in front of `rest`. Each digit takes a unit of fuel; one more than the number
-- is enough.
unfoldable pub digits : ℕ → ℕ → Text → Text
digits zero n rest = rest
digits (suc fuel) n rest =
    let more = digits fuel (n / 10) ((b'0' + n % 10) ∷ rest) in
    if ltb n 10 then (b'0' + n) ∷ rest else more

-- `strconv.Itoa`
unfoldable pub itoa : ℤ → Text
itoa (pos n) = digits (suc n) n []
itoa (negsuc n) = b'-' ∷ digits (suc (suc n)) (suc n) []

-- The digits that are left, behind digits that stand for `acc`.
unfoldable pub read_digits : ℕ → Text → Option ℕ
read_digits acc [] = some acc
read_digits acc (c ∷ cs) =
    let rest = read_digits (acc * 10 + (c - b'0')) cs in
    if leb b'0' c && leb c b'9' then rest else none

abbrev read_unsigned : Text → Option ℕ
read_unsigned [] = none
read_unsigned (c ∷ cs) = read_digits 0 (c ∷ cs)

-- The number behind the sign, within `limit`.
abbrev bounded : ℕ → (ℕ → ℤ) → Option ℕ → Option ℤ
bounded limit signed none = none
bounded limit signed (some n) = if leb n limit then some (signed n) else none

abbrev pub minus : ℕ → ℤ
minus zero = pos 0
minus (suc n) = negsuc n

-- `strconv.ParseInt` in base 10, for numbers from -(limit + 1) to limit
unfoldable pub parse_decimal : ℕ → Text → Option ℤ
unfolding read_digits
parse_decimal limit [] = none
parse_decimal limit (c ∷ cs) =
    if c == b'-'
    then bounded (suc limit) minus (read_unsigned cs)
    else if c == b'+'
    then bounded limit pos (read_unsigned cs)
    else bounded limit pos (read_unsigned (c ∷ cs))

read_digits-digits :
    (fuel n : ℕ) (rest : Text) → n < fuel → read_digits 0 (digits fuel n rest) ≡ read_digits n rest
unfolding digits read_digits
read_digits-digits zero n rest h = absurd (omega arith)
read_digits-digits (suc fuel) n rest h = elim (Bool-cases (ltb n 10)) [
  | inl e ↦ ground arith
  | inr e ↦ rw e (
      read_digits-digits fuel (n / 10) ((b'0' + n % 10) ∷ rest) (ground arith)
      ∙ ground (
        arith,
        ap (λ k. read_digits k rest)
            (let same : n / 10 * 10 + (b'0' + n % 10 - b'0') ≡ n = omega arith in same),
      ))
]

-- The first byte of a number is a digit.
digits-head :
    (fuel n : ℕ) (rest : Text)
    → n < fuel
    → (c : ℕ) × (cs : Text) × (digits fuel n rest ≡ c ∷ cs) × (b'0' ≤ c) × (c ≤ b'9')
unfolding digits
digits-head zero n rest h = absurd (omega arith)
digits-head (suc fuel) n rest h = elim (Bool-cases (ltb n 10)) [
  | inl e ↦ (b'0' + n, rest, rw e refl, omega arith, ground arith)
  | inr e ↦ rw e (digits-head fuel (n / 10) ((b'0' + n % 10) ∷ rest) (ground arith))
]

unsigned_text :
    (limit n c : ℕ) (t cs : Text)
    → n ≤ limit
    → t ≡ c ∷ cs
    → b'0' ≤ c
    → read_digits 0 t ≡ some n
    → parse_decimal limit t ≡ some (pos n)
unfolding parse_decimal
unsigned_text limit n c t cs h e low read =
    rw e (let first : read_digits 0 (c ∷ cs) ≡ some n = rw e at read in ground (arith, first))

signed_text :
    (limit n c : ℕ) (t cs : Text)
    → n ≤ limit
    → t ≡ c ∷ cs
    → read_digits 0 t ≡ some (suc n)
    → parse_decimal limit (b'-' ∷ t) ≡ some (negsuc n)
unfolding parse_decimal
signed_text limit n c t cs h e read =
    rw e (let first : read_digits 0 (c ∷ cs) ≡ some (suc n) = rw e at read in ground (arith, first))

-- A number in range is read as it is written.
pub parse_decimal-itoa-pos :
    (limit n : ℕ) → n ≤ limit → parse_decimal limit (itoa (pos n)) ≡ some (pos n)
unfolding itoa
parse_decimal-itoa-pos limit n h =
    let (c, cs, e, low, high) = digits-head (suc n) n [] (omega arith) in
    unsigned_text limit n c (digits (suc n) n []) cs h e low
      (read_digits-digits (suc n) n [] (omega arith) ∙ unfold read_digits in refl)

pub parse_decimal-itoa-negsuc :
    (limit n : ℕ) → n ≤ limit → parse_decimal limit (itoa (negsuc n)) ≡ some (negsuc n)
unfolding itoa
parse_decimal-itoa-negsuc limit n h =
    let (c, cs, e, low, high) = digits-head (suc (suc n)) (suc n) [] (omega arith) in
    signed_text limit n c (digits (suc (suc n)) (suc n) []) cs h e
      (read_digits-digits (suc (suc n)) (suc n) [] (omega arith) ∙ unfold read_digits in refl)
