-- ===== src/Tests/ThriftTypes.antt =====
-- thrift/types.go: values that are read, and the theorems at them.
use yab.Prelude.{some, inr, true, ◌≡◌, ◌↔◌, refl, codes, text_beq}
use yab.Prelude.Int.{negsuc}
use yab.Value.{int64, string}
use yab.ThriftTypes.{parse_int, parse_bool}
use yab.ThriftTypes.Ranges.{signed_value, FitsInto, parse_int_iff}

-- A single letter is taken for a Boolean, too.
parse_letter : parse_bool (string (codes "T")) ≡ inr true
unfolding parse_bool text_beq
parse_letter = refl

parse_int_iff_example :
    (parse_int (int64 (negsuc 127)) 8 ≡ inr (negsuc 127))
    ↔ (signed_value (int64 (negsuc 127)) ≡ some (negsuc 127)) × FitsInto 7 (negsuc 127)
parse_int_iff_example = parse_int_iff (int64 (negsuc 127)) 7 (negsuc 127)
