-- ===== src/Value.antt =====
-- The dynamic values (`interface{}`) that the YAML and JSON decoders hand to the program, by their
-- Go types. A float is its bit pattern. `bytes` is `[]byte`, `list` is `[]interface{}`, `mapping` is
-- `map[interface{}]interface{}` and `object` is `map[string]interface{}`; the two map types list
-- their entries in the order in which a `range` loop meets them.
use yab.Prelude.{
  ℕ, suc, Bool, true, false, ◌≡◌, refl, ap, Text, ◌==◌, nat_comparable, text_comparable,
  if◌then◌else◌,
}
use yab.Prelude.Int.{ℤ, int_comparable}

mutual
  pub data Value : Type 0 where
    nil : Value
    bool : Bool → Value
    int : ℤ → Value
    int8 : ℤ → Value
    int16 : ℤ → Value
    int32 : ℤ → Value
    int64 : ℤ → Value
    uint64 : ℕ → Value
    float32 : ℕ → Value
    float64 : ℕ → Value
    string : Text → Value
    bytes : Text → Value
    list : Values → Value
    mapping : Entries → Value
    object : Fields → Value

  pub data Values : Type 0 where
    end : Values
    item : Value → Values → Values

  pub data Entries : Type 0 where
    no_entries : Entries
    entry : Value → Value → Entries → Entries

  pub data Fields : Type 0 where
    no_fields : Fields
    field : Text → Value → Fields → Fields

-- Go panics when a value of another type is used as a key of a map.
abbrev pub is_hashable : Value → Bool
is_hashable (bytes _) = false
is_hashable (list _) = false
is_hashable (mapping _) = false
is_hashable (object _) = false
is_hashable _ = true

abbrev pub is_bool : Value → Bool
is_bool (bool _) = true
is_bool _ = false

abbrev pub is_nil : Value → Bool
is_nil nil = true
is_nil _ = false

abbrev pub count_values : Values → ℕ
count_values end = 0
count_values (item v vs) = suc (count_values vs)

abbrev pub append_entries : Entries → Entries → Entries
append_entries no_entries m = m
append_entries (entry k v es) m = entry k v (append_entries es m)

pub append_entries_assoc :
    (a b c : Entries)
    → append_entries (append_entries a b) c ≡ append_entries a (append_entries b c)
append_entries_assoc no_entries b c = refl
append_entries_assoc (entry k v es) b c = ap (entry k v) (append_entries_assoc es b c)

module _ (float_eq : ℕ → ℕ → Bool) where
  -- `==` on keys; `float_eq` is the comparison of floats by their bit patterns.
  unfoldable pub key_eq : Value → Value → Bool
  key_eq nil nil = true
  key_eq (bool true) (bool true) = true
  key_eq (bool false) (bool false) = true
  key_eq (int a) (int b) = a == b
  key_eq (int8 a) (int8 b) = a == b
  key_eq (int16 a) (int16 b) = a == b
  key_eq (int32 a) (int32 b) = a == b
  key_eq (int64 a) (int64 b) = a == b
  key_eq (uint64 a) (uint64 b) = a == b
  key_eq (float32 a) (float32 b) = float_eq a b
  key_eq (float64 a) (float64 b) = float_eq a b
  key_eq (string a) (string b) = a == b
  key_eq _ _ = false

  -- `m[k] = v`, for a key that can be hashed
  unfoldable pub put : Value → Value → Entries → Entries
  unfolding key_eq
  put k v no_entries = entry k v no_entries
  put k v (entry j w es) =
      let rest = put k v es in if key_eq j k then entry j v es else entry j w rest
