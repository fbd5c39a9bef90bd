-- ===== src/Thrift/Const.antt =====
-- thrift/const.go: constants as values of a request. `none` is a panic: a constant map has a key that
-- cannot be hashed. `float_eq` is Go's `==` on floats.
use yab.Prelude.{ℕ, Option, none, some, Bool, if◌then◌else◌}
use yab.Value.{
  Value, bool, int32, int64, float64, string, list, mapping, object, Values, end, item, Entries,
  no_entries, Fields, no_fields, field, is_hashable, put,
}
use yab.Thrift.{
  Constant, const_bool, const_double, const_int, const_string, reference, enum_item, const_set,
  const_list, const_map, const_struct, Constants, no_constants, constant, ConstantPairs, no_pairs,
  pair, ConstantFields, no_constant_fields, constant_field,
}

abbrev bind {ℓ κ} : {A : Type ℓ} {B : Type κ} → Option A → (A → Option B) → Option B
bind none f = none
bind (some a) f = f a

module _ (float_eq : ℕ → ℕ → Bool) where
  abbrev put_key : Value → Value → Entries → Option Entries
  put_key k v es = if is_hashable k then some (put float_eq k v es) else none

  unfoldable mutual
    -- `constToRequest`
    pub const_to_request : Constant → Option Value
    const_to_request (const_bool b) = some (bool b)
    const_to_request (const_double d) = some (float64 d)
    const_to_request (const_int n) = some (int64 n)
    const_to_request (const_string s) = some (string s)
    const_to_request (reference c) = const_to_request c
    const_to_request (enum_item n) = some (int32 n)
    const_to_request (const_set cs) = bind (const_values cs) λ vs. some (list vs)
    const_to_request (const_list cs) = bind (const_values cs) λ vs. some (list vs)
    const_to_request (const_map ps) = bind (const_entries no_entries ps) λ es. some (mapping es)
    const_to_request (const_struct fs) = bind (const_fields fs) λ vs. some (object vs)

    -- `constValueListToRequest`
    pub const_values : Constants → Option Values
    const_values no_constants = some end
    const_values (constant c cs) =
        bind (const_to_request c) λ v. bind (const_values cs) λ vs. some (item v vs)

    pub const_entries : Entries → ConstantPairs → Option Entries
    const_entries es no_pairs = some es
    const_entries es (pair k v ps) =
        bind (const_to_request k)
          λ k'. bind (const_to_request v) λ v'. bind (put_key k' v' es) λ es'. const_entries es' ps

    pub const_fields : ConstantFields → Option Fields
    const_fields no_constant_fields = some no_fields
    const_fields (constant_field name c fs) =
        bind (const_to_request c) λ v. bind (const_fields fs) λ vs. some (field name v vs)
