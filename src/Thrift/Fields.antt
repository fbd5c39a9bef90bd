-- ===== src/Thrift/Fields.antt =====
-- thrift/fields.go: fields by the names that a request may call them, and which of them it gives.
pub mod Found
pub mod Known
use yab.Prelude.{
  Comparable, ℕ, suc, ◌+◌, Bool, true, false, not, ◌&&◌, List, [], ◌∷◌, ◌++◌, Option, none, some,
  Text, length, ◌==◌, nat_comparable, text_comparable, leb, if◌then◌else◌,
}
use yab.Prelude.Assoc.{Assoc, lookup, insert}
use yab.Prelude.Int.{ℤ}
use yab.Value.{Value, is_nil, Fields, no_fields, field}
use yab.Thrift.{Constant, FieldSpec}
use yab.Thrift.Const.{const_to_request}
use yab.Thrift.Decimal.{itoa}

-- `fuzz`
unfoldable pub fuzz : Text → Text
fuzz [] = []
fuzz (c ∷ cs) =
    let rest = fuzz cs in
    if leb b'A' c && leb c b'Z'
    then (c + 32) ∷ rest
    else if leb b'a' c && leb c b'z'
    then c ∷ rest
    else if leb b'0' c && leb c b'9'
    then c ∷ rest
    else rest

-- The fields under their keys: of two with one key the later stays.
module _ {ℓ} {K : Type ℓ} ⦃c : Comparable K⦄ (key : FieldSpec → K) where
  unfoldable pub index_from : List FieldSpec → Assoc K FieldSpec → Assoc K FieldSpec
  index_from [] m = m
  index_from (f ∷ fs) m = index_from fs (insert (key f) f m)

abbrev pub exact_key : FieldSpec → Text
exact_key f = f.name

abbrev pub id_key : FieldSpec → Text
id_key f = itoa f.id

abbrev pub fuzzy_key : FieldSpec → Text
fuzzy_key f = fuzz f.name

-- The maps of `fields`.
pub record FieldMaps : Type 0 where
  pub exact : Assoc Text FieldSpec
  pub field_ids : Assoc Text FieldSpec
  pub fuzzy : Assoc Text FieldSpec

-- `getFields`
unfoldable pub get_fields : List FieldSpec → FieldMaps
unfolding index_from
get_fields fs =
    let exact = index_from exact_key fs [] in
    let fuzzy = index_from fuzzy_key fs [] in
    record {
      exact = exact;
      field_ids = index_from id_key fs [];
      fuzzy = if length exact == length fuzzy then fuzzy else [];
    }

-- `getField`
unfoldable pub get_field : FieldMaps → Text → Option FieldSpec
get_field m name = elim (lookup name m.exact) [
  | some f ↦ some f
  | none ↦ elim (lookup name m.field_ids) [ some f ↦ some f | none ↦ lookup (fuzz name) m.fuzzy ]
]

-- What a request gives by field, and its names that are no field's.
pub record Given : Type 0 where
  pub user_fields : Assoc Text Value
  pub not_found : List Text

-- One entry of the request, by the field that its name is one of.
abbrev pub give_field : Text → Value → Given → Option FieldSpec → Given
give_field k v g none = record g { not_found = g.not_found ++ k ∷ [] }
give_field k v g (some f) =
    if is_nil v then g else record g { user_fields = insert f.name v g.user_fields }

-- The loop of `fieldGroupToValue` over the request.
unfoldable pub give : FieldMaps → Fields → Given → Given
unfolding get_field
give m no_fields g = g
give m (field k v request) g = give m request (give_field k v g (get_field m k))

-- The fields with their defaults, and the names of those that are required and missing.
pub record Filled : Type 0 where
  pub user_fields : Assoc Text Value
  pub missing_required : List Text

module _ (float_eq : ℕ → ℕ → Bool) where
  -- A field that the request does not give. `none` is a panic.
  unfoldable pub fill_field : Text → FieldSpec → Filled → Option Filled
  unfolding const_to_request
  fill_field k arg r = elim arg.fallback [
    | some d ↦ elim (const_to_request float_eq d) [
      | none ↦ none
      | some v ↦ some (record r { user_fields = insert arg.name v r.user_fields })
    ]
    | none ↦
        some
          (if arg.required then record r { missing_required = r.missing_required ++ k ∷ [] } else r)
  ]

  -- The loop of `fieldGroupToValue` over the fields.
  unfoldable pub fill : Assoc Text FieldSpec → Filled → Option Filled
  unfolding fill_field
  fill [] r = some r
  fill ((k, arg) ∷ fields) r = elim (lookup arg.name r.user_fields) [
    | some v ↦ fill fields r
    | none ↦ elim (fill_field k arg r) [ none ↦ none | some r' ↦ fill fields r' ]
  ]
