-- ===== src/Thrift.antt =====
-- thrift: conversion of requests into Thrift values and of Thrift values into responses.
--
-- What package `compile` and package `wire` of thriftrw offer to this code is here as data. A struct
-- may hold itself, so a type names it by a number, and the structs are a function from the numbers.
-- A wire type is the number that thriftrw gives it. The order of a list of fields or entries is the
-- order in which a `range` loop meets them.
pub mod Decimal
pub mod Enum
pub mod Const
pub mod Fields
pub mod ToWire
pub mod FromWire
pub mod Typing
pub mod Response
pub mod Serializer
use yab.Prelude.{ℕ, Bool, true, false, List, [], ◌∷◌, Option, Text}
use yab.Prelude.Int.{ℤ}
use yab.Value.{Value}
use yab.ThriftTypes.{ParseError}

-- A value that the code has computed, an error, a Go panic, or fuel that is used up.
pub data Outcome {ℓ} (E : Type 0) (A : Type ℓ) : Type ℓ where
  done : A → Outcome E A
  fail : E → Outcome E A
  crash : Outcome E A
  out_of_fuel : Outcome E A

infixl 5 ◌>>=◌
abbrev pub ◌>>=◌ {ℓ κ} :
    {E : Type 0} {A : Type ℓ} {B : Type κ} → Outcome E A → (A → Outcome E B) → Outcome E B
done a >>= f = f a
fail e >>= f = fail e
crash >>= f = crash
out_of_fuel >>= f = out_of_fuel

-- The error of a call, seen by its caller in other words.
abbrev pub map_fail {ℓ} : {E F : Type 0} {A : Type ℓ} → (E → F) → Outcome E A → Outcome F A
map_fail g (done a) = done a
map_fail g (fail e) = fail (g e)
map_fail g crash = crash
map_fail g out_of_fuel = out_of_fuel

-- `compile.EnumSpec`
pub record EnumSpec : Type 0 where
  pub name : Text
  pub items : List (Text × ℤ)

-- `compile.TypeSpec`; `named` is a typedef.
pub data TypeSpec : Type 0 where
  bool_spec i8_spec i16_spec i32_spec i64_spec double_spec string_spec binary_spec : TypeSpec
  enum_spec : EnumSpec → TypeSpec
  struct_spec : ℕ → TypeSpec
  list_spec set_spec : TypeSpec → TypeSpec
  map_spec : TypeSpec → TypeSpec → TypeSpec
  named : Text → TypeSpec → TypeSpec

-- `compile.ConstantValue`; `reference` holds the value of its target.
mutual
  pub data Constant : Type 0 where
    const_bool : Bool → Constant
    const_double : ℕ → Constant
    const_int : ℤ → Constant
    const_string : Text → Constant
    reference : Constant → Constant
    enum_item : ℤ → Constant
    const_set const_list : Constants → Constant
    const_map : ConstantPairs → Constant
    const_struct : ConstantFields → Constant

  pub data Constants : Type 0 where
    no_constants : Constants
    constant : Constant → Constants → Constants

  pub data ConstantPairs : Type 0 where
    no_pairs : ConstantPairs
    pair : Constant → Constant → ConstantPairs → ConstantPairs

  pub data ConstantFields : Type 0 where
    no_constant_fields : ConstantFields
    constant_field : Text → Constant → ConstantFields → ConstantFields

-- `compile.FieldSpec`
pub record FieldSpec : Type 0 where
  pub id : ℤ
  pub name : Text
  pub spec : TypeSpec
  pub required : Bool
  pub fallback : Option Constant

-- `compile.StructSpec`
pub record StructSpec : Type 0 where
  pub name : Text
  pub is_union : Bool
  pub fields : List FieldSpec

abbrev pub Structs : Type 0
Structs = ℕ → StructSpec

-- `compile.RootTypeSpec`
abbrev pub root_type_spec : TypeSpec → TypeSpec
root_type_spec (named n s) = root_type_spec s
root_type_spec s = s

-- `TypeCode` of a type that is no typedef, and of any type
abbrev pub root_code : TypeSpec → ℕ
root_code bool_spec = 2
root_code i8_spec = 3
root_code double_spec = 4
root_code i16_spec = 6
root_code i32_spec = 8
root_code (enum_spec e) = 8
root_code i64_spec = 10
root_code string_spec = 11
root_code binary_spec = 11
root_code (struct_spec k) = 12
root_code (map_spec k v) = 13
root_code (set_spec s) = 14
root_code (list_spec s) = 15
root_code (named n s) = 0

abbrev pub type_code : TypeSpec → ℕ
type_code s = root_code (root_type_spec s)

-- `wire.Value`. A double is its bit pattern. Lists, sets and maps carry the wire types of what they
-- hold.
mutual
  pub data Wire : Type 0 where
    wire_bool : Bool → Wire
    wire_i8 wire_i16 wire_i32 wire_i64 : ℤ → Wire
    wire_double : ℕ → Wire
    wire_binary : Text → Wire
    wire_struct : WireFields → Wire
    wire_list wire_set : ℕ → Wires → Wire
    wire_map : ℕ → ℕ → WirePairs → Wire

  pub data Wires : Type 0 where
    no_wires : Wires
    wire : Wire → Wires → Wires

  pub data WireFields : Type 0 where
    no_wire_fields : WireFields
    wire_field : ℤ → Wire → WireFields → WireFields

  pub data WirePairs : Type 0 where
    no_wire_pairs : WirePairs
    wire_pair : Wire → Wire → WirePairs → WirePairs

-- `Type`
abbrev pub wire_type : Wire → ℕ
wire_type (wire_bool b) = 2
wire_type (wire_i8 n) = 3
wire_type (wire_double d) = 4
wire_type (wire_i16 n) = 6
wire_type (wire_i32 n) = 8
wire_type (wire_i64 n) = 10
wire_type (wire_binary bs) = 11
wire_type (wire_struct fs) = 12
wire_type (wire_map k v ps) = 13
wire_type (wire_set c ws) = 14
wire_type (wire_list c ws) = 15
