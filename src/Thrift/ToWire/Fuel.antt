-- ===== src/Thrift/ToWire/Fuel.antt =====
-- The depth of values, and conversions that come to an end.
use yab.Prelude.{
  ℕ, zero, suc, Bool, Option, none, some, Text, ◌⊎◌, inl, inr, nat_comparable, text_comparable,
}
use yab.Value.{
  Value, string, list, mapping, object, Values, end, item, Entries, no_entries, entry, Fields,
  no_fields, field,
}
use yab.Prelude.Int.{ℤ}
use yab.ThriftTypes.{ParseError}
use yab.Thrift.{Outcome, done, fail, crash, out_of_fuel, ◌>>=◌, map_fail}
use yab.Thrift.Enum.{EnumError}
use yab.Thrift.ToWire.{WireError, of_parse, of_enum, of_crash, decoded}

-- The depth of the value is at most the number, where the texts among the keys of its maps count as
-- what they are decoded to.
module _ (yaml : Text → Value × Bool) where
  -- What a key may be converted from.
  abbrev pub FitsKey : (Value → Type 0) → Value → Type 0
  FitsKey P (string s) = P (string s) × P (decoded s (yaml s))
  FitsKey P k = P k

  abbrev pub FitItems : (Value → Type 0) → Values → Type 0
  FitItems P end = Unit
  FitItems P (item v vs) = P v × FitItems P vs

  abbrev pub FitEntries : (Value → Type 0) → Entries → Type 0
  FitEntries P no_entries = Unit
  FitEntries P (entry k v es) = FitsKey P k × P v × FitEntries P es

  abbrev pub FitFields : (Value → Type 0) → Fields → Type 0
  FitFields P no_fields = Unit
  FitFields P (field k v fs) = FitsKey P (string k) × P v × FitFields P fs

  abbrev pub FitParts : (Value → Type 0) → Value → Type 0
  FitParts P (list vs) = FitItems P vs
  FitParts P (mapping es) = FitEntries P es
  FitParts P (object fs) = FitFields P fs
  FitParts P v = Unit

  unfoldable pub Fits : ℕ → Value → Type 0
  Fits zero v = ⊥
  Fits (suc n) v = FitParts (Fits n) v

-- The conversion has come to an end.
unfoldable pub IsEnded : {A : Type 0} → Outcome WireError A → Type 0
IsEnded (done a) = Unit
IsEnded (fail e) = Unit
IsEnded crash = Unit
IsEnded out_of_fuel = ⊥

pub IsEnded-bind :
    {A B : Type 0} (m : Outcome WireError A) (f : A → Outcome WireError B)
    → IsEnded m
    → ((a : A) → IsEnded (f a))
    → IsEnded (m >>= f)
unfolding IsEnded
IsEnded-bind (done a) f p h = h a
IsEnded-bind (fail e) f p h = tt
IsEnded-bind crash f p h = tt
IsEnded-bind out_of_fuel f p h = p

pub IsEnded-map_fail :
    {A : Type 0} (g : WireError → WireError) (m : Outcome WireError A)
    → IsEnded m
    → IsEnded (map_fail g m)
unfolding IsEnded
IsEnded-map_fail g (done a) p = tt
IsEnded-map_fail g (fail e) p = tt
IsEnded-map_fail g crash p = tt
IsEnded-map_fail g out_of_fuel p = p

pub IsEnded-done : {A : Type 0} (a : A) → IsEnded (done a)
unfolding IsEnded
IsEnded-done a = tt

pub IsEnded-fail : (A : Type 0) (e : WireError) → IsEnded {A = A} (fail e)
unfolding IsEnded
IsEnded-fail A e = tt

pub IsEnded-of_crash : {A : Type 0} (o : Option A) → IsEnded (of_crash o)
unfolding IsEnded
IsEnded-of_crash none = tt
IsEnded-of_crash (some a) = tt

pub IsEnded-of_parse : {A B : Type 0} (f : A → B) (r : ParseError ⊎ A) → IsEnded (of_parse f r)
unfolding IsEnded
IsEnded-of_parse f (inl e) = tt
IsEnded-of_parse f (inr a) = tt

pub IsEnded-of_enum : (r : EnumError ⊎ ℤ) → IsEnded (of_enum r)
unfolding IsEnded
IsEnded-of_enum (inl e) = tt
IsEnded-of_enum (inr n) = tt
