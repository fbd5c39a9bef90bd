-- ===== src/Thrift/FromWire/Reading.antt =====
-- What reading a value may report, and the defaults and entries of what is read.
use yab.Prelude.{
  ℕ, Bool, [], ◌∷◌, Option, none, some, Text, inl, inr, ◌≡◌, subst, nat_comparable, text_comparable,
  Option-cases,
}
use yab.Prelude.Assoc.{Assoc, lookup}
use yab.Prelude.Int.{ℤ, int_comparable}
use yab.Value.{Value, string}
use yab.Thrift.{Outcome, done, fail, crash, out_of_fuel, ◌>>=◌, map_fail, Constant, FieldSpec}
use yab.Thrift.Const.{const_to_request}
use yab.Thrift.Typing.{AllValues}
use yab.Thrift.FromWire.{
  MismatchError, type_mismatch, value_mismatch, list_item_mismatch, map_item_mismatch,
  struct_field_mismatch, marshal_key, put_default, add_defaults, put_marshalled, put_entry,
}

-- The error comes from a key of a map that cannot be marshalled.
abbrev pub IsMarshalError : MismatchError → Type 0
IsMarshalError (type_mismatch c d) = ⊥
IsMarshalError (value_mismatch t e) = IsMarshalError e
IsMarshalError (list_item_mismatch i e) = IsMarshalError e
IsMarshalError (map_item_mismatch t e) = IsMarshalError e
IsMarshalError (struct_field_mismatch t e) = IsMarshalError e
IsMarshalError (marshal_key k) = Unit

unfoldable pub IsRead : {A : Type 0} → Outcome MismatchError A → Type 0
IsRead (done a) = Unit
IsRead (fail e) = IsMarshalError e
IsRead crash = ⊥
IsRead out_of_fuel = ⊥

pub IsRead-done : {A : Type 0} (a : A) → IsRead (done a)
unfolding IsRead
IsRead-done a = tt

pub IsRead-bind :
    {A B : Type 0} (m : Outcome MismatchError A) (f : A → Outcome MismatchError B)
    → IsRead m
    → ((a : A) → IsRead (f a))
    → IsRead (m >>= f)
unfolding IsRead
IsRead-bind (done a) f p h = h a
IsRead-bind (fail e) f p h = p
IsRead-bind crash f p h = p
IsRead-bind out_of_fuel f p h = p

pub IsRead-map_fail :
    {A : Type 0} (g : MismatchError → MismatchError) (m : Outcome MismatchError A)
    → ((e : MismatchError) → IsMarshalError e → IsMarshalError (g e))
    → IsRead m
    → IsRead (map_fail g m)
unfolding IsRead
IsRead-map_fail g (done a) keep p = tt
IsRead-map_fail g (fail e) keep p = keep e p
IsRead-map_fail g crash keep p = p
IsRead-map_fail g out_of_fuel keep p = p

module _ (float_eq : ℕ → ℕ → Bool) where
  -- The default, if there is one, is a value.
  abbrev pub CanFill : Option Constant → Type 0
  CanFill none = Unit
  CanFill (some d) = (v : Value) × (const_to_request float_eq d ≡ some v)

  -- The defaults of the fields of a map are values.
  abbrev pub HaveDefaults : Assoc ℤ FieldSpec → Type 0
  HaveDefaults m = AllValues (λ f. CanFill f.fallback) m

  put_default-IsRead :
      (name : Text) (d : Constant) (result : Assoc Text Value)
      → CanFill (some d)
      → IsRead (put_default float_eq name (const_to_request float_eq d) result)
  put_default-IsRead name d result (v, e) = rw e (IsRead-done _)

  pub add_defaults-IsRead :
      (specs : Assoc ℤ FieldSpec) (result : Assoc Text Value)
      → HaveDefaults specs
      → IsRead (add_defaults float_eq specs result)
  unfolding add_defaults
  add_defaults-IsRead [] result h = IsRead-done result
  add_defaults-IsRead ((id, f) ∷ specs) result (h, hs) =
      elim (Option-cases (lookup f.name result)) [
        | inr (v, e) ↦ rw (add_defaults, e) (add_defaults-IsRead specs result hs)
        | inl e ↦ elim (Option-cases f.fallback) [
          | inl e' ↦ rw (add_defaults, e, e') (add_defaults-IsRead specs result hs)
          | inr (d, e') ↦
              rw (add_defaults, e, e')
                (IsRead-bind (put_default float_eq f.name (const_to_request float_eq d) result) _
                  (put_default-IsRead f.name d result (subst CanFill e' h))
                  λ r. add_defaults-IsRead specs r hs)
        ]
      ]

put_marshalled-IsRead :
    (key : Value) (o : Option Text) (value : Value) (result : Assoc Text Value)
    → IsRead (put_marshalled key o value result)
unfolding IsRead
put_marshalled-IsRead key none value result = tt
put_marshalled-IsRead key (some t) value result = tt

pub put_entry-IsRead :
    (marshal : Value → Option Text) (key value : Value) (result : Assoc Text Value)
    → IsRead (put_entry marshal key value result)
put_entry-IsRead marshal (string k) value result = IsRead-done _
put_entry-IsRead marshal key value result = put_marshalled-IsRead key (marshal key) value result
