-- ===== src/TemplateArgs.antt =====
-- templateargs/process.go: the substitution of template arguments in a YAML request.
--
-- Parameters of the model: `yaml`, the decoder `yaml.Unmarshal` into an `interface{}` with whether it
-- reports an error, and `float_eq`, Go's `==` on floats. `ProcessMap` is `process_map` from an empty
-- replacement; the entries of a map are visited in the order in which they are listed.
pub mod Plain
pub mod Reference
use yab.Prelude.{
  ℕ, Bool, true, false, ◌||◌, ◌&&◌, not, List, [], ◌∷◌, Option, Text, codes, ◌==◌, text_comparable,
  if◌then◌else◌,
}
use yab.Prelude.Assoc.{Assoc, lookup}
use yab.Interpolate.{Parsed, ok, cannot_parse, parse}
use yab.Interpolate.Render.{Rendered, rendered, unknown_variable, render}
use yab.Value.{
  Value, nil, bool, int, int8, int16, int32, int64, uint64, float32, float64, string, bytes, list,
  mapping, object, Values, end, item, Entries, no_entries, entry, Fields, is_hashable, is_bool, put,
}

pub data Error : Type 0 where
  bad_template : Text → Error
  no_value : Text → Error
  bad_yaml : Text → Error

-- `crash` is a Go panic.
pub data Outcome {ℓ} (A : Type ℓ) : Type ℓ where
  done : A → Outcome A
  fail : Error → Outcome A
  crash : Outcome A

infixl 5 ◌>>=◌
abbrev pub ◌>>=◌ {ℓ κ} : {A : Type ℓ} {B : Type κ} → Outcome A → (A → Outcome B) → Outcome B
done a >>= f = f a
fail e >>= f = fail e
crash >>= f = crash

-- `strconv.ParseBool` reports no error on these texts, and on no others.
unfoldable pub is_go_bool : Text → Bool
is_go_bool s =
    s == codes "1"
    || s == codes "t"
    || s == codes "T"
    || s == codes "TRUE"
    || s == codes "true"
    || s == codes "True"
    || s == codes "0"
    || s == codes "f"
    || s == codes "F"
    || s == codes "FALSE"
    || s == codes "false"
    || s == codes "False"

-- `replacement[newK] = newV`, with the panic on a key that cannot be hashed.
module _ (float_eq : ℕ → ℕ → Bool) where
  unfoldable pub assign : Value → Value → Entries → Outcome Entries
  unfolding put
  assign k v es = if is_hashable k then done (put float_eq k v es) else crash

module _ (yaml : Text → Value × Bool) where
  -- The end of `processString`, where the text has changed.
  unfoldable pub decode : Text → Outcome Value
  unfolding is_go_bool
  decode text =
      let (value, failed) = yaml text in
      if is_bool value && not (is_go_bool text)
      then done (string text)
      else if failed
      then fail (bad_yaml text)
      else done value

  unfoldable pub process_rendered : Text → Rendered → Outcome Value
  unfolding decode
  process_rendered v (unknown_variable name) = fail (no_value name)
  process_rendered v (rendered text) =
      if text == [] then done (string []) else if text == v then done (string v) else decode text

  unfoldable pub process_parsed : Assoc Text Text → Text → Parsed → Outcome Value
  unfolding process_rendered
  process_parsed args v (cannot_parse _) = fail (bad_template v)
  process_parsed args v (ok parsed) = process_rendered v (render (λ name. lookup name args) parsed)

  unfoldable pub process_string : Text → Assoc Text Text → Outcome Value
  unfolding process_parsed
  process_string v args = process_parsed args v (parse v)

module _ (yaml : Text → Value × Bool) (float_eq : ℕ → ℕ → Bool) (args : Assoc Text Text) where
  unfoldable mutual
    unfolding process_string assign

    pub process_value : Value → Outcome Value
    process_value (string v) = process_string yaml v args
    process_value (list l) = do l' ← process_list l; done (list l')
    process_value (mapping m) = do m' ← process_map no_entries m; done (mapping m')
    process_value v = done v

    pub process_list : Values → Outcome Values
    process_list end = done end
    process_list (item v l) = do
      new_v ← process_value v
      rest ← process_list l
      done (item new_v rest)

    pub process_map : Entries → Entries → Outcome Entries
    process_map replacement no_entries = done replacement
    process_map replacement (entry k v m) = do
      new_k ← process_value k
      new_v ← process_value v
      replacement' ← assign float_eq new_k new_v replacement
      process_map replacement' m
