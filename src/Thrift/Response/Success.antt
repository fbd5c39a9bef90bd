-- ===== src/Thrift/Response/Success.antt =====
-- Which responses are successful, and what they are read as.
use yab.Prelude.{
  Bool, [], ◌∷◌, Option, none, some, ◌⊎◌, inl, inr, ◌≡◌, ◌↔◌, refl, ap, ◌∙◌, subst, Text, codes,
  ◌==◌, text_comparable, Bool-cases, arith,
}
use yab.Prelude.Assoc.{Assoc, insert}
use yab.Prelude.Int.{pos, int_comparable, beq_ℤ_iff}
use yab.Value.{Value}
use yab.Thrift.{
  Outcome, done, fail, crash, out_of_fuel, ◌>>=◌, map_fail, TypeSpec, Wire, WireFields,
  no_wire_fields, wire_field,
}
use yab.Thrift.FromWire.{MismatchError}
use yab.Thrift.Response.{
  Options, FunctionSpec, ResponseError, result_field, return_type_of, wrap_serialize_exception,
  check_void, check_return, check_fields, response_bytes_to_wire, check_success, read_field,
  read_fields, response_bytes_to_map,
}

-- What a method that returns a value of the type, or none, gives when it succeeds.
abbrev pub AreResult : Option TypeSpec → WireFields → Type 0
AreResult none fs = fs ≡ no_wire_fields
AreResult (some t) fs = (w : Wire) × (fs ≡ wire_field (pos 0) w no_wire_fields)

module _ (thrift_name : TypeSpec → Text) where
  check_void_iff :
      (spec : FunctionSpec) (fs : WireFields)
      → (check_void thrift_name spec fs ≡ done tt) ↔ (fs ≡ no_wire_fields)
  unfolding check_void
  check_void_iff spec no_wire_fields = (λ h. refl, λ h. refl)
  check_void_iff spec (wire_field id w fs) = elim (Bool-cases (id == pos 0)) [
    | inl e ↦ rw e (λ h. absurd (ground arith), λ h. absurd (ground arith))
    | inr e ↦ rw e (λ h. absurd (ground arith), λ h. absurd (ground arith))
  ]

  check_return_iff :
      (spec : FunctionSpec) (t : TypeSpec) (fs : WireFields)
      → (check_return thrift_name spec fs ≡ done tt) ↔ AreResult (some t) fs
  unfolding check_return
  check_return_iff spec t no_wire_fields =
      (λ h. absurd (ground arith), λ (w, e). absurd (ground arith))
  check_return_iff spec t (wire_field id w (wire_field j x fs)) =
      (λ h. absurd (ground arith), λ (w, e). absurd (ground arith))
  check_return_iff spec t (wire_field id w no_wire_fields) = elim (Bool-cases (id == pos 0)) [
    | inl e ↦
        let at : id ≡ pos 0 = (beq_ℤ_iff id (pos 0)).0 e in
        rw e (λ h. (w, ap (λ i. wire_field i w no_wire_fields) at), λ p. refl)
    | inr e ↦
        rw e (λ h. absurd (ground arith), λ (x, p). absurd (ground (arith, beq_ℤ_iff id (pos 0))))
  ]

  check_fields_iff :
      (spec : FunctionSpec) (t : Option TypeSpec) (fs : WireFields)
      → (check_fields thrift_name spec t fs ≡ done tt) ↔ AreResult t fs
  check_fields_iff spec none fs = check_void_iff spec fs
  check_fields_iff spec (some t) fs = check_return_iff spec t fs

module _ (decode read_reply : Text → Text ⊎ Wire) (thrift_name : TypeSpec → Text) where
  -- A response is successful exactly when its bytes are those of a struct which has no field, for a method
  -- that returns nothing, or which has field 0 and no other, for a method that returns a value.
  pub check_success_iff :
      (spec : FunctionSpec) (response_bytes : Text) (opts : Options)
      → (check_success decode read_reply thrift_name spec response_bytes opts ≡ done tt) ↔ (
          (fs : WireFields) × (response_bytes_to_wire decode read_reply response_bytes opts
            ≡ done fs)
          × AreResult (return_type_of spec) fs)
  unfolding check_success
  check_success_iff spec response_bytes opts =
      go (response_bytes_to_wire decode read_reply response_bytes opts)
    where
      go :
          (m : Outcome ResponseError WireFields)
          → ((map_fail wrap_serialize_exception m >>= λ fs.
                check_fields thrift_name spec (return_type_of spec) fs)
              ≡ done tt)
            ↔ ((fs : WireFields) × (m ≡ done fs) × AreResult (return_type_of spec) fs)
      go (done fs) =
          let at = check_fields_iff thrift_name spec (return_type_of spec) fs in
          (
            λ h. (fs, refl, at.0 h),
            λ (gs, e, r).
                let same : gs ≡ fs = ground arith in
                at.1 (subst (AreResult (return_type_of spec)) same r),
          )
      go (fail e) = (λ h. absurd (ground arith), λ (gs, e, r). absurd (ground arith))
      go crash = (λ h. absurd (ground arith), λ (gs, e, r). absurd (ground arith))
      go out_of_fuel = (λ h. absurd (ground arith), λ (gs, e, r). absurd (ground arith))

-- What a successful response is read as: an empty map for a method that returns nothing, and else the
-- value of field 0 under the name `result`.
module _ (read_value : Bool → TypeSpec → Wire → Outcome MismatchError Value) where
  abbrev pub result_map : Options → TypeSpec → Wire → Outcome ResponseError (Assoc Text Value)
  result_map opts t w = do
    v ← map_fail (result_field (pos 0)) (read_value opts.base64_response_envelope t w)
    done ((codes "result", v) ∷ [])

  -- What the fields of a successful response are, and what they are read as.
  abbrev pub IsResult :
      Options → Option TypeSpec → WireFields → Outcome ResponseError (Assoc Text Value) → Type 0
  IsResult opts none fs r = (fs ≡ no_wire_fields) × (r ≡ done [])
  IsResult opts (some t) fs r =
      (w : Wire) × (fs ≡ wire_field (pos 0) w no_wire_fields) × (r ≡ result_map opts t w)

abbrev named_result : Outcome MismatchError Value → Outcome ResponseError (Text × Value)
named_result m = do v ← map_fail (result_field (pos 0)) m; done (codes "result", v)

insert_result :
    (m : Outcome MismatchError Value)
    → (named_result m >>= λ p. done (insert p.0 p.1 []))
      ≡ (map_fail (result_field (pos 0)) m >>= λ v. done ((codes "result", v) ∷ []))
unfolding insert
insert_result (done v) = refl
insert_result (fail e) = refl
insert_result crash = refl
insert_result out_of_fuel = refl

module _ (decode read_reply : Text → Text ⊎ Wire) (thrift_name : TypeSpec → Text)
    (read_value : Bool → TypeSpec → Wire → Outcome MismatchError Value) where
  read_fields-AreResult :
      (spec : FunctionSpec) (opts : Options) (t : Option TypeSpec) (fs : WireFields)
      → return_type_of spec ≡ t
      → AreResult t fs
      → IsResult read_value opts t fs (read_fields decode read_reply read_value spec opts [] fs)
  unfolding read_fields read_field insert
  read_fields-AreResult spec opts none fs returns e =
      (e, ap (read_fields decode read_reply read_value spec opts []) e)
  read_fields-AreResult spec opts (some t) fs returns (w, e) = (
    w,
    e,
    ap (read_fields decode read_reply read_value spec opts []) e
        ∙ rw returns (insert_result (read_value opts.base64_response_envelope t w)),
  )

  -- If the check of a response succeeds, then its bytes are those of a struct that has no field, for a
  -- method that returns nothing, and the response is read as the empty map; and else those of a struct
  -- with field 0 alone, and the response is read as the value of that field under the name `result`,
  -- unless that value cannot be read, which is the error.
  pub response_bytes_to_map-check_success :
      (spec : FunctionSpec) (response_bytes : Text) (opts : Options)
      → check_success decode read_reply thrift_name spec response_bytes opts ≡ done tt
      → (fs : WireFields) × (response_bytes_to_wire decode read_reply response_bytes opts ≡ done fs)
        × IsResult read_value opts
            (return_type_of spec)
            fs
            (response_bytes_to_map decode read_reply read_value spec response_bytes opts)
  unfolding response_bytes_to_map
  response_bytes_to_map-check_success spec response_bytes opts h =
      let (fs, decoded, r) =
        (check_success_iff decode read_reply thrift_name spec response_bytes opts).0 h in
      (fs, decoded, rw decoded (read_fields-AreResult spec opts (return_type_of spec) fs refl r))
