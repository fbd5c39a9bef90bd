-- ===== src/Tchannel/Identity.antt =====
-- What a TChannel call says about who makes it.
use yab.Prelude.{
  false, not, ◌&&◌, Option, none, some, inl, inr, ◌≡◌, refl, sym, ap, subst, ◌∙◌, Text, codes, ◌==◌,
  text_comparable, if◌then◌else◌, is_nil, Bool-cases, Option-cases, text_beq,
}
use yab.Prelude.Assoc.{Assoc, lookup, insert, lookup-insert}
use yab.Resolve.{has_prefix}
use yab.Tchannel.{
  raw_headers_key, yab_client_header, yab_source_header, yab_dest_header, yab_env_header,
  json_format, raw_format, Tchan, stamped, add_yab_headers, Written, as_json, verbatim, as_thrift,
  write_headers, call_headers,
}

-- Who makes the call: the deployed service, or the caller of the options.
abbrev pub source_of : (Text → Text) → Tchan → Text
source_of getenv t =
    if is_nil (getenv (codes "UDEPLOY_SERVICE_NAME"))
    then t.caller_name
    else getenv (codes "UDEPLOY_SERVICE_NAME")

abbrev pub IsIdentified : (Text → Text) → Tchan → Assoc Text Text → Type 0
IsIdentified getenv t m =
    (lookup yab_client_header m ≡ some (codes "true"))
    × (lookup yab_dest_header m ≡ some t.target_service)
    × (lookup yab_source_header m ≡ some (source_of getenv t))

-- What a key is sent with: who makes the call stands in front of the headers of the call, and with a
-- deployed service its environment too.
abbrev pub value_of : (Text → Text) → Tchan → Assoc Text Text → Text → Option Text
value_of getenv t headers key =
    if yab_source_header == key
    then some (source_of getenv t)
    else if not (is_nil (getenv (codes "UDEPLOY_SERVICE_NAME"))) && yab_env_header == key
    then some (getenv (codes "UBER_RUNTIME_ENVIRONMENT"))
    else if yab_dest_header == key
    then some t.target_service
    else if yab_client_header == key
    then some (codes "true")
    else lookup key headers

lookup-stamped :
    (getenv : Text → Text) (t : Tchan) (headers : Assoc Text Text) (key : Text)
    → lookup key (stamped getenv t headers) ≡ value_of getenv t headers key
unfolding stamped
lookup-stamped getenv t headers key =
    elim (Bool-cases (is_nil (getenv (codes "UDEPLOY_SERVICE_NAME")))) [
      | inl e ↦ rw (stamped, e, lookup-insert, lookup-insert, lookup-insert) refl
      | inr e ↦ rw (stamped, e, lookup-insert, lookup-insert, lookup-insert, lookup-insert) refl
    ]

lookup_new : (m : Assoc Text Text) (k v : Text) → lookup k (insert k v m) ≡ some v
lookup_new m k v = lookup-insert m k v k ∙ rw ((text_comparable.equals_iff k k).1 refl) refl

lookup_old :
    (m : Assoc Text Text) (k v n : Text)
    → text_beq k n ≡ false
    → lookup n (insert k v m) ≡ lookup n m
lookup_old m k v n other = lookup-insert m k v n ∙ rw other refl

stamped-IsIdentified :
    (getenv : Text → Text) (t : Tchan) (headers : Assoc Text Text)
    → lookup raw_headers_key headers ≡ none
    → IsIdentified getenv t (stamped getenv t headers)
      × (lookup raw_headers_key (stamped getenv t headers) ≡ none)
unfolding stamped text_beq
stamped-IsIdentified getenv t headers plain =
    let first = insert yab_client_header (codes "true") headers in
    let base = insert yab_dest_header t.target_service first in
    let env = getenv (codes "UBER_RUNTIME_ENVIRONMENT") in
    let deployed = insert yab_env_header env base in
    let client : lookup yab_client_header base ≡ some (codes "true") =
      lookup_old first yab_dest_header t.target_service yab_client_header refl
      ∙ lookup_new headers yab_client_header (codes "true") in
    let dest : lookup yab_dest_header base ≡ some t.target_service =
      lookup_new first yab_dest_header t.target_service in
    let raw : lookup raw_headers_key base ≡ none =
      lookup_old first yab_dest_header t.target_service raw_headers_key refl
      ∙ lookup_old headers yab_client_header (codes "true") raw_headers_key refl
      ∙ plain in
    elim (Bool-cases (is_nil (getenv (codes "UDEPLOY_SERVICE_NAME")))) [
      | inl e ↦
          let old = lookup_old base yab_source_header t.caller_name in
          rw e (
            (
              old yab_client_header refl ∙ client,
              old yab_dest_header refl ∙ dest,
              lookup_new base yab_source_header t.caller_name,
            ),
            old raw_headers_key refl ∙ raw,
          )
      | inr e ↦
          let svc = getenv (codes "UDEPLOY_SERVICE_NAME") in
          let old = lookup_old deployed yab_source_header svc in
          let older = lookup_old base yab_env_header env in
          rw e (
            (
              old yab_client_header refl ∙ older yab_client_header refl ∙ client,
              old yab_dest_header refl ∙ older yab_dest_header refl ∙ dest,
              lookup_new deployed yab_source_header svc,
            ),
            old raw_headers_key refl ∙ older raw_headers_key refl ∙ raw,
          )
    ]

-- The headers as they are written in a format.
abbrev pub written : Text → Assoc Text Text → Text → Written
written format m raw =
    if format == json_format
    then as_json m
    else if format == raw_format
    then verbatim raw
    else as_thrift m

-- Headers without the raw key are sent as JSON in the JSON format, and else in TChannel's form, with
-- who makes the call; what is said of a key is said of `key`. Headers with the raw key are sent as they
-- are, the raw ones in the raw format only.
abbrev pub IsSent :
    (Text → Text)
    → (Assoc Text Text → Assoc Text Text)
    → Tchan
    → Assoc Text Text
    → Text
    → Option Text
    → Written
    → Type 0
IsSent getenv inject t headers key none w =
    (m : Assoc Text Text) × (w
      ≡ (if t.call_options.format == json_format then as_json m else as_thrift m))
    × IsIdentified getenv t m
    × (lookup key m ≡ value_of getenv t headers key)
IsSent getenv inject t headers key (some raw) w =
    w ≡ written t.call_options.format (inject headers) raw

write_headers-none :
    (format : Text) (m : Assoc Text Text)
    → lookup raw_headers_key m ≡ none
    → write_headers format m ≡ (if format == json_format then as_json m else as_thrift m)
unfolding write_headers
write_headers-none format m plain = elim (Bool-cases (format == json_format)) [
  | inl e ↦ rw e refl
  | inr e ↦ elim (Bool-cases (format == raw_format)) [
    | inl e' ↦ rw (e, e', plain) refl
    | inr e' ↦ rw (e, e') refl
  ]
]

write_headers-some :
    (format : Text) (m : Assoc Text Text) (raw : Text)
    → lookup raw_headers_key m ≡ some raw
    → write_headers format m ≡ written format m raw
unfolding write_headers
write_headers-some format m raw h = rw h refl

add_yab_headers-none :
    (getenv : Text → Text) (t : Tchan) (headers : Assoc Text Text)
    → lookup raw_headers_key headers ≡ none
    → add_yab_headers getenv t headers ≡ stamped getenv t headers
unfolding add_yab_headers
add_yab_headers-none getenv t headers plain = rw (add_yab_headers, plain) refl

add_yab_headers-some :
    (getenv : Text → Text) (t : Tchan) (headers : Assoc Text Text) (raw : Text)
    → lookup raw_headers_key headers ≡ some raw
    → add_yab_headers getenv t headers ≡ headers
unfolding add_yab_headers
add_yab_headers-some getenv t headers raw held = rw (add_yab_headers, held) refl

-- Where the trace only adds and overwrites headers of its own, whose names begin with `$`, a call whose
-- headers do not hold the raw key sends them, as JSON in the JSON format and else in TChannel's form, with
-- the mark of yab, the target, the source and, for a deployed service, its environment; every other key
-- that does not begin with `$` is sent as the call has it. If they hold the raw key, then, in every format,
-- none of these is added.
pub call_headers-IsSent :
    (getenv : Text → Text) (inject : Assoc Text Text → Assoc Text Text) (t : Tchan)
    (headers : Assoc Text Text) (key : Text)
    → ((m : Assoc Text Text) (k : Text)
        → has_prefix k (codes "$") ≡ false
        → lookup k (inject m) ≡ lookup k m)
    → has_prefix key (codes "$") ≡ false
    → IsSent getenv inject t headers key
        (lookup raw_headers_key headers)
        (call_headers getenv inject t headers)
unfolding call_headers has_prefix
call_headers-IsSent getenv inject t headers key keeps free =
    elim (Option-cases (lookup raw_headers_key headers)) [
      | inl plain ↦
          let ((client, dest, source), none_raw) = stamped-IsIdentified getenv t headers plain in
          let m : Assoc Text Text = stamped getenv t headers in
          let sent : Assoc Text Text → Written =
            λ h. write_headers t.call_options.format (inject h) in
          let form : Assoc Text Text → Written =
            λ h. if t.call_options.format == json_format then as_json h else as_thrift h in
          subst
            (λ o. IsSent getenv inject t headers key o (sent (add_yab_headers getenv t headers)))
            (sym plain)
            (
              inject m,
              subst (λ h. sent h ≡ form (inject m))
                  (sym (add_yab_headers-none getenv t headers plain))
                  (write_headers-none t.call_options.format (inject m)
                    (keeps m raw_headers_key refl ∙ none_raw)),
              (
                keeps m yab_client_header refl ∙ client,
                keeps m yab_dest_header refl ∙ dest,
                keeps m yab_source_header refl ∙ source,
              ),
              keeps m key free ∙ lookup-stamped getenv t headers key,
            )
      | inr (raw, held) ↦
          let sent : Assoc Text Text → Written =
            λ h. write_headers t.call_options.format (inject h) in
          subst
            (λ o. IsSent getenv inject t headers key o (sent (add_yab_headers getenv t headers)))
            (sym held)
            (ap sent (add_yab_headers-some getenv t headers raw held)
              ∙ write_headers-some t.call_options.format (inject headers) raw
                  (keeps headers raw_headers_key refl ∙ held))
    ]
