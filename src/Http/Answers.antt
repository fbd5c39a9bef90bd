-- ===== src/Http/Answers.antt =====
-- Requests that are sent, and responses that are taken.
use yab.Prelude.{
  ◌≤◌, ◌<◌, ◌||◌, Option, none, some, ◌⊎◌, inl, inr, ◌≡◌, ◌↔◌, refl, sym, ap, subst, Text, ltb, leb,
  Bool-cases, arith,
}
use yab.Http.{HttpReply, HttpResponse, or_unreadable, take_reply}

abbrev pub response_of : HttpReply → HttpResponse
response_of resp = record {
  headers = resp.header;
  body = resp.body;
  status_code = resp.status_code;
}

or_unreadable_iff :
    (resp : HttpReply) (e : Option Text) (res : HttpResponse)
    → (or_unreadable resp e ≡ inr res) ↔ (e ≡ none) × (res ≡ response_of resp)
or_unreadable_iff resp none res = (λ h. (refl, ground arith), λ (h, k). ap inr (sym k))
or_unreadable_iff resp (some e) res = (λ h. absurd (ground arith), λ (h, k). absurd (ground arith))

-- A call gives a response exactly when the client got a reply whose status lies from 200 to 299 and whose
-- body was read, and the response is then that reply's.
pub take_reply_iff :
    (reply : Text ⊎ HttpReply) (res : HttpResponse)
    → (take_reply reply ≡ inr res) ↔ (
        (resp : HttpReply) × (reply ≡ inr resp)
        × (200 ≤ resp.status_code)
        × (resp.status_code < 300)
        × (resp.read_error ≡ none)
        × (res ≡ response_of resp))
unfolding take_reply
take_reply_iff (inl e) res =
    (λ h. absurd (ground arith), λ (resp, h, a, b, c, d). absurd (ground arith))
take_reply_iff (inr resp) res =
    let taken = or_unreadable_iff resp resp.read_error res in
    elim (Bool-cases (ltb resp.status_code 200 || leb 300 resp.status_code)) [
      | inl outside ↦ rw outside (
        λ h. absurd (ground arith),
        λ (other, same, low, high, _, _).
            let at : other ≡ resp = ground arith in
            absurd (
              ground (
                arith,
                outside,
                subst (λ r. 200 ≤ r.status_code) at low,
                subst (λ r. r.status_code < 300) at high,
              )),
      )
      | inr inside ↦
          let low : 200 ≤ resp.status_code = ground (arith, inside) in
          let high : resp.status_code < 300 = ground (arith, inside) in
          rw inside (
            λ h. let (read, same) = taken.0 h in (resp, refl, low, high, read, same),
            λ (other, same, _, _, read, e).
                let at : other ≡ resp = ground arith in
                taken.1
                  (subst (λ r. r.read_error ≡ none) at read, subst (λ r. res ≡ response_of r) at e),
          )
    ]
