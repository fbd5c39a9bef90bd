-- ===== src/Stream/Bidi/Errors.antt =====
-- The two errors of a bidirectional call, told from what the stream answered, and its result.
use yab.Prelude.{Bool, true, false, Option, none, some, ◌⊎◌, inl, inr, ◌≡◌, ◌≢◌, refl, arith}
use yab.Stream.{
  Error, eof, more_than_one_message, index_out_of_range, reading_input, sending, receiving,
  reading_response, closing, serializing, to_json, Fault, at_end, fault, Received, send_error,
  close_error, fault_text,
}
use yab.Stream.Client.Ended.{IsFault, said}
use yab.Stream.Bidi.{Sender, sender_ended, sent, unless_eof, bidi_result}

-- The last receive failed, with the error `e`.
abbrev pub HasFailed : Option Received → Error → Type 0
HasFailed none e = ⊥
HasFailed (some m) e = IsFault m e

-- What sending ends with, if the last call of it answered `told`, which closed the sending side or not.
abbrev pub IsSendError : Bool → Option Fault → Option Error → Type 0
IsSendError true none e = e ≡ none
IsSendError true (some f) e = e ≡ some (closing (said f))
IsSendError false none e = ⊥
IsSendError false (some at_end) e = e ≡ some eof
IsSendError false (some (fault t)) e = e ≡ some (sending t)

-- The sending side is closed by the end only, and the error left is that of the last call.
abbrev pub Told : Sender → Bool → Option Fault → Type 0
Told (sender_ended e) closed told = IsSendError closed told e
Told _ closed told = closed ≡ false

-- The result is the error of sending if there is one other than io.EOF, else that of receiving if it is
-- another than io.EOF, else none.
abbrev pub IsResult : Option Error → Error → Option Error → Type 0
IsResult send_err receive_err r =
    ((e : Error) × (send_err ≡ some e) × (e ≢ eof) × (r ≡ some e))
    ⊎ (((send_err ≡ none) ⊎ (send_err ≡ some eof))
        × (((receive_err ≢ eof) × (r ≡ some receive_err)) ⊎ ((receive_err ≡ eof) × (r ≡ none))))

pub sent-Told :
    (f : Option Fault) (closed : Bool) → closed ≡ false → Told (sent (send_error f)) closed f
sent-Told none closed open_side = open_side
sent-Told (some at_end) true open_side = absurd (ground (arith, open_side))
sent-Told (some at_end) false open_side = refl
sent-Told (some (fault t)) true open_side = absurd (ground (arith, open_side))
sent-Told (some (fault t)) false open_side = refl

pub closed-Told : (f : Option Fault) → Told (sender_ended (close_error fault_text f)) true f
closed-Told none = refl
closed-Told (some at_end) = refl
closed-Told (some (fault t)) = refl

unless_eof-eof :
    (e : Error)
    → (e ≡ eof) ⊎ ((e ≢ eof) × ((rest : Option Error) → unless_eof (some e) rest ≡ some e))
unless_eof-eof eof = inl refl
unless_eof-eof more_than_one_message = inr (λ h. ground (arith, h), λ rest. refl)
unless_eof-eof index_out_of_range = inr (λ h. ground (arith, h), λ rest. refl)
unless_eof-eof (reading_input t) = inr (λ h. ground (arith, h), λ rest. refl)
unless_eof-eof (sending t) = inr (λ h. ground (arith, h), λ rest. refl)
unless_eof-eof (receiving t) = inr (λ h. ground (arith, h), λ rest. refl)
unless_eof-eof (reading_response t) = inr (λ h. ground (arith, h), λ rest. refl)
unless_eof-eof (closing t) = inr (λ h. ground (arith, h), λ rest. refl)
unless_eof-eof (serializing t) = inr (λ h. ground (arith, h), λ rest. refl)
unless_eof-eof (to_json t) = inr (λ h. ground (arith, h), λ rest. refl)

receive_result :
    (e : Error)
    → ((e ≢ eof) × (unless_eof (some e) none ≡ some e))
      ⊎ ((e ≡ eof) × (unless_eof (some e) none ≡ none))
receive_result e = elim (unless_eof-eof e) [
  | inl h ↦ inr (h, rw h refl)
  | inr (h, same) ↦ inl (h, same none)
]

pub bidi_result-IsResult :
    (send_err : Option Error) (receive_err : Error)
    → IsResult send_err receive_err (bidi_result send_err (some receive_err))
bidi_result-IsResult none e = inr (inl refl, receive_result e)
bidi_result-IsResult (some f) e = elim (unless_eof-eof f) [
  | inl h ↦ rw h (inr (inr refl, receive_result e))
  | inr (h, same) ↦ inl (f, refl, h, same (unless_eof (some e) none))
]
