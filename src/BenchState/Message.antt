-- ===== src/BenchState/Message.antt =====
-- What `errorToMessage` forgets: the digits of a message, and how many stand in a row.
use yab.Prelude.{
  ℕ, suc, ◌+◌, ◌≤◌, ◌||◌, [], ◌∷◌, ◌++◌, ◌≡◌, refl, sym, ap, ◌∙◌, Text, All, Bool-cases, ltb, arith,
  if◌then◌else◌, inl, inr,
}
use yab.BenchState.{message_from, error_to_message}

abbrev pub IsDigit : ℕ → Type 0
IsDigit c = (b'0' ≤ c) × (c ≤ b'9')

-- Behind a digit it does not matter how many there were.
message_from-suc : (k : ℕ) (cs : Text) → message_from (suc k) cs ≡ message_from 1 cs
unfolding message_from
message_from-suc k [] = refl
message_from-suc k (c ∷ cs) =
    ground (arith, message_from-suc (k + 1) cs, message_from-suc (suc k) cs, message_from-suc 1 cs)

message_from-digits :
    (ds : Text) (k : ℕ) (rest : Text)
    → All IsDigit ds
    → message_from (suc k) (ds ++ rest) ≡ message_from 1 rest
unfolding message_from
message_from-digits [] k rest h = message_from-suc k rest
message_from-digits (d ∷ ds) k rest (h, hs) =
    ground (arith, message_from-digits ds (k + 1) rest, message_from-digits ds (suc k) rest hs)

message_from_run :
    (k d : ℕ) (ds rest : Text)
    → All IsDigit (d ∷ ds)
    → message_from k (d ∷ (ds ++ rest)) ≡ (if ltb 0 k then [] else b'X' ∷ []) ++ message_from 1 rest
unfolding message_from
message_from_run k d ds rest (h, hs) = ground (arith, message_from-digits ds k rest hs)

-- Messages that differ only in one run of digits, in which ones and in how many, are counted under
-- the same text.
pub error_to_message_digits :
    (before : Text) (d : ℕ) (ds : Text) (e : ℕ) (es after : Text)
    → All IsDigit (d ∷ ds)
    → All IsDigit (e ∷ es)
    → error_to_message (before ++ (d ∷ (ds ++ after)))
      ≡ error_to_message (before ++ (e ∷ (es ++ after)))
unfolding error_to_message
error_to_message_digits before d ds e es after hd he = go before 0
  where
    go :
        (b : Text) (k : ℕ)
        → message_from k (b ++ (d ∷ (ds ++ after))) ≡ message_from k (b ++ (e ∷ (es ++ after)))
    go [] k = message_from_run k d ds after hd ∙ sym (message_from_run k e es after he)
    go (c ∷ b) k = ground (arith, go b 0, go b (k + 1))

message_from-IsDigit : (k : ℕ) (cs : Text) → All (λ c. ¬ IsDigit c) (message_from k cs)
unfolding message_from
message_from-IsDigit k [] = tt
message_from-IsDigit k (c ∷ cs) = elim (Bool-cases (ltb c b'0' || ltb b'9' c)) [
  | inl e ↦ rw e (λ h. ground arith, message_from-IsDigit 0 cs)
  | inr e ↦ elim (Bool-cases (ltb 1 (k + 1))) [
    | inl f ↦ rw (e, f) (message_from-IsDigit (k + 1) cs)
    | inr f ↦ rw (e, f) (λ h. omega arith, message_from-IsDigit (k + 1) cs)
  ]
]

message_from-same : (k : ℕ) (cs : Text) → All (λ c. ¬ IsDigit c) cs → message_from k cs ≡ cs
unfolding message_from
message_from-same k [] h = refl
message_from-same k (c ∷ cs) (h, hs) = elim (Bool-cases (ltb c b'0' || ltb b'9' c)) [
  | inl e ↦ rw e (ap (◌∷◌ c) (message_from-same 0 cs hs))
  | inr e ↦ absurd (h (ground arith, ground arith))
]

-- No digit is left in the text under which an error is counted, and that text stands for itself.
pub error_to_message-IsDigit :
    (msg : Text)
    → All (λ c. ¬ IsDigit c) (error_to_message msg)
      × (error_to_message (error_to_message msg) ≡ error_to_message msg)
unfolding error_to_message
error_to_message-IsDigit msg =
    (message_from-IsDigit 0 msg, message_from-same 0 _ (message_from-IsDigit 0 msg))
