-- ===== src/Stream/Initializer.antt =====
-- `streamIOInitializer` of handler.go: the requests are read from the input once, recorded, and handed
-- to the benchmark.
--
-- The reader of the input is a parameter, a state `R` with its `NextBody`. So are the deserializer of
-- a response and the printing of its value as JSON.
use yab.Prelude.{
  ℕ, zero, suc, ◌+◌, Bool, true, false, ◌⊎◌, inl, inr, List, [], ◌∷◌, ◌++◌, Option, none, some, ◌≡◌,
  refl, sym, ap, arith, length-append, subst, ◌∙◌, Text, length, append-nil, append_assoc,
  if◌then◌else◌,
}
use yab.Stream.{Fault, at_end, fault, Error, eof, reading_input, serializing, to_json}

pub record StreamIoInitializer (R : Type 0) : Type 0 where
  pub eof_reached : Bool
  pub stream_requests : List Text
  pub reader : R
  pub printed : List Text

abbrev pub new_stream_io_initializer : {R : Type 0} → R → StreamIoInitializer R
new_stream_io_initializer r = record {
  eof_reached = false;
  stream_requests = [];
  reader = r;
  printed = [];
}

module _ {R : Type 0} (next_body : R → R × (Fault ⊎ Text)) where
  -- `NextRequest`
  unfoldable pub initializer_next_request :
      StreamIoInitializer R → StreamIoInitializer R × (Error ⊎ Text)
  initializer_next_request s = if s.eof_reached then (s, inl eof) else elim (next_body s.reader).1 [
    | inl at_end ↦ (record s { reader = (next_body s.reader).0; eof_reached = true }, inl eof)
    | inl (fault t) ↦ (record s { reader = (next_body s.reader).0 }, inl (reading_input t))
    | inr msg ↦ (
      record s { reader = (next_body s.reader).0; stream_requests = s.stream_requests ++ msg ∷ [] },
      inr msg,
    )
  ]

  -- `HandleResponse`
  unfoldable pub initializer_handle_response :
      {V : Type 0}
      → (Text → Text ⊎ V)
      → (V → Text ⊎ Text)
      → Text
      → StreamIoInitializer R
      → StreamIoInitializer R × Option Error
  initializer_handle_response response marshal body s = elim (response body) [
    | inl e ↦ (s, some (serializing e))
    | inr res ↦ elim (marshal res) [
      | inl e ↦ (s, some (to_json e))
      | inr bs ↦ (record s { printed = s.printed ++ bs ∷ [] }, none)
    ]
  ]

  -- `allRequests`, with fuel for its loop: a turn for each message that is left, one that meets the
  -- end, and the last test of the flag.
  unfoldable pub all_requests :
      ℕ → StreamIoInitializer R → Option (StreamIoInitializer R × (Error ⊎ List Text))
  unfolding initializer_next_request
  all_requests zero s = none
  all_requests (suc fuel) s =
      let a = initializer_next_request s in
      if s.eof_reached then some (s, inr s.stream_requests) else elim a.1 [
        | inl eof ↦ all_requests fuel a.0
        | inl e ↦ some (a.0, inl e)
        | inr msg ↦ all_requests fuel a.0
      ]

  -- The reader gives these messages and then the end.
  pub data Reads : R → List Text → Type 0 where
    no_more : {r r' : R} → next_body r ≡ (r', inl at_end) → Reads r []
    one_more :
        {r r' : R} {m : Text} {ms : List Text}
        → next_body r ≡ (r', inr m)
        → Reads r' ms
        → Reads r (m ∷ ms)

  -- `NextRequest` was called `n` times.
  unfoldable pub after_requests : ℕ → StreamIoInitializer R → StreamIoInitializer R
  after_requests zero s = s
  after_requests (suc n) s = after_requests n (initializer_next_request s).0

  -- What is recorded and what is left to read are the messages `all`.
  data Covers (all : List Text) (s : StreamIoInitializer R) : Type 0 where
    read_all : s.eof_reached ≡ true → s.stream_requests ≡ all → Covers all s
    reading :
        {ms : List Text}
        → s.eof_reached ≡ false
        → Reads s.reader ms
        → s.stream_requests ++ ms ≡ all
        → Covers all s

  next_request-eof_reached :
      (s : StreamIoInitializer R) → s.eof_reached ≡ true → initializer_next_request s ≡ (s, inl eof)
  unfolding initializer_next_request
  next_request-eof_reached s flag = cc flag

  next_request-at_end :
      (s : StreamIoInitializer R) {r' : R}
      → s.eof_reached ≡ false
      → next_body s.reader ≡ (r', inl at_end)
      → initializer_next_request s ≡ (record s { reader = r'; eof_reached = true }, inl eof)
  unfolding initializer_next_request
  next_request-at_end s flag e = cc (flag, e)

  next_request-message :
      (s : StreamIoInitializer R) {r' : R} {m : Text}
      → s.eof_reached ≡ false
      → next_body s.reader ≡ (r', inr m)
      → initializer_next_request s
        ≡ (record s { reader = r'; stream_requests = s.stream_requests ++ m ∷ [] }, inr m)
  unfolding initializer_next_request
  next_request-message s flag e = cc (flag, e)

  next_request-Covers :
      {all : List Text} {s : StreamIoInitializer R}
      → Covers all s
      → Covers all (initializer_next_request s).0
  next_request-Covers {all} {s} (read_all flag same) =
      subst (λ a. Covers all a.0) (sym (next_request-eof_reached s flag)) (read_all flag same)
  next_request-Covers {all} {s} (reading flag (no_more e) same) =
      subst (λ a. Covers all a.0) (sym (next_request-at_end s flag e))
        (read_all refl (sym (append-nil s.stream_requests) ∙ same))
  next_request-Covers {all} {s} (reading flag (one_more {m} {ms} e r) same) =
      subst (λ a. Covers all a.0) (sym (next_request-message s flag e))
        (reading flag r (append_assoc s.stream_requests (m ∷ []) ms ∙ same))

  after_requests-Covers :
      (n : ℕ) {all : List Text} {s : StreamIoInitializer R}
      → Covers all s
      → Covers all (after_requests n s)
  unfolding after_requests
  after_requests-Covers zero c = c
  after_requests-Covers (suc n) c = after_requests-Covers n (next_request-Covers c)

  abbrev Collects : ℕ → List Text → StreamIoInitializer R → Type 0
  Collects fuel all s = (t : StreamIoInitializer R) × (all_requests fuel s ≡ some (t, inr all))

  read_all-Collects :
      (fuel : ℕ) {all : List Text} (s : StreamIoInitializer R)
      → s.eof_reached ≡ true
      → s.stream_requests ≡ all
      → Collects (suc fuel) all s
  unfolding all_requests
  read_all-Collects fuel s flag same = (s, cc (flag, same))

  all_requests-at_end :
      (fuel : ℕ) (s : StreamIoInitializer R) {r' : R}
      → s.eof_reached ≡ false
      → next_body s.reader ≡ (r', inl at_end)
      → all_requests (suc fuel) s ≡ all_requests fuel (record s { reader = r'; eof_reached = true })
  unfolding all_requests
  all_requests-at_end fuel s flag e = cc (next_request-at_end s flag e, flag)

  all_requests-message :
      (fuel : ℕ) (s : StreamIoInitializer R) {r' : R} {m : Text}
      → s.eof_reached ≡ false
      → next_body s.reader ≡ (r', inr m)
      → all_requests (suc fuel) s
        ≡ all_requests fuel
            (record s { reader = r'; stream_requests = s.stream_requests ++ m ∷ [] })
  unfolding all_requests
  all_requests-message fuel s flag e = cc (next_request-message s flag e, flag)

  reading-Collects :
      (ms : List Text) (extra : ℕ) {all : List Text} (s : StreamIoInitializer R)
      → s.eof_reached ≡ false
      → Reads s.reader ms
      → s.stream_requests ++ ms ≡ all
      → Collects (suc (suc (length ms + extra))) all s
  reading-Collects [] extra s flag (no_more {r'} e) same =
      let rest =
        read_all-Collects (zero + extra) (record s { reader = r'; eof_reached = true }) refl
          (sym (append-nil s.stream_requests) ∙ same) in
      (rest.0, all_requests-at_end (suc (zero + extra)) s flag e ∙ rest.1)
  reading-Collects (m ∷ ms) extra {all} s flag (one_more {r'} e r) same =
      let rest =
        reading-Collects ms extra
          (record s { reader = r'; stream_requests = s.stream_requests ++ m ∷ [] }) flag r
          (append_assoc s.stream_requests (m ∷ []) ms ∙ same) in
      subst (λ n. Collects n all s) (omega arith)
        (rest.0, all_requests-message (suc (suc (length ms + extra))) s flag e ∙ rest.1)

  Covers-Collects :
      {all : List Text} {s : StreamIoInitializer R} (extra : ℕ)
      → Covers all s
      → Collects (suc (suc (length all + extra))) all s
  Covers-Collects {all} {s} extra (read_all flag same) =
      read_all-Collects (suc (length all + extra)) s flag same
  Covers-Collects {all} {s} extra (reading {ms} flag r same) =
      subst (λ n. Collects n all s)
        (omega (arith, ap length same, length-append s.stream_requests ms))
        (reading-Collects ms (length s.stream_requests + extra) s flag r same)

  -- However many requests the call that warms up has read from the input before, the benchmark gets
  -- all the messages of the input, in their order. Fuel of two more than their number is enough.
  pub all_requests-Reads :
      (r : R) (ms : List Text) (n extra : ℕ)
      → Reads r ms
      → (t : StreamIoInitializer R) × (all_requests
            (suc (suc (length ms + extra)))
            (after_requests n (new_stream_io_initializer r))
          ≡ some (t, inr ms))
  all_requests-Reads r ms n extra reads =
      Covers-Collects extra (after_requests-Covers n (reading refl reads refl))
