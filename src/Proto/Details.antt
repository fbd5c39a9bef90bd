-- ===== src/Proto/Details.antt =====
-- The details of an error of a Protobuf call.
--
-- A detail is a type URL with bytes. `unmarshal` reads the bytes as a message of the descriptor that was
-- found, or of the plain bytes where none is registered.
use yab.Prelude.{
  ℕ, List, [], ◌∷◌, Option, none, some, ◌⊎◌, inl, inr, ◌≡◌, refl, sym, ap, ap₂, ◌∙◌, subst, Text,
  arith, ◌↔◌,
}
use yab.Proto.{ProtoError, bad_details, bad_detail, Descriptors, message_name}

-- `anypb.Any`
pub record Detail : Type 0 where
  pub type_url : Text
  pub value : Text

-- What is printed for a detail: its bytes, or the message.
pub data Shown (M : Type 0) : Type 0 where
  bytes : Text → Shown M
  message_value : M → Shown M

module _ {D M : Type 0} (ds : Descriptors D) (unmarshal : Option D → Text → Text ⊎ M) where
  -- `anyResolver.Resolve`: a descriptor, or none for a message of plain bytes.
  unfoldable pub resolve : Text → Text ⊎ Option D
  unfolding message_name
  resolve type_url = ds.find_message (message_name type_url)

  abbrev pub read_value : Text ⊎ M → Text ⊎ Shown M
  read_value (inl e) = inl e
  read_value (inr m) = inr (message_value m)

  -- One turn of the loop of `ErrorDetails`: the value, or the error that ends it.
  abbrev pub shown : Detail → Text ⊎ Option D → Text ⊎ Shown M
  shown d (inl e) = inr (bytes d.value)
  shown d (inr r) = read_value (unmarshal r d.value)

  abbrev pub put :
      Text
      → Text ⊎ Shown M
      → ProtoError ⊎ List (Text × Shown M)
      → ProtoError ⊎ List (Text × Shown M)
  put url (inl e) rest = inl (bad_detail e)
  put url (inr v) (inl e) = inl e
  put url (inr v) (inr vs) = inr ((url, v) ∷ vs)

  unfoldable pub show_details : List Detail → ProtoError ⊎ List (Text × Shown M)
  unfolding resolve
  show_details [] = inr []
  show_details (d ∷ details) = put d.type_url (shown d (resolve d.type_url)) (show_details details)

  abbrev pub of_status : Text ⊎ List Detail → ProtoError ⊎ List (Text × Shown M)
  of_status (inl e) = inl (bad_details e)
  of_status (inr details) = show_details details

  -- `ErrorDetails`; `none` for an error that is no status, else the bytes of its details, which
  -- `unmarshal_status` reads.
  unfoldable pub error_details :
      (Text → Text ⊎ List Detail) → Option Text → ProtoError ⊎ List (Text × Shown M)
  unfolding show_details
  error_details unmarshal_status none = inr []
  error_details unmarshal_status (some []) = inr []
  error_details unmarshal_status (some (b ∷ bs)) = of_status (unmarshal_status (b ∷ bs))

  -- A detail of a type that is not resolved is shown as its bytes, any other as its message.
  unfoldable pub IsShown : Detail → Text × Shown M → Type 0
  IsShown d (url, bytes b) =
      (url ≡ d.type_url) × (b ≡ d.value) × ((e : Text) × (resolve d.type_url ≡ inl e))
  IsShown d (url, message_value m) =
      (url ≡ d.type_url)
      × ((r : Option D) × (resolve d.type_url ≡ inr r) × (unmarshal r d.value ≡ inr m))

  unfoldable pub AreShown : List Detail → List (Text × Shown M) → Type 0
  AreShown [] [] = Unit
  AreShown (d ∷ ds) (v ∷ vs) = IsShown d v × AreShown ds vs
  AreShown _ _ = ⊥

  abbrev value_of : Shown M → Text ⊎ Shown M
  value_of v = inr v

  bytes-IsShown :
      (d : Detail) (e : Text) (v : Shown M)
      → resolve d.type_url ≡ inl e
      → value_of (bytes d.value) ≡ inr v
      → IsShown d (d.type_url, v)
  unfolding IsShown
  bytes-IsShown d e (bytes b) h k = (refl, ground (arith, k), (e, h))
  bytes-IsShown d e (message_value m) h k = absurd (ground (arith, k))

  message_inj : {m n : M} → value_of (message_value m) ≡ inr (message_value n) → m ≡ n
  message_inj e = ground (arith, e)

  message-IsShown :
      (d : Detail) (r : Option D) (u : Text ⊎ M) (v : Shown M)
      → resolve d.type_url ≡ inr r
      → unmarshal r d.value ≡ u
      → read_value u ≡ inr v
      → IsShown d (d.type_url, v)
  unfolding IsShown
  message-IsShown d r (inl e) v h k l = absurd (ground (arith, l))
  message-IsShown d r (inr m) (bytes b) h k l = absurd (ground (arith, l))
  message-IsShown d r (inr m) (message_value n) h k l = (refl, (r, h, k ∙ ap inr (message_inj l)))

  shown-IsShown :
      (d : Detail) (r : Text ⊎ Option D) (v : Shown M)
      → resolve d.type_url ≡ r
      → shown d r ≡ inr v
      → IsShown d (d.type_url, v)
  shown-IsShown d (inl e) v h k = bytes-IsShown d e v h k
  shown-IsShown d (inr r) v h k = message-IsShown d r (unmarshal r d.value) v h refl k

  IsShown-shown :
      (d : Detail) (url : Text) (v : Shown M)
      → IsShown d (url, v)
      → (url ≡ d.type_url) × (shown d (resolve d.type_url) ≡ inr v)
  unfolding IsShown
  IsShown-shown d url (bytes b) (same, k, (e, h)) =
      (same, ap (shown d) h ∙ ap (λ x. inr (bytes x)) (sym k))
  IsShown-shown d url (message_value m) (same, (r, h, k)) = (same, ap (shown d) h ∙ ap read_value k)

  put-inr :
      (url : Text) (v : Text ⊎ Shown M) (rest : ProtoError ⊎ List (Text × Shown M)) (url' : Text)
      (w : Shown M) (ws : List (Text × Shown M))
      → put url v rest ≡ inr ((url', w) ∷ ws)
      → (url ≡ url') × (v ≡ inr w) × (rest ≡ inr ws)
  put-inr url (inl e) rest url' w ws h = absurd (ground (arith, h))
  put-inr url (inr v) (inl e) url' w ws h = absurd (ground (arith, h))
  put-inr url (inr v) (inr vs) url' w ws h =
      (ground (arith, h), ground (arith, h), ground (arith, h))

  put-not_empty :
      (url : Text) (v : Text ⊎ Shown M) (rest : ProtoError ⊎ List (Text × Shown M))
      → put url v rest ≡ inr []
      → ⊥
  put-not_empty url (inl e) rest h = ground (arith, h)
  put-not_empty url (inr v) (inl e) h = ground (arith, h)
  put-not_empty url (inr v) (inr vs) h = ground (arith, h)

  show_details-AreShown :
      (details : List Detail) (vs : List (Text × Shown M))
      → show_details details ≡ inr vs
      → AreShown details vs
  unfolding AreShown show_details
  show_details-AreShown [] [] h = tt
  show_details-AreShown [] (v ∷ vs) h = ground (arith, h)
  show_details-AreShown (d ∷ details) [] h =
      put-not_empty d.type_url (shown d (resolve d.type_url)) (show_details details) h
  show_details-AreShown (d ∷ details) ((url, v) ∷ vs) h =
      let parts =
        put-inr d.type_url (shown d (resolve d.type_url)) (show_details details) url v vs h in
      (
        subst (λ u. IsShown d (u, v)) parts.0 (shown-IsShown d (resolve d.type_url) v refl parts.1),
        show_details-AreShown details vs parts.2,
      )

  AreShown-show_details :
      (details : List Detail) (vs : List (Text × Shown M))
      → AreShown details vs
      → show_details details ≡ inr vs
  unfolding AreShown show_details
  AreShown-show_details [] [] h = refl
  AreShown-show_details [] (v ∷ vs) h = absurd h
  AreShown-show_details (d ∷ details) [] h = absurd h
  AreShown-show_details (d ∷ details) ((url, v) ∷ vs) (one, more) =
      let parts = IsShown-shown d url v one in
      ap₂ (put d.type_url) parts.1 (AreShown-show_details details vs more)
      ∙ ap (λ u. inr ((u, v) ∷ vs)) (sym parts.0)

  -- Where the bytes of a status are read as details, the details of an error are given exactly as
  -- these: one for each, in their order, a message where its type is resolved and its bytes are
  -- read, and the plain bytes where its type is not resolved.
  pub error_details_iff :
      (unmarshal_status : Text → Text ⊎ List Detail) (b : ℕ) (bs : Text) (details : List Detail)
      (vs : List (Text × Shown M))
      → unmarshal_status (b ∷ bs) ≡ inr details
      → (error_details unmarshal_status (some (b ∷ bs)) ≡ inr vs) ↔ AreShown details vs
  unfolding error_details
  error_details_iff unmarshal_status b bs details vs e = (
    λ h. show_details-AreShown details vs (sym (ap of_status e) ∙ h),
    λ h. ap of_status e ∙ AreShown-show_details details vs h,
  )
