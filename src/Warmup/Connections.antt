-- ===== src/Warmup/Connections.antt =====
-- When connections are warmed up, and what they are.
use yab.Prelude.{
  ℕ, zero, suc, List, [], ◌∷◌, Option, none, some, ◌⊎◌, inl, inr, ◌≡◌, ◌≢◌, ◌↔◌, refl, sym, ap, ap₂,
  subst, ◌∙◌, Text, arith,
}
use yab.Options.{TransportOptions}
use yab.Warmup.{
  peer_balancer, PeerTransport, Warmed, panicked, not_warmed, warmed, first_error, warm_made,
  warm_transport, or_rest, unless_failed, unless_no_peers, at_peer, of_peer, connection, add,
  connections, warm_transports,
}

-- No call of a number of them fails, from call `j` on.
abbrev pub Pass : (ℕ → Option Text) → ℕ → ℕ → Type 0
Pass call j zero = Unit
Pass call j (suc n) = (call j ≡ none) × Pass call (suc j) n

or_rest_iff : (o rest : Option Text) → (or_rest o rest ≡ none) ↔ (o ≡ none) × (rest ≡ none)
or_rest_iff none rest = (λ h. (refl, h), λ (e, h). h)
or_rest_iff (some e) rest = (λ h. absurd (ground arith), λ (h, hs). absurd (ground arith))

first_error_iff : (call : ℕ → Option Text) (j n : ℕ) → (first_error call j n ≡ none) ↔ Pass call j n
unfolding first_error
first_error_iff call j zero = (λ h. tt, λ h. refl)
first_error_iff call j (suc n) =
    let ih = first_error_iff call (suc j) n in
    let both = or_rest_iff (call j) (first_error call (suc j) n) in
    (λ h. let (a, b) = both.0 h in (a, ih.0 b), λ (a, hs). both.1 (a, ih.1 hs))

unless_failed_iff :
    {T : Type 0} (s t : T) (o : Option Text) → (unless_failed s o ≡ inr t) ↔ (s ≡ t) × (o ≡ none)
unless_failed_iff s t none = (λ h. (ground arith, refl), λ (e, h). ap inr e)
unless_failed_iff s t (some e) = (λ h. absurd (ground arith), λ (h, hs). absurd (ground arith))

some_inj : {A : Type 0} (a b : A) → some a ≡ some b → a ≡ b
some_inj a b e = ground arith

inr_inj : {A B : Type 0} (a b : B) → ◌≡◌ {A = A ⊎ B} (inr a) (inr b) → a ≡ b
inr_inj a b e = ground arith

unless_no_peers_iff :
    {T : Type 0} (peers : List Text) (w : Warmed T) (ts : List (PeerTransport T))
    → (unless_no_peers peers w ≡ warmed ts) ↔ (peers ≢ []) × (w ≡ warmed ts)
unless_no_peers_iff [] w ts = (λ h. absurd (ground arith), λ (h, hs). absurd (h refl))
unless_no_peers_iff (p ∷ ps) w ts = (λ h. (λ e. absurd (ground arith), h), λ (h, hs). hs)

module _ {T : Type 0} (make : TransportOptions → Text ⊎ T) (call : ℕ → T → ℕ → Option Text)
    (t_opts : TransportOptions) (start_offset warmup_requests : ℕ) where
  -- The transport of connection `i` is made for its peer alone, and its warm-up requests succeed.
  abbrev pub IsWarm : ℕ → PeerTransport T → Type 0
  IsWarm i t =
      (p : Text) × (peer_balancer t_opts.peers start_offset i ≡ some (p, t.peer_id))
      × (make (record t_opts { peers = p ∷ [] }) ≡ inr t.transport)
      × Pass (call i t.transport) 0 warmup_requests

  abbrev pub AreWarm : ℕ → ℕ → List (PeerTransport T) → Type 0
  AreWarm i zero [] = Unit
  AreWarm i zero (t ∷ ts) = ⊥
  AreWarm i (suc n) [] = ⊥
  AreWarm i (suc n) (t ∷ ts) = IsWarm i t × AreWarm (suc i) n ts

  warm_transport_iff :
      (i : ℕ) (opts : TransportOptions) (t : T)
      → (warm_transport make call t_opts start_offset warmup_requests i opts ≡ inr t)
        ↔ (make opts ≡ inr t) × Pass (call i t) 0 warmup_requests
  unfolding warm_transport
  warm_transport_iff i opts t = go (make opts)
    where
      go :
          (m : Text ⊎ T)
          → (warm_made make call t_opts start_offset warmup_requests i m ≡ inr t)
            ↔ (m ≡ inr t) × Pass (call i t) 0 warmup_requests
      go (inl e) = (λ h. absurd (ground arith), λ (h, hs). absurd (ground arith))
      go (inr s) =
          let fine = unless_failed_iff s t (first_error (call i s) 0 warmup_requests) in
          let pass = first_error_iff (call i s) 0 warmup_requests in
          (
            λ h.
                let (same, none_failed) = fine.0 h in
                (
                  ap inr same,
                  subst (λ x. Pass (call i x) 0 warmup_requests) same (pass.0 none_failed),
                ),
            λ (e, hs).
                let same : s ≡ t = ground arith in
                fine.1
                  (same, pass.1 (subst (λ x. Pass (call i x) 0 warmup_requests) (sym same) hs)),
          )

  connection-IsWarm :
      (i : ℕ) (t : PeerTransport T)
      → (connection make call t_opts start_offset warmup_requests i ≡ some (inr t)) ↔ IsWarm i t
  unfolding connection
  connection-IsWarm i t = go (peer_balancer t_opts.peers start_offset i)
    where
      at :
          (index : ℕ) (r : Text ⊎ T)
          → (at_peer make call t_opts start_offset warmup_requests index r ≡ some (inr t))
            ↔ (index ≡ t.peer_id) × (r ≡ inr t.transport)
      at index (inl e) = (λ h. absurd (ground arith), λ (h, hs). absurd (ground arith))
      at index (inr s) = (
        λ h.
            let same : record { transport = s; peer_id = index } ≡ t =
              inr_inj _ _ (some_inj _ _ h) in
            (ap (λ x. x.peer_id) same, ap (λ x. inr x.transport) same),
        λ (e, h).
            ap₂ (λ x y. some (inr (record { transport = x; peer_id = y })))
              (inr_inj s t.transport h) e,
      )

      go :
          (o : Option (Text × ℕ))
          → (of_peer make call t_opts start_offset warmup_requests i o ≡ some (inr t)) ↔ (
              (p : Text) × (o ≡ some (p, t.peer_id))
              × (make (record t_opts { peers = p ∷ [] }) ≡ inr t.transport)
              × Pass (call i t.transport) 0 warmup_requests)
      go none = (λ h. absurd (ground arith), λ (p, h, hs, k). absurd (ground arith))
      go (some (p, index)) =
          let opts : TransportOptions = record t_opts { peers = p ∷ [] } in
          let placed =
            at index (warm_transport make call t_opts start_offset warmup_requests i opts) in
          let warm = warm_transport_iff i opts t.transport in
          (
            λ h.
                let (e, w) = placed.0 h in
                let (m, ps) = warm.0 w in (p, ap (λ x. some (p, x)) e, m, ps),
            λ (x, e, m, ps).
                let pair = some_inj (p, index) (x, t.peer_id) e in
                let q : x ≡ p = sym (ap (λ y. y.0) pair) in
                placed.1 (
                  ap (λ y. y.1) pair,
                  warm.1 (
                    subst (λ y. make (record t_opts { peers = y ∷ [] }) ≡ inr t.transport) q m,
                    ps,
                  ),
                ),
          )

  add_iff :
      (o : Option (Text ⊎ PeerTransport T)) (w : Warmed T) (ts : List (PeerTransport T))
      → (add make call t_opts start_offset warmup_requests o w ≡ warmed ts) ↔ (
          (t : PeerTransport T) × (us : List (PeerTransport T)) × (ts ≡ t ∷ us)
          × (o ≡ some (inr t))
          × (w ≡ warmed us))
  add_iff none w ts = (λ h. absurd (ground arith), λ (t, us, e, h, k). absurd (ground arith))
  add_iff (some r) panicked ts =
      (λ h. absurd (ground arith), λ (t, us, e, h, k). absurd (ground arith))
  add_iff (some (inl e)) (not_warmed e') ts =
      (λ h. absurd (ground arith), λ (t, us, e, h, k). absurd (ground arith))
  add_iff (some (inl e)) (warmed us) ts =
      (λ h. absurd (ground arith), λ (t, us, e, h, k). absurd (ground arith))
  add_iff (some (inr t)) (not_warmed e') ts =
      (λ h. absurd (ground arith), λ (t, us, e, h, k). absurd (ground arith))
  add_iff (some (inr t)) (warmed us) ts = (
    λ h. let e : t ∷ us ≡ ts = ground arith in (t, us, sym e, refl, refl),
    λ (x, xs, e, h, k).
        let rest : us ≡ xs = ground arith in
        ap warmed (ap₂ (λ y ys. y ∷ ys) (inr_inj t x (some_inj (inr t) (inr x) h)) rest ∙ sym e),
  )

  connections-AreWarm :
      (i n : ℕ) (ts : List (PeerTransport T))
      → (connections make call t_opts start_offset warmup_requests i n ≡ warmed ts) ↔ AreWarm i n ts
  unfolding connections
  connections-AreWarm i zero [] = (λ h. tt, λ h. refl)
  connections-AreWarm i zero (t ∷ ts) = (λ h. absurd (ground arith), λ h. elim h [ ])
  connections-AreWarm i (suc n) ts =
      let added =
        add_iff (connection make call t_opts start_offset warmup_requests i)
          (connections make call t_opts start_offset warmup_requests (suc i) n) ts in
      let ih : (us : List (PeerTransport T))
          → AreWarm (suc i) n us
          → connections make call t_opts start_offset warmup_requests (suc i) n ≡ warmed us =
        λ us. (connections-AreWarm (suc i) n us).1 in
      (
        λ h.
            let (t, us, e, first, rest) = added.0 h in
            subst (AreWarm i (suc n)) (sym e)
              ((connection-IsWarm i t).0 first, (connections-AreWarm (suc i) n us).0 rest),
        λ h. added.1 (split ih ts h),
      )
    where
      split :
          ((us : List (PeerTransport T))
            → AreWarm (suc i) n us
            → connections make call t_opts start_offset warmup_requests (suc i) n ≡ warmed us)
          → (ts : List (PeerTransport T)) → AreWarm i (suc n) ts
          → (t : PeerTransport T) × (us : List (PeerTransport T)) × (ts ≡ t ∷ us)
            × (connection make call t_opts start_offset warmup_requests i ≡ some (inr t))
            × (connections make call t_opts start_offset warmup_requests (suc i) n ≡ warmed us)
      split ih [] h = elim h [ ]
      split ih (t ∷ us) (h, hs) = (t, us, refl, (connection-IsWarm i t).1 h, ih us hs)

  -- The connections are warmed up exactly when there is a peer and there are as many as asked for, in
  -- order, each made for the peer that is its turn and no other, and all its warm-up requests succeed.
  pub warm_transports-AreWarm :
      (n : ℕ) (ts : List (PeerTransport T))
      → (warm_transports make call t_opts start_offset warmup_requests n ≡ warmed ts)
        ↔ (t_opts.peers ≢ []) × AreWarm 0 n ts
  unfolding warm_transports
  warm_transports-AreWarm n ts =
      let peers =
        unless_no_peers_iff t_opts.peers
          (connections make call t_opts start_offset warmup_requests 0 n) ts in
      let warm = connections-AreWarm 0 n ts in
      (
        λ h. let (some_peer, c) = peers.0 h in (some_peer, warm.0 c),
        λ (some_peer, hs). peers.1 (some_peer, warm.1 hs),
      )
