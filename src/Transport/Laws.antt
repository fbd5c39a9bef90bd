-- ===== src/Transport/Laws.antt =====
-- The protocols of the peers that are loaded, and how a list of peers is turned down.
use yab.Prelude.{
  Bool, true, false, List, [], ◌∷◌, Option, ◌⊎◌, inl, inr, Text, ◌==◌, text_comparable, is_nil, ◌≡◌,
  ◌≢◌, refl, arith, All, Bool-cases, text_beq_iff, sym, ap, ◌∙◌,
}
use yab.Options.{TransportOptions, Options}
use yab.Template.{Template, read_yaml_request}
use yab.Template.Laws.{one_source, sources_after, read_yaml_request-one_source}
use yab.Transport.{
  peer_options, parse_peer, same_protocol, ensure_same_protocol, check_peers, load_transport_peers,
}

module _ (is_host_port : Text → Bool) (parse_request_uri : Text → Option (Text × Text)) where
  abbrev pub HasProtocol : Text → Text → Type 0
  HasProtocol scheme p = (parse_peer is_host_port parse_request_uri p).0 ≡ scheme

  same_protocol-ok :
      (last : Text) (peers : List Text)
      → All (HasProtocol last) peers
      → same_protocol is_host_port parse_request_uri last peers ≡ inr last
  unfolding same_protocol
  same_protocol-ok last [] h = refl
  same_protocol-ok last (p ∷ peers) (h, hs) = ground (
    arith,
    same_protocol-ok last peers hs,
    text_beq_iff last (parse_peer is_host_port parse_request_uri p).0,
  )

  same_protocol-All :
      (last scheme : Text) (peers : List Text)
      → same_protocol is_host_port parse_request_uri last peers ≡ inr scheme
      → (last ≡ scheme) × All (HasProtocol scheme) peers
  unfolding same_protocol
  same_protocol-All last scheme [] h = (ground arith, tt)
  same_protocol-All last scheme (p ∷ peers) h =
      let q = (parse_peer is_host_port parse_request_uri p).0 in
      elim (Bool-cases (last == q)) [
        | inl e ↦
            let rest = same_protocol-All last scheme peers (ground arith) in
            (rest.0, (ground (arith, text_beq_iff last q, rest.0), rest.1))
        | inr e ↦ absurd (ground arith)
      ]

  ensure_same_protocol-All :
      (scheme p : Text) (peers : List Text)
      → ensure_same_protocol is_host_port parse_request_uri p peers ≡ inr scheme
      → All (HasProtocol scheme) (p ∷ peers)
  unfolding ensure_same_protocol
  ensure_same_protocol-All scheme p peers h =
      same_protocol-All (parse_peer is_host_port parse_request_uri p).0 scheme peers h

  check_peers-All :
      (ps : List Text) (scheme : Text) (qs : List Text)
      → check_peers is_host_port parse_request_uri ps ≡ inr (scheme, qs)
      → (qs ≡ ps) × (is_nil qs ≡ false) × All (HasProtocol scheme) qs
  unfolding check_peers
  check_peers-All [] scheme qs h = absurd (ground arith)
  check_peers-All (p ∷ ps) scheme qs h =
      let agree = ensure_same_protocol-All scheme p ps (ground arith) in
      let same : qs ≡ p ∷ ps = ground arith in rw same (refl, refl, agree)

  same_protocol-peer_options :
      (last : Text) (peers : List Text)
      → same_protocol is_host_port parse_request_uri last peers ≢ inl peer_options
  unfolding same_protocol
  same_protocol-peer_options last [] h = ground arith
  same_protocol-peer_options last (p ∷ peers) h =
      ground (arith, same_protocol-peer_options last peers)

  check_peers-peer_options :
      (ps : List Text) → check_peers is_host_port parse_request_uri ps ≢ inl peer_options
  unfolding check_peers ensure_same_protocol
  check_peers-peer_options [] h = ground arith
  check_peers-peer_options (p ∷ ps) h =
      ground (arith, same_protocol-peer_options (parse_peer is_host_port parse_request_uri p).0 ps)

  module _ (resolve : Text → Text ⊎ List Text) where
    -- Peers that are loaded are those of the options or of the peer list; there is one at least, and
    -- all of them name the protocol that is returned.
    pub load_transport_peers-All :
        (opts : TransportOptions) (scheme : Text) (peers : List Text)
        → load_transport_peers is_host_port parse_request_uri resolve opts ≡ inr (scheme, peers)
        → ((peers ≡ opts.peers) ⊎ (resolve opts.peer_list ≡ inr peers))
          × (is_nil peers ≡ false)
          × All (HasProtocol scheme) peers
    unfolding load_transport_peers
    load_transport_peers-All opts scheme peers h = elim (Bool-cases (is_nil opts.peer_list)) [
      | inl e ↦
          let c = check_peers-All opts.peers scheme peers (ground arith) in (inl c.0, c.1, c.2)
      | inr e ↦ from_list e (resolve opts.peer_list) refl
    ]
      where
        from_list :
            is_nil opts.peer_list ≡ false
            → (r : Text ⊎ List Text) → resolve opts.peer_list ≡ r
            → ((peers ≡ opts.peers) ⊎ (resolve opts.peer_list ≡ inr peers))
              × (is_nil peers ≡ false)
              × All (HasProtocol scheme) peers
        from_list e (inl f) same = absurd (ground arith)
        from_list e (inr []) same = absurd (ground arith)
        from_list e (inr (p ∷ ps)) same =
            let c = check_peers-All (p ∷ ps) scheme peers (ground arith) in
            (inr (same ∙ ap inr (sym c.0)), c.1, c.2)

    one_source-peer_options :
        (o : TransportOptions)
        → one_source o ≡ true
        → load_transport_peers is_host_port parse_request_uri resolve o ≢ inl peer_options
    unfolding load_transport_peers
    one_source-peer_options o h k = from_list (resolve o.peer_list) refl
      where
        from_list : (r : Text ⊎ List Text) → resolve o.peer_list ≡ r → ⊥
        from_list (inl f) same = ground (arith, check_peers-peer_options o.peers)
        from_list (inr []) same = ground (arith, check_peers-peer_options o.peers)
        from_list (inr (p ∷ ps)) same =
            ground (arith, check_peers-peer_options o.peers, check_peers-peer_options (p ∷ ps))

    -- If the command line gives the peers in one way only, then behind a template they are not turned
    -- down for being given in two ways.
    pub load_transport_peers-template :
        {R : Type 0} (process_map : R → Text ⊎ R) (marshal : R → Text ⊎ Text)
        (resolve_url resolve_path : Text → Text ⊎ Text) (t : Template R) (opts opts' : Options)
        → one_source opts.t_opts ≡ true
        → read_yaml_request process_map marshal resolve_url resolve_path t opts ≡ inr opts'
        → load_transport_peers is_host_port parse_request_uri resolve opts'.t_opts
          ≢ inl peer_options
    load_transport_peers-template process_map marshal resolve_url resolve_path t opts opts' h e =
        λ k.
          one_source-peer_options opts'.t_opts
            (sym (ap sources_after e)
              ∙ read_yaml_request-one_source process_map marshal resolve_url resolve_path t opts h)
            k
