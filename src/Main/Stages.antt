-- ===== src/Main/Stages.antt =====
-- What holds of a handler that `runWithOptions` makes.
use yab.Prelude.{
  Bool, true, false, not, List, [], ◌++◌, Option, none, some, ◌⊎◌, inl, inr, ◌≡◌, refl, sym, ap,
  ◌∙◌, subst, Text, codes, ◌==◌, text_comparable, if◌then◌else◌, is_nil, All, arith,
}
use yab.Prelude.Assoc.{Assoc}
use yab.Options.{TransportOptions, Options}
use yab.Request.{HeadersResult}
use yab.Benchmark.{enabled}
use yab.Resolve.{
  Resolved, resolve_protocol_encoding, Serializer, new_serializer, Choice, chosen, refused,
}
use yab.Transport.{
  TransportError, service_required, caller_required, Made, load_transport_peers, get_transport,
  make_transport, get_hosts,
}
use yab.Transport.Laws.{HasProtocol, load_transport_peers-All}
use yab.Main.{
  Stopped, schemes_listed, bad_request_input, RequestHandler, get_tracer, and_then, of_headers,
  with_caller, with_peers, handler, with_tracer, with_serializer, with_name, with_headers,
  of_choice, of_transport, with_protocol, run_with_options, blocked_caller, caller_in_benchmark,
}

module _ {A B : Type 0} where
  and_then-inr :
      (a : Stopped ⊎ A) (f : A → Stopped ⊎ B) (b : B)
      → and_then a f ≡ inr b
      → (x : A) × (a ≡ inr x) × (f x ≡ inr b)
  and_then-inr (inl e) f b h = absurd (ground (arith, h))
  and_then-inr (inr x) f b h = (x, refl, h)

abbrev ok : {A : Type 0} → A → Stopped ⊎ A
ok a = inr a

ok_inj : {A : Type 0} {a b : A} → ok a ≡ inr b → a ≡ b
ok_inj h = ground (arith, h)

not_ok : {A : Type 0} {e : Stopped} {a : A} → inl e ≡ ok a → ⊥
not_ok h = ground (arith, h)

-- The name of the caller is there, and in a benchmark it is that of yab.
abbrev pub HasCaller : Text → Options → Type 0
HasCaller user o =
    (is_nil o.t_opts.caller_name ≡ false)
    × ((enabled o.b_opts ≡ false) ⊎ (o.t_opts.caller_name ≡ codes "yab-" ++ user))

abbrev yab_caller : Text → Options → Options
yab_caller user o = record o { t_opts = record o.t_opts { caller_name = codes "yab-" ++ user } }

same_caller :
    (user : Text) (o p : Options)
    → p.t_opts.caller_name ≡ o.t_opts.caller_name
    → p.b_opts ≡ o.b_opts
    → (enabled o.b_opts ≡ false) ⊎ (o.t_opts.caller_name ≡ codes "yab-" ++ user)
    → (enabled p.b_opts ≡ false) ⊎ (p.t_opts.caller_name ≡ codes "yab-" ++ user)
same_caller user o p name same (inl off) = inl (ap enabled same ∙ off)
same_caller user o p name same (inr yab) = inr (name ∙ yab)

caller-HasCaller :
    (nameless blocked benchmark : Bool) (user : Text) (o p : Options)
    → is_nil o.t_opts.caller_name ≡ nameless
    → enabled o.b_opts ≡ benchmark
    → (if not nameless
        then (if blocked
            then inl (blocked_caller o.t_opts.caller_name)
            else if benchmark
            then inl caller_in_benchmark
            else inr o)
        else inr (yab_caller user o))
      ≡ ok p
    → HasCaller user p
caller-HasCaller true blocked benchmark user o p e f h =
    subst (HasCaller user) (ok_inj h) (refl, inr refl)
caller-HasCaller false true benchmark user o p e f h = absurd (not_ok h)
caller-HasCaller false false true user o p e f h = absurd (not_ok h)
caller-HasCaller false false false user o p e f h = subst (HasCaller user) (ok_inj h) (e, inl f)

with_caller-HasCaller :
    (is_blocked : Text → Bool) (user : Text) (o p : Options)
    → with_caller is_blocked user o ≡ inr p
    → HasCaller user p
unfolding with_caller
with_caller-HasCaller is_blocked user o p h =
    caller-HasCaller (is_nil o.t_opts.caller_name) (is_blocked o.t_opts.caller_name)
      (enabled o.b_opts) user o p refl refl h

module _ (is_host_port : Text → Bool) (parse_request_uri : Text → Option (Text × Text))
    (resolve : Text → Text ⊎ List Text) where
  -- The peers, of one protocol, are those loaded, and no list is left to resolve.
  abbrev pub HasPeers : Text → Options → Type 0
  HasPeers scheme o =
      (o.t_opts.peer_list ≡ [])
      × (is_nil o.t_opts.peers ≡ false)
      × All (HasProtocol is_host_port parse_request_uri scheme) o.t_opts.peers

  with_peers-HasPeers :
      (o p : Options) (scheme : Text) (loaded : TransportError ⊎ (Text × List Text))
      → load_transport_peers is_host_port parse_request_uri resolve o.t_opts ≡ loaded
      → with_peers o loaded ≡ inr (scheme, p)
      → HasPeers scheme p × (p.t_opts.caller_name ≡ o.t_opts.caller_name) × (p.b_opts ≡ o.b_opts)
  with_peers-HasPeers o p scheme (inl e) k h = absurd (not_ok h)
  with_peers-HasPeers o p scheme (inr (s, peers)) k h =
      let facts =
        load_transport_peers-All is_host_port parse_request_uri resolve o.t_opts s peers k in
      subst
        (λ a.
          HasPeers a.0 a.1
          × (a.1.t_opts.caller_name ≡ o.t_opts.caller_name)
          × (a.1.b_opts ≡ o.b_opts))
        (ok_inj h) ((refl, facts.1, facts.2), refl, refl)

  module _ (ip : Text) (jaeger_started : Bool) where
    of_transport-inr :
        (t : TransportOptions) (res : Resolved) (no_service no_caller : Bool) (m : Made)
        → of_transport (
            if no_service
            then inl service_required
            else if no_caller
            then inl caller_required
            else inr (make_transport is_host_port parse_request_uri ip t res))
          ≡ inr m
        → (no_service ≡ false) × (m ≡ make_transport is_host_port parse_request_uri ip t res)
    of_transport-inr t res true no_caller m h = absurd (not_ok h)
    of_transport-inr t res false true m h = absurd (not_ok h)
    of_transport-inr t res false false m h = (refl, sym (ok_inj h))

    -- What a handler has, for the protocol of its peers.
    abbrev pub IsResolved : Text → RequestHandler → Type 0
    IsResolved scheme h =
        (h.resolved ≡ resolve_protocol_encoding scheme h.opts.r_opts)
        × (is_nil h.opts.t_opts.service_name ≡ false)
        × (new_serializer (get_hosts is_host_port parse_request_uri) h.opts h.resolved
            ≡ chosen h.serializer)
        × (h.transport ≡ make_transport is_host_port parse_request_uri ip h.opts.t_opts h.resolved)

    of_choice-inr : (c : Choice) (s : Serializer) → of_choice c ≡ inr s → c ≡ chosen s
    of_choice-inr (chosen t) s h = ap chosen (ok_inj h)
    of_choice-inr (refused e) s h = absurd (not_ok h)

    with_protocol-IsResolved :
        (hs : Assoc Text Text) (scheme : Text) (o : Options) (h : RequestHandler)
        → with_protocol is_host_port parse_request_uri resolve ip jaeger_started hs (scheme, o)
          ≡ inr h
        → (h.opts ≡ o) × IsResolved scheme h
    unfolding with_protocol get_transport
    with_protocol-IsResolved hs scheme o h e =
        let res = resolve_protocol_encoding scheme o.r_opts in
        let a =
          and_then-inr (of_choice (new_serializer (get_hosts is_host_port parse_request_uri) o res))
            (with_serializer is_host_port parse_request_uri resolve ip jaeger_started hs o res) h
            e in
        let b =
          and_then-inr (get_tracer jaeger_started o)
            (with_tracer is_host_port parse_request_uri resolve ip jaeger_started hs o res a.0) h
            a.2 in
        let c =
          and_then-inr
            (of_transport (get_transport is_host_port parse_request_uri ip o.t_opts res true))
            (handler is_host_port parse_request_uri resolve ip jaeger_started hs o res a.0) h b.2 in
        let t =
          of_transport-inr o.t_opts res (is_nil o.t_opts.service_name) (is_nil o.t_opts.caller_name)
            c.0 c.1 in
        subst (λ k. (k.opts ≡ o) × IsResolved scheme k) (ok_inj c.2)
          (
            refl,
            (
              refl,
              t.0,
              of_choice-inr (new_serializer (get_hosts is_host_port parse_request_uri) o res) a.0
                  a.1,
              t.1,
            ),
          )

    unless_listed :
        (listed : Bool) (r : Stopped ⊎ RequestHandler) (h : RequestHandler)
        → (if listed then inl schemes_listed else r) ≡ ok h
        → r ≡ inr h
    unless_listed true r h e = absurd (not_ok e)
    unless_listed false r h e = e

    with_name-inr :
        (user : Text) (hs : Assoc Text Text) (o : Options) (h : RequestHandler)
        → HasCaller user o
        → with_name is_host_port parse_request_uri resolve ip jaeger_started hs o ≡ inr h
        → (scheme : Text) × HasCaller user h.opts × HasPeers scheme h.opts × IsResolved scheme h
    with_name-inr user hs o h (name, benchmark) e =
        let loaded = load_transport_peers is_host_port parse_request_uri resolve o.t_opts in
        let a =
          and_then-inr (with_peers o loaded)
            (with_protocol is_host_port parse_request_uri resolve ip jaeger_started hs) h e in
        let p = with_peers-HasPeers o a.0.1 a.0.0 loaded refl a.1 in
        let r = with_protocol-IsResolved hs a.0.0 a.0.1 h a.2 in
        let caller : HasCaller user a.0.1 =
          (ap is_nil p.1 ∙ name, same_caller user o a.0.1 p.1 p.2 benchmark) in
        (a.0.0, subst (HasCaller user) (sym r.0) caller, subst (HasPeers a.0.0) (sym r.0) p.0, r.1)

    with_headers-inr :
        (is_blocked : Text → Bool) (user : Text) (hs : HeadersResult) (o : Options)
        (h : RequestHandler)
        → and_then (of_headers hs) (
            with_headers is_host_port parse_request_uri resolve ip jaeger_started is_blocked user o)
          ≡ inr h
        → (scheme : Text) × HasCaller user h.opts × HasPeers scheme h.opts × IsResolved scheme h
    with_headers-inr is_blocked user hs o h e =
        let a =
          and_then-inr (of_headers hs)
            (with_headers is_host_port parse_request_uri resolve ip jaeger_started is_blocked user
              o)
            h e in
        let b =
          and_then-inr (with_caller is_blocked user o)
            (with_name is_host_port parse_request_uri resolve ip jaeger_started a.0) h a.2 in
        with_name-inr user a.0 b.0 h (with_caller-HasCaller is_blocked user o b.0 b.1) b.2

    -- A run that comes to its handler has the caller's name, which in a benchmark is that of yab
    -- and the user; one peer at least, all of one protocol, and no peer list left; a service; the
    -- protocol and encoding resolved from that of the peers; the serializer for these; and the
    -- transport made of the same options.
    pub run_with_options-inr :
        (is_blocked : Text → Bool) (user : Text) (input_error : Option Text) (hs : HeadersResult)
        (o : Options) (h : RequestHandler)
        → run_with_options is_host_port parse_request_uri resolve ip jaeger_started is_blocked user
            input_error hs o
          ≡ inr h
        → (scheme : Text) × HasCaller user h.opts × HasPeers scheme h.opts × IsResolved scheme h
    unfolding run_with_options
    run_with_options-inr is_blocked user (some t) hs o h e =
        absurd
          (not_ok (unless_listed (o.t_opts.peer_list == codes "?") (inl (bad_request_input t)) h e))
    run_with_options-inr is_blocked user none hs o h e = with_headers-inr is_blocked user hs o h (
        unless_listed (o.t_opts.peer_list == codes "?")
          (and_then (of_headers hs) (
            with_headers is_host_port parse_request_uri resolve ip jaeger_started is_blocked user
              o))
          h e)
