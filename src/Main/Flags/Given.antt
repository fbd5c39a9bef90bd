-- ===== src/Main/Flags/Given.antt =====
-- Peers on the command line win over those of the defaults and of a template.
use yab.Prelude.{
  Bool, true, false, List, [], none, ◌⊎◌, inl, inr, ◌≡◌, refl, sym, ap, ◌∙◌, Text, is_nil,
  if◌then◌else◌, arith,
}
use yab.Prelude.Assoc.{Assoc}
use yab.Options.{TransportOptions, Options}
use yab.Main.Flags.{
  clear_peers, cleared, override_defaults, GetOptions, clean_exit, options, ParsedArgs, help,
  not_parsed, parsed, of_parsed, of_overridden, get_options, positional, with_encoding,
}

-- A flag that is given replaces the value that was there.
abbrev pub given {ℓ} : {A : Type ℓ} → List A → List A → List A
given flag before = if is_nil flag then before else flag

-- What parsing flags does to the peers: the documented behaviour of the parser.
abbrev pub SetsPeers : Options → (Options → ParsedArgs) → Type 0
SetsPeers args_only parse =
    (d o : Options) (remaining : List Text)
    → parse d ≡ parsed remaining o
    → (o.t_opts.peers ≡ given args_only.t_opts.peers d.t_opts.peers)
      × (o.t_opts.peer_list ≡ given args_only.t_opts.peer_list d.t_opts.peer_list)

-- The flags name peers in one of the two ways.
abbrev pub NamesPeers : TransportOptions → Type 0
NamesPeers t =
    ((is_nil t.peers ≡ false) × (t.peer_list ≡ []))
    ⊎ ((t.peers ≡ []) × (is_nil t.peer_list ≡ false))

abbrev result : Options → GetOptions
result o = options o

options_inj : {o p : Options} → result o ≡ options p → o ≡ p
options_inj h = ground (arith, h)

positional-peers :
    (remaining : List Text) (o : Options)
    → ((positional remaining o).t_opts.peers ≡ o.t_opts.peers)
      × ((positional remaining o).t_opts.peer_list ≡ o.t_opts.peer_list)
unfolding positional
positional-peers remaining o = (refl, refl)

finished-peers :
    (display man : Bool) (remaining : List Text) (o p : Options)
    → (if display
        then clean_exit
        else if man
        then clean_exit
        else options (positional remaining (with_encoding o)))
      ≡ result p
    → (p.t_opts.peers ≡ o.t_opts.peers) × (p.t_opts.peer_list ≡ o.t_opts.peer_list)
finished-peers true man remaining o p h = absurd (ground (arith, h))
finished-peers false true remaining o p h = absurd (ground (arith, h))
finished-peers false false remaining o p h =
    let same = positional-peers remaining (with_encoding o) in
    (
      ap (λ q. q.t_opts.peers) (sym (options_inj h)) ∙ same.0,
      ap (λ q. q.t_opts.peer_list) (sym (options_inj h)) ∙ same.1,
    )

of_parsed-options :
    (some_args : Bool) (a : ParsedArgs) (p : Options)
    → of_parsed some_args a ≡ options p
    → (remaining : List Text) × (o : Options) × (a ≡ parsed remaining o)
      × (p.t_opts.peers ≡ o.t_opts.peers)
      × (p.t_opts.peer_list ≡ o.t_opts.peer_list)
of_parsed-options false a p h = absurd (ground (arith, h))
of_parsed-options true help p h = absurd (ground (arith, h))
of_parsed-options true (not_parsed e) p h = absurd (ground (arith, h))
of_parsed-options true (parsed remaining o) p h =
    let f = finished-peers o.display_version o.man_page remaining o p h in
    (remaining, o, refl, f.0, f.1)

cleared-inr :
    (t : TransportOptions) (r : Text ⊎ Options) (parse : Options → ParsedArgs) (some_args : Bool)
    (p : Options)
    → of_overridden parse some_args (cleared t r) ≡ options p
    → (d : Options) × (of_parsed some_args (parse (clear_peers t d)) ≡ options p)
cleared-inr t (inl e) parse some_args p h = absurd (ground (arith, h))
cleared-inr t (inr d) parse some_args p h = (d, h)

-- The peers that clearing and parsing leave.
given-peers :
    (t : TransportOptions) (d : Options)
    → NamesPeers t
    → (given t.peers (clear_peers t d).t_opts.peers ≡ t.peers)
      × (given t.peer_list (clear_peers t d).t_opts.peer_list ≡ t.peer_list)
given-peers t d (inl (some_peers, no_list)) = (rw some_peers refl, rw (some_peers, no_list) refl)
given-peers t d (inr (no_peers, some_list)) = (rw (no_peers, some_list) refl, rw some_list refl)

-- If parsing sets the peers as flags do, and the flags name peers in exactly one of the two ways,
-- then the options have these peers and nothing of the other way, whatever the defaults and a
-- template say.
pub get_options-NamesPeers :
    (read_yaml_file : Text → Assoc Text Text → Options → Text ⊎ Options)
    (parse : Options → ParsedArgs) (some_args : Bool) (args_only defaults o : Options)
    → SetsPeers args_only parse
    → NamesPeers args_only.t_opts
    → get_options read_yaml_file parse some_args none args_only defaults ≡ options o
    → (o.t_opts.peers ≡ args_only.t_opts.peers) × (o.t_opts.peer_list ≡ args_only.t_opts.peer_list)
unfolding get_options override_defaults
get_options-NamesPeers read_yaml_file parse some_args args_only defaults o sets names h =
    let c =
      cleared-inr args_only.t_opts
        (if is_nil args_only.r_opts.yaml_template
          then inr defaults
          else read_yaml_file args_only.r_opts.yaml_template args_only.r_opts.template_args
              defaults)
        parse some_args o h in
    let p = of_parsed-options some_args (parse (clear_peers args_only.t_opts c.0)) o c.1 in
    let s = sets (clear_peers args_only.t_opts c.0) p.1 p.0 p.2 in
    let g = given-peers args_only.t_opts c.0 names in (p.3 ∙ s.0 ∙ g.0, p.4 ∙ s.1 ∙ g.1)
