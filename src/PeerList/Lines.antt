-- ===== src/PeerList/Lines.antt =====
-- Which lists of lines are peers.
use yab.Prelude.{
  Bool, true, List, [], ◌∷◌, Option, ◌⊎◌, inl, inr, ◌≡◌, ◌↔◌, refl, sym, ap, subst, ◌∙◌, Text, All,
  is_nil, if◌then◌else◌, Bool-cases, arith,
}
use yab.PeerList.{trim_space, is_peer, add_host, parse_lines, lines, parse_newline_delimited_peers}

-- The lines without the spaces around them, but for those with spaces only.
abbrev pub kept : List Text → List Text
kept [] = []
kept (l ∷ ls) = if is_nil (trim_space l) then kept ls else trim_space l ∷ kept ls

module _ (is_host_port : Text → Bool) (url_host : Text → Option Text) where
  abbrev pub ArePeers : List Text → Type 0
  ArePeers hosts = All (λ h. is_peer is_host_port url_host h ≡ true) hosts

  add_host_iff :
      (line : Text) (r : Text ⊎ List Text) (ls hosts : List Text)
      → ((us : List Text) → (r ≡ inr us) ↔ (us ≡ ls) × ArePeers us)
      → is_peer is_host_port url_host line ≡ true
      → (add_host is_host_port url_host line r ≡ inr hosts) ↔ (hosts ≡ line ∷ ls) × ArePeers hosts
  add_host_iff line (inr us) ls hosts ih peer = (
    λ h.
        let e : line ∷ us ≡ hosts = ground arith in
        let (same, valid) = (ih us).0 refl in
        (sym e ∙ ap (λ x. line ∷ x) same, subst ArePeers e (peer, valid)),
    λ (e, valid).
        let (p, rest) : ArePeers (line ∷ ls) = subst ArePeers e valid in
        let same : us ≡ ls = ground (arith, (ih ls).1 (refl, rest)) in
        ap inr (ap (λ x. line ∷ x) same ∙ sym e),
  )
  add_host_iff line (inl e) ls hosts ih peer = (
    λ h. absurd (ground arith),
    λ (same, valid).
        let (p, rest) : ArePeers (line ∷ ls) = subst ArePeers same valid in
        absurd (ground (arith, (ih ls).1 (refl, rest))),
  )

  parse_lines_iff :
      (ls hosts : List Text)
      → (parse_lines is_host_port url_host ls ≡ inr hosts) ↔ (hosts ≡ kept ls) × ArePeers hosts
  unfolding parse_lines
  parse_lines_iff [] hosts = (
    λ h. let e : hosts ≡ [] = ground arith in (e, subst ArePeers (sym e) tt),
    λ (e, valid). ap inr (sym e),
  )
  parse_lines_iff (l ∷ ls) hosts = elim (Bool-cases (is_nil (trim_space l))) [
    | inl blank ↦ rw blank (parse_lines_iff ls hosts)
    | inr text ↦ elim (Bool-cases (is_peer is_host_port url_host (trim_space l))) [
      | inl peer ↦
          rw (text, peer)
            (add_host_iff (trim_space l) (parse_lines is_host_port url_host ls) (kept ls) hosts
              (λ us. parse_lines_iff ls us) peer)
      | inr other ↦
          rw (text, other)
            (
              λ h. absurd (ground arith),
              λ (same, valid).
                  let (p, rest) : ArePeers (trim_space l ∷ kept ls) = subst ArePeers same valid in
                  absurd (ground (arith, other, p)),
            )
    ]
  ]

  -- A list of peers by lines is read exactly as its lines without the spaces around them, those with
  -- spaces only left out, and only if each of these is a host with a port or a URL with a host.
  pub parse_newline_delimited_peers_iff :
      (contents : Text) (hosts : List Text)
      → (parse_newline_delimited_peers is_host_port url_host contents ≡ inr hosts)
        ↔ (hosts ≡ kept (lines contents)) × ArePeers hosts
  unfolding parse_newline_delimited_peers
  parse_newline_delimited_peers_iff contents hosts = parse_lines_iff (lines contents) hosts
