-- ===== src/PeerList.antt =====
-- peerprovider/parse.go: the peers of a peer list, as YAML or one on each line.
--
-- The YAML decoder and the parsers of host:port pairs and URLs are parameters; `url_host` is the host of a
-- URL. Texts are ASCII.
pub mod Lines
use yab.Prelude.{
  ℕ, Bool, true, false, ◌||◌, ◌&&◌, not, List, [], ◌∷◌, ◌++◌, Option, none, some, ◌⊎◌, inl, inr,
  Text, ◌==◌, nat_comparable, leb, if◌then◌else◌, is_nil,
}

-- The bytes that `strings.TrimSpace` removes.
abbrev is_space : ℕ → Bool
is_space c = c == 32 || (leb 9 c && leb c 13)

unfoldable pub trim_left : Text → Text
trim_left [] = []
trim_left (c ∷ cs) = let rest = trim_left cs in if is_space c then rest else c ∷ cs

unfoldable pub trim_right : Text → Text
trim_right [] = []
trim_right (c ∷ cs) = let rest = trim_right cs in if is_space c && is_nil rest then [] else c ∷ rest

abbrev pub trim_space : Text → Text
trim_space s = trim_left (trim_right s)

abbrev pub with_byte : ℕ → List Text → List Text
with_byte c [] = (c ∷ []) ∷ []
with_byte c (l ∷ ls) = (c ∷ l) ∷ ls

-- What `ReadString` gives, call by call, without the newlines.
unfoldable pub lines : Text → List Text
lines [] = []
lines (c ∷ cs) = let rest = lines cs in if c == 10 then [] ∷ rest else with_byte c rest

module _ (is_host_port : Text → Bool) (url_host : Text → Option Text) where
  -- `isValidURL`
  unfoldable pub is_valid_url : Text → Bool
  is_valid_url line = elim (url_host line) as (λ _. Bool) [ none ↦ false | some h ↦ not (is_nil h) ]

  abbrev pub is_peer : Text → Bool
  is_peer line = is_host_port line || is_valid_url line

  abbrev pub add_host : Text → Text ⊎ List Text → Text ⊎ List Text
  add_host line (inl e) = inl e
  add_host line (inr hosts) = inr (line ∷ hosts)

  -- The loop of `parseNewlineDelimitedPeers`; the error holds the line.
  unfoldable pub parse_lines : List Text → Text ⊎ List Text
  unfolding trim_left trim_right is_valid_url
  parse_lines [] = inr []
  parse_lines (l ∷ ls) =
      let rest = parse_lines ls in
      let line = trim_space l in
      if is_nil line then rest else if is_peer line then add_host line rest else inl line

  -- `parseNewlineDelimitedPeers`
  unfoldable pub parse_newline_delimited_peers : Text → Text ⊎ List Text
  unfolding parse_lines lines
  parse_newline_delimited_peers contents = parse_lines (lines contents)

  -- `parsePeers`; `none` is its one error.
  unfoldable pub parse_peers : (Text → Option (List Text)) → Text → Option (List Text)
  unfolding parse_newline_delimited_peers
  parse_peers yaml contents = elim (yaml contents) [
    | some hosts ↦ some hosts
    | none ↦ elim (parse_newline_delimited_peers contents) [ inl e ↦ none | inr hosts ↦ some hosts ]
  ]
