-- ===== src/Tests/PeerList.antt =====
-- peerprovider/parse.go: a list of two peers.
use yab.Prelude.{
  Bool, [], ◌∷◌, ◌++◌, Option, none, some, inr, if◌then◌else◌, ◌≡◌, refl, Text, codes, ◌==◌,
  text_comparable, text_beq,
}
use yab.PeerList.{parse_newline_delimited_peers}

abbrev is_one : Text → Bool
is_one s = s == codes "a:1"

abbrev host_of : Text → Option Text
host_of s = if s == codes "http://b" then some (codes "b") else none

abbrev two_lines : Text
two_lines = codes " a:1" ++ (10 ∷ (32 ∷ 10 ∷ codes "http://b"))

two_peers_read :
    parse_newline_delimited_peers is_one host_of two_lines
    ≡ inr (codes "a:1" ∷ codes "http://b" ∷ [])
unfolding parse_newline_delimited_peers text_beq
two_peers_read = refl
