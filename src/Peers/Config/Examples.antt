-- ===== src/Peers/Config/Examples.antt =====
-- internal/peers/peers.go at two peers, one with a token of its own and a trailing slash.
use owlwatch.Prelude.{◌≡◌, refl, false, List, [], ◌∷◌, Option, some, Bytes, bytes, same, to_lower}
use owlwatch.Peers.{Peer}
use owlwatch.Peers.Config.{
  Url, ok, parse_peers, parse_entries, parse_entry, parse_pair, named_peer, parse_base_url,
  trim_slash, contains, reserved, valid_id, all_id_bytes, id_byte, split, push_byte, cut,
  trim_space, trim_left, is_space,
}
use owlwatch.Peers.Config.Accepted.{Acceptable, parse_peers-Acceptable}

-- Every text is taken for a host over http.
abbrev host_only : Bytes → Option Url
host_only raw = some (record {
  text = raw;
  scheme = bytes "http";
  has_user = false;
  host = raw;
  opaque_part = [];
  path = [];
  raw_query = [];
  fragment = [];
})

abbrev two_peers : Bytes
two_peers = bytes " Den=http://den/|k2, attic=http://attic,"

abbrev parsed : List Peer
parsed =
    record { id = bytes "den"; name = bytes "Den"; url = bytes "http://den"; token = bytes "k2" }
    ∷ record {
      id = bytes "attic";
      name = bytes "attic";
      url = bytes "http://attic";
      token = bytes "k";
    }
    ∷ []

two_peers-parsed : parse_peers host_only two_peers (bytes "k") ≡ ok parsed
unfolding parse_peers parse_entries parse_entry parse_pair named_peer parse_base_url trim_slash
    contains reserved valid_id all_id_bytes id_byte split push_byte cut trim_space trim_left
    is_space same to_lower
two_peers-parsed = refl

parse_peers-Acceptable_example : Acceptable parsed
parse_peers-Acceptable_example =
    parse_peers-Acceptable host_only two_peers (bytes "k") parsed two_peers-parsed
