-- ===== src/Peers/Config.antt =====
-- internal/peers/peers.go: the parser of OWLWATCH_PEERS. url.Parse is an argument. Folding of case
-- and white space are for ASCII.
pub mod Accepted
mod Examples
use owlwatch.Prelude.{
  ℕ, ◌+◌, Bool, true, false, not, ◌&&◌, ◌||◌, List, [], ◌∷◌, ◌++◌, Option, none, some, ltb, leb,
  ◌==◌, if◌then◌else◌, length, Bytes, bytes, same, has_suffix, to_lower,
}
use mathlib.Core.List.{reverse}
use owlwatch.Peers.{Peer}

pub data Error : Type 0 where
  want_pair invalid_name reserved_name duplicate_name too_many : Error
  bad_url bad_scheme has_userinfo no_host has_more : Error

pub data Parsed (A : Type 0) : Type 0 where
  ok : A → Parsed A
  failed : Error → Parsed A

-- The parts of a URL that are looked at, and its text.
pub record Url : Type 0 where
  pub text : Bytes
  pub scheme : Bytes
  pub has_user : Bool
  pub host : Bytes
  pub opaque_part : Bytes
  pub path : Bytes
  pub raw_query : Bytes
  pub fragment : Bytes

unfoldable pub is_space : ℕ → Bool
is_space b = (b == 32) || (leb 9 b && leb b 13)

unfoldable pub trim_left : Bytes → Bytes
unfolding is_space
trim_left [] = []
trim_left (b ∷ s) = let rest = trim_left s in if is_space b then rest else b ∷ s

-- strings.TrimSpace
unfoldable pub trim_space : Bytes → Bytes
unfolding trim_left
trim_space s = reverse (trim_left (reverse (trim_left s)))

-- strings.Cut at a byte: what lies before it and after it.
unfoldable pub cut : ℕ → Bytes → Option (Bytes × Bytes)
cut sep [] = none
cut sep (b ∷ s) =
    let rest = cut sep s in
    if b == sep
    then some ([], s)
    else elim rest [ none ↦ none | some (before, after) ↦ some (b ∷ before, after) ]

unfoldable pub push_byte : ℕ → List Bytes → List Bytes
push_byte b [] = (b ∷ []) ∷ []
push_byte b (l ∷ ls) = (b ∷ l) ∷ ls

-- strings.Split at a byte; there is always a piece.
unfoldable pub split : ℕ → Bytes → List Bytes
unfolding push_byte
split sep [] = [] ∷ []
split sep (b ∷ s) = let rest = split sep s in if b == sep then [] ∷ rest else push_byte b rest

id_byte : ℕ → Bool
id_byte b = (leb 97 b && leb b 122) || (leb 48 b && leb b 57) || (b == 45)

all_id_bytes : Bytes → Bool
unfolding id_byte
all_id_bytes [] = true
all_id_bytes (b ∷ s) = id_byte b && all_id_bytes s

-- `idPattern`
unfoldable pub valid_id : Bytes → Bool
unfolding all_id_bytes
valid_id id = ltb 0 (length id) && leb (length id) 32 && all_id_bytes id

unfoldable pub reserved : Bytes → Bool
reserved id = same id (bytes "local") || same id (bytes "overview")

unfoldable pub contains : List Bytes → Bytes → Bool
contains [] id = false
contains (s ∷ seen) id = same s id || contains seen id

unfoldable pub trim_slash : Bytes → Bytes
trim_slash raw = elim (reverse raw) [ [] ↦ raw | b ∷ s ↦ if b == 47 then reverse s else raw ]

module _ (parse_url : Bytes → Option Url) where
  unfoldable pub parse_base_url : Bytes → Parsed Bytes
  unfolding trim_slash
  parse_base_url raw = elim (parse_url (trim_slash raw)) [
    | none ↦ failed bad_url
    | some u ↦
        if not (same u.scheme (bytes "http")) && not (same u.scheme (bytes "https"))
        then failed bad_scheme
        else if u.has_user
        then failed has_userinfo
        else if same u.host []
        then failed no_host
        else if not (same u.opaque_part [])
            || not (same u.path [])
            || not (same u.raw_query [])
            || not (same u.fragment [])
        then failed has_more
        else ok u.text
  ]

  -- The peer of one pair, once its name is accepted.
  unfoldable pub named_peer : Bytes → Bytes → Bytes → Bytes → Parsed Peer
  unfolding parse_base_url trim_space
  named_peer id name url_text token = elim (parse_base_url (trim_space url_text)) [
    | failed e ↦ failed e
    | ok url ↦ ok (record { id = id; name = name; url = url; token = token })
  ]

  -- One entry that is not blank; `seen` has the ids of the entries before.
  unfoldable pub parse_pair : Bytes → List Bytes → Bytes → Bytes → Parsed Peer
  unfolding valid_id reserved contains named_peer trim_space cut to_lower
  parse_pair default_token seen name rest =
      if not (valid_id (to_lower name))
      then failed invalid_name
      else if reserved (to_lower name)
      then failed reserved_name
      else if contains seen (to_lower name)
      then failed duplicate_name
      else elim (cut 124 (trim_space rest)) [
        | none ↦ named_peer (to_lower name) name (trim_space rest) default_token
        | some (url_text, override) ↦ named_peer (to_lower name) name url_text (trim_space override)
      ]

  unfoldable pub parse_entry : Bytes → List Bytes → Bytes → Parsed Peer
  unfolding parse_pair cut trim_space
  parse_entry default_token seen entry = elim (cut 61 entry) [
    | none ↦ failed want_pair
    | some (name, rest) ↦ parse_pair default_token seen (trim_space name) rest
  ]

  -- The loop over the entries, from the ids seen and the peers so far.
  unfoldable pub parse_entries : Bytes → List Bytes → List Peer → List Bytes → Parsed (List Peer)
  unfolding parse_entry trim_space
  parse_entries default_token seen peers [] = ok peers
  parse_entries default_token seen peers (raw ∷ rest) = elim (same (trim_space raw) []) [
    | true ↦ parse_entries default_token seen peers rest
    | false ↦ elim (parse_entry default_token seen (trim_space raw)) [
      | failed e ↦ failed e
      | ok p ↦ elim (ltb 32 (length (peers ++ p ∷ []))) [
        | true ↦ failed too_many
        | false ↦ parse_entries default_token (p.id ∷ seen) (peers ++ p ∷ []) rest
      ]
    ]
  ]

  -- `ParsePeers`; nil is the empty list.
  unfoldable pub parse_peers : Bytes → Bytes → Parsed (List Peer)
  unfolding parse_entries split trim_space
  parse_peers env default_token =
      if same (trim_space env) [] then ok [] else parse_entries default_token [] [] (split 44 env)
