-- ===== src/Server/Middleware.antt =====
-- internal/server/middleware.go: the checks that a request passes before its handler.
-- net.SplitHostPort and net.ParseIP are arguments. Folding of case is for ASCII.
pub mod Access
pub mod Capacity
mod Examples
use owlwatch.Prelude.{
  ℕ, ◌+◌, ◌-◌, Bool, true, false, not, ◌&&◌, ◌||◌, List, [], ◌∷◌, ◌++◌, map, Option, none, some,
  ltb, leb, ◌==◌, if◌then◌else◌, length, take, drop, Bytes, bytes, same, cut_prefix, has_prefix,
  has_suffix, to_lower,
}

pub record Request : Type 0 where
  pub host : Bytes
  pub path : Bytes
  pub authorization : Bytes

abbrev pub equal_fold : Bytes → Bytes → Bool
equal_fold s t = same (to_lower s) (to_lower t)

unfoldable pub any_fold : List Bytes → Bytes → Bool
any_fold [] host = false
any_fold (name ∷ names) host = equal_fold name host || any_fold names host

-- `host[1 : len(host)-1]` of a bracketed literal
unfoldable pub unbracket : Bytes → Bytes
unbracket host =
    if has_prefix host (bytes "[") && has_suffix host (bytes "]")
    then take (length host - 2) (drop 1 host)
    else host

module _ (split_host_port : Bytes → Option Bytes) (parse_ip : Bytes → Bool) where
  -- The host that is compared: without its port and its brackets.
  unfoldable pub bare_host : Bytes → Bytes
  unfolding unbracket
  bare_host hostport = elim (split_host_port hostport) [
    | none ↦ unbracket hostport
    | some h ↦ unbracket h
  ]

  unfoldable pub host_allowed : Bytes → List Bytes → Bool
  unfolding bare_host to_lower any_fold
  host_allowed hostport allowed =
      let host = bare_host hostport in
      same host []
      || parse_ip host
      || same (to_lower host) (bytes "localhost")
      || has_suffix (to_lower host) (bytes ".localhost")
      || any_fold allowed (to_lower host)

unfoldable pub is_api_path : Bytes → Bool
is_api_path path = same path (bytes "/api") || has_prefix path (bytes "/api/")

-- subtle.ConstantTimeCompare is equality.
unfoldable pub token_matches : Request → Bytes → Bool
token_matches r token = elim (cut_prefix r.authorization (bytes "Bearer ")) [
  | none ↦ false
  | some bearer ↦ same bearer token
]

-- The classes of requests whose number is limited.
pub data Class : Type 0 where
  live : Class
  history : Class
  disk : Class

unfoldable pub class_of : Bytes → Option Class
class_of path =
    if has_prefix path (bytes "/api/") && has_suffix path (bytes "/live")
    then some live
    else if has_prefix path (bytes "/api/") && has_suffix path (bytes "/history")
    then some history
    else if has_prefix path (bytes "/api/") && has_suffix path (bytes "/disk-usage")
    then some disk
    else none

-- The slots in use, that is the lengths of the three channels.
pub record Slots : Type 0 where
  pub sse_slots : ℕ
  pub history_slots : ℕ
  pub disk_slots : ℕ

unfoldable pub used : Class → Slots → ℕ
used live s = s.sse_slots
used history s = s.history_slots
used disk s = s.disk_slots

unfoldable pub put : Class → ℕ → Slots → Slots
put live n s = record s { sse_slots = n }
put history n s = record s { history_slots = n }
put disk n s = record s { disk_slots = n }

-- What the chain does with a request: it answers with a status (and a text that is left out here),
-- or the mux serves it, with a slot of its class.
pub data Outcome : Type 0 where
  answer : ℕ → Outcome
  serve : Option Class → Outcome

abbrev pub Handler : Type 0
Handler = Request → Slots → Outcome × Slots

pub record Limits : Type 0 where
  pub max_sse : ℕ
  pub max_history : ℕ

-- The capacities of the channels.
unfoldable pub capacity : Limits → Class → ℕ
capacity l live = l.max_sse
capacity l history = l.max_history
capacity l disk = 2

-- `New` replaces limits that are not positive.
unfoldable pub with_defaults : Limits → Limits
with_defaults l = record {
  max_sse = if ltb 0 l.max_sse then l.max_sse else 128;
  max_history = if ltb 0 l.max_history then l.max_history else 16;
}

unfoldable pub acquire : Limits → Class → Slots → Outcome × Slots
unfolding used put capacity
acquire l c s =
    if ltb (used c s) (capacity l c)
    then (serve (some c), put c (used c s + 1) s)
    else (answer 429, s)

unfoldable pub with_request_limits : Limits → Handler
unfolding class_of acquire
with_request_limits l r s = elim (class_of r.path) [
  | none ↦ (serve none, s)
  | some c ↦ acquire l c s
]

-- The deferred receive of a request that is over.
unfoldable pub release : Class → Slots → Slots
unfolding used put
release c s = put c (used c s - 1) s

unfoldable pub with_token_auth : Bytes → Handler → Handler
unfolding is_api_path token_matches
with_token_auth token next r s =
    if same token []
    then next r s
    else if is_api_path r.path && not (token_matches r token)
    then (answer 401, s)
    else next r s

pub record Config : Type 0 where
  pub allowed_hosts : List Bytes
  pub token : Bytes
  pub limits : Limits

module _ (split_host_port : Bytes → Option Bytes) (parse_ip : Bytes → Bool) where
  unfoldable pub with_host_check : List Bytes → Handler → Handler
  unfolding host_allowed
  with_host_check allowed next r s =
      if host_allowed split_host_port parse_ip r.host allowed then next r s else (answer 421, s)

  -- The chain of `New`, without the recorder, which decides nothing.
  unfoldable pub chain : Config → Handler
  unfolding with_host_check with_token_auth with_request_limits with_defaults
  chain cfg =
      with_host_check cfg.allowed_hosts
        (with_token_auth cfg.token (with_request_limits (with_defaults cfg.limits)))
