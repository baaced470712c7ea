-- ===== src/Peers.antt =====
-- internal/peers: the hub's side of federation. This file has the configured peer; the children are
-- the parser of OWLWATCH_PEERS, the cached fleet state, the event-stream parser, the reconnect loop
-- and the proxied requests.
pub mod Config
pub mod Requests
pub mod Client
pub mod Stream
use owlwatch.Prelude.{Bytes}

-- A base URL that parseBaseURL accepted is kept as its text, to which the requests append a path.
pub record Peer : Type 0 where
  pub id : Bytes
  pub name : Bytes
  pub url : Bytes
  pub token : Bytes
