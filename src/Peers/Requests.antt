-- ===== src/Peers/Requests.antt =====
-- internal/peers/client.go: the requests that the hub proxies to one peer, the reconnect loop's
-- backoff, and the limit on repeated log lines. What the HTTP client and the decoder make of the
-- exchange is an argument.
pub mod Backoff
pub mod Quiet
mod Examples
use owlwatch.Prelude.{
  ℕ, ◌+◌, ◌-◌, ◌*◌, ◌/◌, Bool, true, false, ◌&&◌, List, [], ◌∷◌, ◌++◌, Option, none, some, ltb, leb,
  ◌==◌, if◌then◌else◌, Bytes, bytes, same, length, lookup, insert,
}
use owlwatch.Peers.{Peer}

pub data Error : Type 0 where
  unknown_peer : Error
  peer_unavailable : Error
  refused : Bytes → Error
  bad_request : Error

pub data Result (A : Type 0) : Type 0 where
  ok : A → Result A
  failed : Error → Result A

-- What comes of a request: it cannot be built, it does not succeed in its time, or the peer answers
-- with a status and a body, which the decoder reads under its limit or rejects.
pub data Exchange (B : Type 0) : Type 0 where
  not_built : Exchange B
  no_response : Exchange B
  response : ℕ → Option B → Exchange B

-- The request that is sent: its method, its URL and its Authorization header, "" for none.
pub record Sent : Type 0 where
  pub post : Bool
  pub url : Bytes
  pub authorization : Bytes

unfoldable pub bearer : Peer → Bytes
bearer p = if same p.token [] then [] else bytes "Bearer " ++ p.token

-- `History` and `DiskUsage` treat the outcome alike: only a decodable 200 is a result.
unfoldable pub decoded : {B : Type 0} → Exchange B → Result B
decoded not_built = failed bad_request
decoded no_response = failed peer_unavailable
decoded (response status none) = failed peer_unavailable
decoded (response status (some body)) = if status == 200 then ok body else failed peer_unavailable

module _ {S B : Type 0} (peer_of : S → Peer) (query_escape : Bytes → Bytes)
    (http : Sent → Exchange B) where
  unfoldable pub history : Bytes → Bytes → List (Bytes × S) → Result B
  unfolding bearer decoded
  history id range_key states = elim (lookup id states) [
    | none ↦ failed unknown_peer
    | some st ↦ decoded (
        http (record {
          post = false;
          url = (peer_of st).url ++ (bytes "/api/history?range=" ++ query_escape range_key);
          authorization = bearer (peer_of st);
        }))
  ]

  unfoldable pub disk_usage : Bytes → Bytes → List (Bytes × S) → Result B
  unfolding bearer decoded
  disk_usage id path states = elim (lookup id states) [
    | none ↦ failed unknown_peer
    | some st ↦ decoded (
        http (record {
          post = false;
          url = (peer_of st).url ++ (bytes "/api/disk-usage?path=" ++ query_escape path);
          authorization = bearer (peer_of st);
        }))
  ]

-- The error field of a body that cannot be decoded is empty.
unfoldable pub reason_of : Option Bytes → Bytes
reason_of none = []
reason_of (some reason) = reason

unfoldable pub reboot_result : Exchange Bytes → Result Unit
unfolding reason_of
reboot_result not_built = failed bad_request
reboot_result no_response = failed peer_unavailable
reboot_result (response status body) =
    if status == 202
    then ok tt
    else if leb 400 status && ltb status 500 && ltb 0 (length (reason_of body))
    then failed (refused (reason_of body))
    else if status == 401
    then failed (refused (bytes "the hub's token for this peer was rejected"))
    else failed peer_unavailable

module _ {S : Type 0} (peer_of : S → Peer) (http : Sent → Exchange Bytes) where
  unfoldable pub reboot : Bytes → List (Bytes × S) → Result Unit
  unfolding bearer reboot_result
  reboot id states = elim (lookup id states) [
    | none ↦ failed unknown_peer
    | some st ↦ reboot_result (
        http (record {
          post = true;
          url = (peer_of st).url ++ bytes "/api/reboot";
          authorization = bearer (peer_of st);
        }))
  ]

-- `runPeer`'s wait between two attempts, in nanoseconds.
unfoldable pub next_backoff : ℕ → ℕ → ℕ
next_backoff max_backoff backoff =
    if ltb max_backoff (backoff * 2) then max_backoff else backoff * 2

-- `jitter`; `draw n` is rand.Int64N, which returns a number below `n`.
unfoldable pub jitter : (ℕ → ℕ) → ℕ → ℕ
jitter draw d = if ltb 0 (d / 2) then d / 2 + draw (d / 2) else d

-- The waits of `runPeer`, by whether each attempt received a good response.
unfoldable pub waits : (ℕ → ℕ → ℕ) → ℕ → ℕ → ℕ → List Bool → List ℕ
unfolding next_backoff jitter
waits draws base max_backoff backoff [] = []
waits draws base max_backoff backoff (connected ∷ rest) =
    let b = if connected then base else backoff in
    let later = waits draws base max_backoff (next_backoff max_backoff b) rest in
    jitter (draws (length rest)) b ∷ later

-- `rateLogger.printf`: the times of the last lines, and whether the line is logged.
unfoldable pub printf : ℕ → Bytes → ℕ → List (Bytes × ℕ) → List (Bytes × ℕ) × Bool
printf every key now last_times = elim (lookup key last_times) [
  | none ↦ (insert key now last_times, true)
  | some t ↦ if ltb now (t + every) then (last_times, false) else (insert key now last_times, true)
]
