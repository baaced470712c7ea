-- ===== src/Peers/Client.antt =====
-- internal/peers/client.go: the fleet state that the hub caches, and its updates. Each function runs
-- under the mutex, so it is one step; `now` is the clock that it reads, in unix milliseconds. A
-- `none` is a run-time panic, such as a nil state of an unknown peer.
pub mod Invariant
pub mod Updates
pub mod Fleet
pub mod Sample
mod Examples
use owlwatch.Prelude.{
  ℕ, ◌-◌, Bool, true, false, List, [], ◌∷◌, Option, none, some, ltb, if◌then◌else◌, length,
  get_elem?, Bytes, lookup, insert, ◌>>=◌,
}
use owlwatch.Metrics.{Snapshot, HostInfo, ServerSummary}
use owlwatch.Ring
use owlwatch.Ring.{Ring, seed, snapshots, recent_cpu}
use owlwatch.Fanout
use owlwatch.Fanout.{Fanout, broadcast}
use owlwatch.Peers.{Peer}

abbrev pub ring_cap : ℕ
ring_cap = 150

pub record Event (F : Type 0) : Type 0 where
  pub id : Bytes
  pub snapshot : Option (Snapshot F)
  pub online : Option Bool
  pub last_seen : ℕ

pub record PeerState (F : Type 0) : Type 0 where
  pub peer : Peer
  pub online : Bool
  pub last_seen : ℕ
  pub interval_ms : ℕ
  pub host : Option HostInfo
  pub latest : Option (Snapshot F)
  pub ring : Ring (Snapshot F)

-- The mutable part of the hub; the HTTP client, the logger and the time limits are in the modules
-- that use them.
pub record Client (F : Type 0) : Type 0 where
  pub peers : List Peer
  pub states : List (Bytes × PeerState F)
  pub hub : Fanout (Event F)

-- The body of a hello event.
pub record Hello (F : Type 0) : Type 0 where
  pub host : HostInfo
  pub recent : List (Snapshot F)
  pub interval_ms : ℕ

pub bool_eq : Bool → Bool → Bool
bool_eq true b = b
bool_eq false true = false
bool_eq false false = true

-- A fresh ring is full of zero values, so the zero snapshot is an argument.
module _ {F : Type 0} (zero_snapshot : Snapshot F) where
  pub fresh_state : Peer → PeerState F
  fresh_state p = record {
    peer = p;
    online = false;
    last_seen = 0;
    interval_ms = 0;
    host = none;
    latest = none;
    ring = Ring.empty zero_snapshot ring_cap;
  }

  pub fresh_states : List Peer → List (Bytes × PeerState F) → List (Bytes × PeerState F)
  unfolding fresh_state
  fresh_states [] m = m
  fresh_states (p ∷ ps) m = fresh_states ps (insert p.id (fresh_state p) m)

  pub new_client : List Peer → Client F
  unfolding fresh_states
  new_client peers = record { peers = peers; states = fresh_states peers []; hub = Fanout.init }

module _ {F : Type 0} where
  pub set_online : Peer → Bool → Client F → Option (Client F)
  unfolding bool_eq
  set_online p online c = lookup p.id c.states >>= λ st.
      if bool_eq st.online online
      then some c
      else (broadcast
            (record { id = p.id; snapshot = none; online = some online; last_seen = st.last_seen })
            c.hub
          >>= λ hub. some (record c {
            states = insert p.id (record st { online = online }) c.states;
            hub = hub;
          }))

  -- `if n := len(hello.Recent); n > 0`: the newest snapshot and the time of its arrival.
  note_latest : ℕ → List (Snapshot F) → PeerState F → Option (PeerState F)
  note_latest now recent st =
      if ltb 0 (length recent)
      then (get_elem? recent (length recent - 1) >>= λ newest.
          some (record st { latest = some newest; last_seen = now }))
      else some st

  pub apply_hello : Peer → Hello F → ℕ → Client F → Option (Client F)
  unfolding note_latest
  apply_hello p hello now c = lookup p.id c.states >>= λ st. seed st.ring hello.recent >>= λ ring.
      note_latest now hello.recent
        (record st { host = some hello.host; interval_ms = hello.interval_ms; ring = ring })
      >>= λ st'. some (record c { states = insert p.id st' c.states })

  pub apply_snapshot : Peer → Snapshot F → ℕ → Client F → Option (Client F)
  apply_snapshot p snap now c = lookup p.id c.states >>= λ st. Ring.push st.ring snap >>= λ ring.
      broadcast (record { id = p.id; snapshot = some snap; online = none; last_seen = now }) c.hub
      >>= λ hub. some (record c {
        states =
            insert p.id (record st { latest = some snap; ring = ring; last_seen = now }) c.states;
        hub = hub;
      })

  summary : Peer → PeerState F → Option (ServerSummary F)
  summary p st = recent_cpu (λ snap. snap.cpu.usage_pct) st.ring >>= λ cpu. some (record {
    id = p.id;
    name = p.name;
    is_local = false;
    online = st.online;
    last_seen = st.last_seen;
    interval_ms = st.interval_ms;
    host = st.host;
    latest = st.latest;
    recent_cpu = cpu;
  })

  summaries : List Peer → List (Bytes × PeerState F) → Option (List (ServerSummary F))
  unfolding summary
  summaries [] states = some []
  summaries (p ∷ ps) states = lookup p.id states >>= λ st.
      summary p st >>= λ sum. summaries ps states >>= λ sums. some (sum ∷ sums)

  pub servers : Client F → Option (List (ServerSummary F))
  unfolding summaries
  servers c = summaries c.peers c.states

  -- The inner option: nil for an unknown id.
  pub recent : Bytes → Client F → Option (Option (List (Snapshot F)))
  recent id c = elim (lookup id c.states) [
    | none ↦ some none
    | some st ↦ snapshots st.ring >>= λ snaps. some (some snaps)
  ]

  -- The flag says whether the id is known; a peer that was never reached has the zero value.
  pub host_info : HostInfo → Bytes → Client F → HostInfo × Bool
  host_info zero_host id c = elim (lookup id c.states) [
    | none ↦ (zero_host, false)
    | some st ↦ elim st.host [ none ↦ (zero_host, true) | some host ↦ (host, true) ]
  ]

  pub interval_ms : Bytes → Client F → ℕ
  interval_ms id c = elim (lookup id c.states) [ none ↦ 0 | some st ↦ st.interval_ms ]
