-- ===== src/Server/Federation.antt =====
-- internal/server/federation.go: the fleet routes and their streams. A view of the fleet is what
-- the hub's client answers at one moment; a handler that asks it again has another view.
pub mod Streams
pub mod Routes
pub mod Fleet
pub mod Hello
pub mod Reboot
pub mod Actions
mod Examples
use owlwatch.Prelude.{
  ℕ, Bool, true, false, not, ◌&&◌, List, [], ◌∷◌, ◌++◌, take, map, Option, none, some, ltb, ◌==◌,
  if◌then◌else◌, Bytes, bytes, same,
}
use owlwatch.Metrics.{Snapshot, HostInfo, ServerSummary}
use owlwatch.Ring.{recent_cpu_of}

-- The local collector and the server's own settings.
pub record Local (F : Type 0) : Type 0 where
  pub host : HostInfo
  pub interval_ms : ℕ
  pub recent : List (Snapshot F)
  pub latest : Option (Snapshot F)

pub record View (F : Type 0) : Type 0 where
  pub fleet : List (ServerSummary F)
  pub recent : Bytes → List (Snapshot F)

module _ {F : Type 0} where
  -- `none` is a panic of recentCPU.
  unfoldable pub local_summary : Local F → Option (ServerSummary F)
  local_summary l = elim (recent_cpu_of (λ snap. snap.cpu.usage_pct) l.recent) [
    | none ↦ none
    | some cpu ↦ some (record {
      id = bytes "local";
      name = l.host.hostname;
      is_local = true;
      online = true;
      last_seen = elim l.latest [ none ↦ 0 | some snap ↦ snap.ts ];
      interval_ms = l.interval_ms;
      host = some l.host;
      latest = l.latest;
      recent_cpu = cpu;
    })
  ]

  -- The test of `localAliasedBy` on one peer.
  unfoldable pub aliases : HostInfo → ServerSummary F → Bool
  aliases host sum = elim sum.host [
    | none ↦ false
    | some h ↦
        not (h.boot_time == 0) && same h.hostname host.hostname && (h.boot_time == host.boot_time)
  ]

  unfoldable pub aliased_in : HostInfo → List (ServerSummary F) → Bytes
  unfolding aliases
  aliased_in host [] = []
  aliased_in host (sum ∷ sums) =
      let rest = aliased_in host sums in if aliases host sum then sum.id else rest

  -- A standalone server has no peers.
  unfoldable pub local_aliased_by : Local F → Option (View F) → Bytes
  unfolding aliased_in
  local_aliased_by l none = []
  local_aliased_by l (some v) = aliased_in l.host v.fleet

  unfoldable pub peers_of : Option (View F) → List (ServerSummary F)
  peers_of none = []
  peers_of (some v) = v.fleet

  -- The fleet is asked for twice: by `localAliasedBy`, and for the list.
  unfoldable pub all_servers :
      Local F → Option (View F) → Option (View F) → Option (List (ServerSummary F))
  unfolding local_summary local_aliased_by peers_of
  all_servers l asked v = elim (same (local_aliased_by l asked) []) [
    | false ↦ some (peers_of v)
    | true ↦ elim (local_summary l) [ none ↦ none | some sum ↦ some (sum ∷ peers_of v) ]
  ]

  unfoldable pub find_summary : Bytes → List (ServerSummary F) → Option (ServerSummary F)
  find_summary id [] = none
  find_summary id (sum ∷ sums) =
      let rest = find_summary id sums in if same sum.id id then some sum else rest

  unfoldable pub peer_summary : Option (View F) → Bytes → Option (ServerSummary F)
  unfolding find_summary
  peer_summary none id = none
  peer_summary (some v) id = find_summary id v.fleet

-- The body of a hello event.
pub record Greeting (F : Type 0) : Type 0 where
  pub host : HostInfo
  pub recent : List (Snapshot F)
  pub interval_ms : ℕ

-- The events of the live streams.
pub data Message (F : Type 0) : Type 0 where
  hello : Greeting F → Message F
  status : Bytes → Bool → ℕ → Message F
  snapshot : Snapshot F → Message F
  fleet_snapshot : Bytes → Snapshot F → Message F
  servers : List (ServerSummary F) → Message F
  ping : Message F
