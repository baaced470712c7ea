-- ===== src/Server/Federation/Streams.antt =====
-- internal/server/federation.go: the live stream of one peer, and of the whole fleet. The handlers
-- return at the first write that fails, so what is sent is the first `writes` of their messages. A
-- message that cannot be marshalled is left out of this model.
use owlwatch.Prelude.{
  ℕ, ◌>>=◌, Bool, true, false, List, [], ◌∷◌, ◌++◌, take, Option, none, some, if◌then◌else◌, Bytes,
  bytes, same,
}
use owlwatch.Metrics.{Snapshot, HostInfo, ServerSummary}
use owlwatch.Peers.Client.{Event}
use owlwatch.Server.Federation.{
  Local, View, Message, hello, status, snapshot, fleet_snapshot, servers, ping, peer_summary,
  all_servers, local_aliased_by,
}

-- What wakes the loop of `handleServerLive`; an event comes with the view of the fleet at that
-- moment.
pub data Wake (F : Type 0) : Type 0 where
  done : Wake F
  closed : Wake F
  event : Event F → Option (View F) → Wake F
  tick : Wake F

-- What a request for a live stream gets: the stream of `handleLive`, or a status and messages.
pub data Answer (F : Type 0) : Type 0 where
  local_stream : Answer F
  stream : ℕ → List (Message F) → Answer F

module _ {F : Type 0} where
  unfoldable pub recent_of : Option (View F) → Bytes → List (Snapshot F)
  recent_of none id = []
  recent_of (some v) id = v.recent id

  unfoldable pub peer_hello : Option (View F) → ServerSummary F → HostInfo → Message F
  unfolding recent_of
  peer_hello v sum host =
      hello (record { host = host; recent = recent_of v sum.id; interval_ms = sum.interval_ms })

  -- The hello of a peer whose host is cached.
  unfoldable pub cached_hello : Option (View F) → Bytes → Option (Message F)
  unfolding peer_hello
  cached_hello v id = elim (peer_summary v id) [
    | none ↦ none
    | some sum ↦ elim sum.host [ none ↦ none | some host ↦ some (peer_hello v sum host) ]
  ]

  unfoldable pub offline_status : Bytes → Option (ServerSummary F) → List (Message F)
  offline_status id none = status id false 0 ∷ []
  offline_status id (some sum) = elim sum.host [
    | none ↦ status id false sum.last_seen ∷ []
    | some _ ↦ if sum.online then [] else status id false sum.last_seen ∷ []
  ]

  unfoldable pub status_of : Bytes → Event F → List (Message F)
  status_of id ev = elim ev.online [ none ↦ [] | some online ↦ status id online ev.last_seen ∷ [] ]

  -- The snapshot of an event without a status, once a hello is sent.
  unfoldable pub sample_of : Bool → Event F → List (Message F)
  sample_of hello_sent ev = elim ev.online [
    | some _ ↦ []
    | none ↦ elim ev.snapshot [
      | none ↦ []
      | some snap ↦ if hello_sent then snapshot snap ∷ [] else []
    ]
  ]

  unfoldable pub live_loop : Bytes → Bool → List (Wake F) → List (Message F)
  unfolding cached_hello status_of sample_of
  live_loop id hello_sent [] = []
  live_loop id hello_sent (done ∷ rest) = []
  live_loop id hello_sent (closed ∷ rest) = []
  live_loop id hello_sent (tick ∷ rest) = ping ∷ live_loop id hello_sent rest
  live_loop id true (event ev v ∷ rest) = elim (same ev.id id) [
    | false ↦ live_loop id true rest
    | true ↦ status_of id ev ++ (sample_of true ev ++ live_loop id true rest)
  ]
  live_loop id false (event ev v ∷ rest) = elim (same ev.id id) [
    | false ↦ live_loop id false rest
    | true ↦ elim (cached_hello v id) [
      | some h ↦ h ∷ (status_of id ev ++ live_loop id true rest)
      | none ↦ status_of id ev ++ (sample_of false ev ++ live_loop id false rest)
    ]
  ]

  -- What follows the start of the stream: the cached hello if there is one, then a status if the
  -- peer is offline or not yet seen, then the loop.
  unfoldable pub live_messages : Option (View F) → Bytes → List (Wake F) → List (Message F)
  unfolding cached_hello offline_status live_loop
  live_messages v id wakes = elim (cached_hello v id) [
    | some h ↦ h ∷ (offline_status id (peer_summary v id) ++ live_loop id true wakes)
    | none ↦ offline_status id (peer_summary v id) ++ live_loop id false wakes
  ]

  -- The id is looked up before the subscription, in `before`, and again after it, in `v`.
  unfoldable pub handle_server_live :
      Option (View F) → Option (View F) → Bool → ℕ → Bytes → List (Wake F) → Answer F
  unfolding live_messages
  handle_server_live before v flusher writes id wakes =
      if same id (bytes "local") then local_stream else elim (peer_summary before id) [
        | none ↦ stream 404 []
        | some _ ↦
            if flusher then stream 200 (take writes (live_messages v id wakes)) else stream 500 []
      ]

-- What wakes the loop of `handleOverviewLive`, with the view of the fleet at each read of it.
pub data FleetWake (F : Type 0) : Type 0 where
  ended : FleetWake F
  local_closed : FleetWake F
  peers_closed : FleetWake F
  local_sample : Snapshot F → Option (View F) → FleetWake F
  peer_event : Event F → Option (View F) → Option (View F) → FleetWake F
  resync : Option (View F) → Option (View F) → FleetWake F

module _ {F : Type 0} (l : Local F) where
  -- A local snapshot is the peer's to report when a peer is this machine.
  unfoldable pub local_message : Snapshot F → Option (View F) → List (Message F)
  local_message snap v =
      if same (local_aliased_by l v) [] then fleet_snapshot (bytes "local") snap ∷ [] else []

  unfoldable pub fleet_message : Option (View F) → Option (View F) → Option (List (Message F))
  fleet_message asked v = elim (all_servers l asked v) [
    | none ↦ none
    | some sums ↦ some (servers sums ∷ [])
  ]

  unfoldable pub peer_messages :
      Event F → Option (View F) → Option (View F) → Option (List (Message F))
  unfolding fleet_message
  peer_messages ev asked v = elim ev.snapshot [
    | some snap ↦ some (fleet_snapshot ev.id snap ∷ [])
    | none ↦ elim ev.online [
      | none ↦ some []
      | some online ↦ elim (fleet_message asked v) [
        | none ↦ none
        | some ms ↦ some (status ev.id online ev.last_seen ∷ ms)
      ]
    ]
  ]

  unfoldable pub overview_loop : List (FleetWake F) → Option (List (Message F))
  unfolding local_message fleet_message peer_messages
  overview_loop [] = some []
  overview_loop (ended ∷ rest) = some []
  overview_loop (local_closed ∷ rest) = some []
  overview_loop (peers_closed ∷ rest) = some []
  overview_loop (local_sample snap v ∷ rest) =
      overview_loop rest >>= λ ms. some (local_message snap v ++ ms)
  overview_loop (peer_event ev asked v ∷ rest) =
      peer_messages ev asked v >>= λ now. overview_loop rest >>= λ ms. some (now ++ ms)
  overview_loop (resync asked v ∷ rest) =
      fleet_message asked v >>= λ now. overview_loop rest >>= λ ms. some (ping ∷ (now ++ ms))

  -- `none` is a panic.
  unfoldable pub handle_overview_live :
      Option (View F)
      → Option (View F)
      → Bool
      → ℕ
      → List (FleetWake F)
      → Option (ℕ × List (Message F))
  unfolding overview_loop
  handle_overview_live asked v flusher writes wakes =
      if flusher
      then (fleet_message asked v >>= λ first.
          overview_loop wakes >>= λ ms. some (200, take writes (first ++ ms)))
      else some (500, [])
