-- ===== src/Peers/Client/Fleet.antt =====
-- internal/peers/client.go: `Servers`, and any run of updates from a new client.
use owlwatch.Prelude.{
  ℕ, ◌≤◌, ◌≡◌, refl, sym, ap, ap₂, subst, ◌∙◌, Bool, false, List, [], ◌∷◌, Option, some, map,
  length, Bytes, lookup, ◌>>=◌, All, Member, All-Member,
}
use owlwatch.Metrics.{Snapshot, ServerSummary}
use owlwatch.Ring.{snapshots, recent_cpu_of}
use owlwatch.Ring.Contents.{snapshots-total}
use owlwatch.Ring.Series.{recent_cpu-eq-recent_cpu_of, recent_cpu_of-total}
use owlwatch.Fanout
use owlwatch.Fanout.{Fanout}
use owlwatch.Fanout.Invariant.{step-IsValid}
use owlwatch.Peers.{Peer}
use owlwatch.Peers.Client.{
  Client, PeerState, Event, Hello, new_client, set_online, apply_hello, apply_snapshot, summary,
  summaries, servers,
}
use owlwatch.Peers.Client.Invariant.{IsValid, StateValid, StatesValid, Known, new_client-IsValid}
use owlwatch.Peers.Client.Updates.{apply_snapshot_lem, apply_hello_lem, set_online_lem}

module _ {F : Type 0} where
  abbrev pub usage : Snapshot F → F
  usage snap = snap.cpu.usage_pct

  -- What the summary of a peer says of its cached state `st` and of the snapshots `xs` in its ring.
  pub record Reports (states : List (Bytes × PeerState F)) (sum : ServerSummary F) : Type 0 where
    pub state : PeerState F
    pub ring_content : List (Snapshot F)
    pub cached : lookup sum.id states ≡ some state
    pub holds : snapshots state.ring ≡ some ring_content
    pub series : recent_cpu_of usage ring_content ≡ some sum.recent_cpu
    pub few : length sum.recent_cpu ≤ 60
    pub online : sum.online ≡ state.online
    pub last_seen : sum.last_seen ≡ state.last_seen
    pub interval : sum.interval_ms ≡ state.interval_ms
    pub host : sum.host ≡ state.host
    pub latest : sum.latest ≡ state.latest
    pub remote : sum.is_local ≡ false

  summary_lem :
      (states : List (Bytes × PeerState F)) (p : Peer) (st : PeerState F)
      → lookup p.id states ≡ some st
      → StateValid st
      → (sum : ServerSummary F) × (summary p st ≡ some sum)
        × (sum.id ≡ p.id)
        × (sum.name ≡ p.name)
        × Reports states sum
  unfolding summary
  summary_lem states p st e v =
      let (xs, holds, size) = snapshots-total st.ring v.ring_valid in
      let (cpu, series, few) = recent_cpu_of-total usage xs in
      let read = recent_cpu-eq-recent_cpu_of usage st.ring xs v.ring_valid holds in
      (
        record {
          id = p.id;
          name = p.name;
          is_local = false;
          online = st.online;
          last_seen = st.last_seen;
          interval_ms = st.interval_ms;
          host = st.host;
          latest = st.latest;
          recent_cpu = cpu;
        },
        rw (read, series),
        refl,
        refl,
        record {
          state = st;
          ring_content = xs;
          cached = e;
          holds = holds;
          series = series;
          few = few;
          online = refl;
          last_seen = refl;
          interval = refl;
          host = refl;
          latest = refl;
          remote = refl;
        },
      )

  summaries_lem :
      (states : List (Bytes × PeerState F)) (ps : List Peer)
      → StatesValid states
      → All (Known states) ps
      → (sums : List (ServerSummary F)) × (summaries ps states ≡ some sums)
        × (map (λ s. s.id) sums ≡ map (λ p. p.id) ps)
        × (map (λ s. s.name) sums ≡ map (λ p. p.name) ps)
        × All (Reports states) sums
  unfolding summaries
  summaries_lem states [] v k = ([], refl, refl, refl, tt)
  summaries_lem states (p ∷ ps) v ((st, e), k) =
      let (sum, made, same_id, same_name, said) = summary_lem states p st e (v p.id st e) in
      let (sums, rest, ids, names, all) = summaries_lem states ps v k in
      (sum ∷ sums, rw (e, made, rest), ap₂ ◌∷◌ same_id ids, ap₂ ◌∷◌ same_name names, (said, all))

  -- The fleet report of a well-formed client never panics. It lists the configured peers, in their
  -- order and under their names, each with its cached state, and with the CPU series of the
  -- snapshots in its ring, which has at most 60 values.
  pub servers_lem :
      (c : Client F)
      → IsValid c
      → (sums : List (ServerSummary F)) × (servers c ≡ some sums)
        × (map (λ s. s.id) sums ≡ map (λ p. p.id) c.peers)
        × (map (λ s. s.name) sums ≡ map (λ p. p.name) c.peers)
        × All (Reports c.states) sums
  unfolding servers
  servers_lem c v = summaries_lem c.states c.peers v.states_valid v.known

-- Everything that changes a client: a peer's connection, its hellos and snapshots, and the calls of
-- the subscribers.
pub data Update (F : Type 0) : Type 0 where
  goes : Peer → Bool → Update F
  greets : Peer → Hello F → ℕ → Update F
  samples : Peer → Snapshot F → ℕ → Update F
  registry : Fanout.Op (Event F) → Update F

module _ {F : Type 0} where
  on_hub : Client F → Option (Fanout (Event F)) → Option (Client F)
  on_hub c o = o >>= λ hub. some (record c { hub = hub })

  pub apply : Update F → Client F → Option (Client F)
  unfolding on_hub
  apply (goes p online) c = set_online p online c
  apply (greets p hello now) c = apply_hello p hello now c
  apply (samples p snap now) c = apply_snapshot p snap now c
  apply (registry op) c = on_hub c (Fanout.step op c.hub)

  pub apply_all : List (Update F) → Client F → Option (Client F)
  unfolding apply
  apply_all [] c = some c
  apply_all (u ∷ us) c = apply u c >>= λ c'. apply_all us c'

  -- An update of a peer is about a configured one: the connection loops are started for those alone.
  abbrev pub Configured : List Peer → Update F → Type 0
  Configured ps (goes p online) = Member p ps
  Configured ps (greets p hello now) = Member p ps
  Configured ps (samples p snap now) = Member p ps
  Configured ps (registry op) = Unit

  Kept : List Peer → Option (Client F) → Type 0
  Kept ps o = (c' : Client F) × (o ≡ some c') × IsValid c' × (c'.peers ≡ ps)

  apply_lem :
      (u : Update F) (c : Client F) → Configured c.peers u → IsValid c → Kept c.peers (apply u c)
  unfolding apply Kept
  apply_lem (goes p online) c m v =
      let (st, e) = All-Member (Known c.states) p c.peers v.known m in
      let (c', done, up, sent) = set_online_lem p online c st v e in
      (c', done, up.valid, up.same_peers)
  apply_lem (greets p hello now) c m v =
      let (st, e) = All-Member (Known c.states) p c.peers v.known m in
      let facts = apply_hello_lem p hello now c st v e in
      (facts.0, facts.2, facts.3.valid, facts.3.same_peers)
  apply_lem (samples p snap now) c m v =
      let (st, e) = All-Member (Known c.states) p c.peers v.known m in
      let (xs, holds, size) = snapshots-total st.ring (v.states_valid p.id st e).ring_valid in
      let (c', ring, done, up, holds', sent) = apply_snapshot_lem p snap now c st xs v e holds in
      (c', done, up.valid, up.same_peers)
  apply_lem (registry op) c m v =
      let (hub, done, hv) = step-IsValid op c.hub v.hub_valid in
      (
        record c { hub = hub },
        rw done,
        record { states_valid = v.states_valid; known = v.known; hub_valid = hv },
        refl,
      )

  apply_all_lem :
      (us : List (Update F)) (c : Client F)
      → All (Configured c.peers) us
      → IsValid c
      → Kept c.peers (apply_all us c)
  unfolding apply_all Kept
  apply_all_lem [] c a v = (c, refl, v, refl)
  apply_all_lem (u ∷ us) c (here, rest) v =
      let (c', done, v', same) = apply_lem u c here v in
      let (c'', after, v'', same') =
        apply_all_lem us c' (subst (λ ps. All (Configured ps) us) (sym same) rest) v' in
      (c'', rw done after, v'', same' ∙ same)

  -- From a new client, no sequence of connection changes, hellos and snapshots of configured peers,
  -- mixed with any calls of subscribers, makes the hub panic; the state stays well formed, and the
  -- fleet report answers for exactly the configured peers, in their order.
  pub apply_all-new_client :
      (z : Snapshot F) (ps : List Peer) (us : List (Update F))
      → All (Configured ps) us
      → (c : Client F) × (sums : List (ServerSummary F)) × (apply_all us (new_client z ps) ≡ some c)
        × IsValid c
        × (servers c ≡ some sums)
        × (map (λ s. s.id) sums ≡ map (λ p. p.id) ps)
  unfolding new_client Kept
  apply_all-new_client z ps us a =
      let (c, done, v, same) = apply_all_lem us (new_client z ps) a (new_client-IsValid z ps) in
      let (sums, reported, ids, names, said) = servers_lem c v in
      (c, sums, done, v, reported, ids ∙ ap (map (λ p. p.id)) same)
