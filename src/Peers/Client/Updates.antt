-- ===== src/Peers/Client/Updates.antt =====
-- internal/peers/client.go: `applySnapshot`, `applyHello` and `setOnline`, one at a time.
use owlwatch.Prelude.{
  ℕ, ◌-◌, ◌≡◌, inl, inr, refl, sym, ap, subst, ◌∙◌, arith, Bool, true, List, [], ◌∷◌, ◌++◌, none,
  some, ltb, if◌then◌else◌, length, get_elem?, last, Bytes, same, lookup, insert, lookup-insert,
  Bool-cases, ltb→lt, same→eq,
}
use owlwatch.Metrics.{Snapshot}
use owlwatch.Ring
use owlwatch.Ring.{Ring, snapshots, seed}
use owlwatch.Ring.Contents.{snapshots-total, get_elem?-total}
use owlwatch.Ring.Push.{push_refines}
use owlwatch.Ring.Seed.{seed_refines}
use owlwatch.Fanout.{Fanout, broadcast}
use owlwatch.Fanout.Invariant.{broadcast-IsValid}
use owlwatch.Peers.{Peer}
use owlwatch.Peers.Client.{
  Client, PeerState, Event, Hello, ring_cap, set_online, bool_eq, note_latest, apply_hello,
  apply_snapshot, recent,
}
use owlwatch.Peers.Client.Invariant.{IsValid, StateValid, store-IsValid}

bool_eq→eq : (a b : Bool) → bool_eq a b ≡ true → a ≡ b
unfolding bool_eq
bool_eq→eq a b h = ground arith

module _ {F : Type 0} where
  -- The client after an update: well formed, of the same peers, with `st'` for `p` and every other
  -- state as it was.
  pub record Updated (c : Client F) (p : Peer) (st' : PeerState F) (c' : Client F) : Type 0 where
    pub valid : IsValid c'
    pub same_peers : c'.peers ≡ c.peers
    pub states :
        (j : Bytes) → lookup j c'.states ≡ (if same p.id j then some st' else lookup j c.states)

  stored :
      (c : Client F) (p : Peer) (st' : PeerState F) (h : Fanout (Event F))
      → IsValid (record c { states = insert p.id st' c.states; hub = h })
      → Updated c p st' (record c { states = insert p.id st' c.states; hub = h })
  stored c p st' h v = record {
    valid = v;
    same_peers = refl;
    states = λ j. lookup-insert p.id j st' c.states;
  }

  -- A live snapshot of a known peer is recorded without a panic: it becomes the latest, the time of
  -- its arrival is noted, the ring keeps the newest 150, and it is offered to every subscriber with
  -- the peer's id. The peer's other fields and the other peers stay as they are.
  pub apply_snapshot_lem :
      (p : Peer) (snap : Snapshot F) (now : ℕ) (c : Client F) (st : PeerState F)
      (xs : List (Snapshot F))
      → IsValid c
      → lookup p.id c.states ≡ some st
      → snapshots st.ring ≡ some xs
      → (c' : Client F) × (ring : Ring (Snapshot F)) × (apply_snapshot p snap now c ≡ some c')
        × Updated c p (record st { latest = some snap; last_seen = now; ring = ring }) c'
        × (snapshots ring ≡ some (last ring_cap (xs ++ snap ∷ [])))
        × (broadcast
              (record { id = p.id; snapshot = some snap; online = none; last_seen = now })
              c.hub
            ≡ some c'.hub)
  unfolding apply_snapshot
  apply_snapshot_lem p snap now c st xs v e h =
      let sv = v.states_valid p.id st e in
      let (ring, pushed, rv, size, holds) = push_refines st.ring snap xs sv.ring_valid h in
      let (hub, sent, hv) = broadcast-IsValid _ c.hub v.hub_valid in
      let st' : PeerState F = record st { latest = some snap; ring = ring; last_seen = now } in
      let sv' : StateValid st' = record { ring_valid = rv; ring_size = size ∙ sv.ring_size } in
      (
        record c { states = insert p.id st' c.states; hub = hub },
        ring,
        rw (e, pushed, sent),
        stored c p st' hub (store-IsValid c p.id st' hub v sv' hv),
        holds ∙ ap (λ n. some (last n (xs ++ snap ∷ []))) sv.ring_size,
        sent,
      )

  note_latest_lem :
      (now : ℕ) (recent : List (Snapshot F)) (st : PeerState F)
      → (st' : PeerState F) × (note_latest now recent st ≡ some st')
        × (st'.ring ≡ st.ring)
        × (st'.online ≡ st.online)
        × (st'.host ≡ st.host)
        × (st'.interval_ms ≡ st.interval_ms)
        × (if ltb 0 (length recent)
            then (st'.latest ≡ get_elem? recent (length recent - 1)) × (st'.last_seen ≡ now)
            else (st'.latest ≡ st.latest) × (st'.last_seen ≡ st.last_seen))
  unfolding note_latest
  note_latest_lem now recent st = elim (Bool-cases (ltb 0 (length recent))) [
    | inl some_sent ↦
        let (x, e) =
          get_elem?-total recent (length recent - 1) (omega (arith, ltb→lt _ _ some_sent)) in
        (
          record st { latest = some x; last_seen = now },
          rw (some_sent, e),
          refl,
          refl,
          refl,
          refl,
          rw some_sent (sym e, refl),
        )
    | inr none_sent ↦ (st, rw none_sent, refl, refl, refl, refl, rw none_sent (refl, refl))
  ]

  -- A hello of a known peer never panics: the host and the interval are cached, the ring holds the
  -- newest 150 of the snapshots sent, whatever it held before, and if any were sent the newest is
  -- the latest and the time is noted; otherwise both stay. The connection state stays as it is,
  -- nothing is broadcast, and the other peers are not touched.
  pub apply_hello_lem :
      (p : Peer) (hello : Hello F) (now : ℕ) (c : Client F) (st : PeerState F)
      → IsValid c
      → lookup p.id c.states ≡ some st
      → (c' : Client F) × (st' : PeerState F) × (apply_hello p hello now c ≡ some c')
        × Updated c p st' c'
        × (c'.hub ≡ c.hub)
        × (snapshots st'.ring ≡ some (last ring_cap hello.recent))
        × (st'.host ≡ some hello.host)
        × (st'.interval_ms ≡ hello.interval_ms)
        × (st'.online ≡ st.online)
        × (if ltb 0 (length hello.recent)
            then (st'.latest ≡ get_elem? hello.recent (length hello.recent - 1))
              × (st'.last_seen ≡ now)
            else (st'.latest ≡ st.latest) × (st'.last_seen ≡ st.last_seen))
  unfolding apply_hello
  apply_hello_lem p hello now c st v e =
      let sv = v.states_valid p.id st e in
      let (ring, seeded, rv, size, holds) =
        seed_refines st.ring hello.recent (omega (arith, sv.ring_size)) in
      let cached : PeerState F = record st {
        host = some hello.host;
        interval_ms = hello.interval_ms;
        ring = ring;
      } in
      let (st', noted, same_ring, same_online, same_host, same_interval, rest) =
        note_latest_lem now hello.recent cached in
      let sv' : StateValid st' = record {
        ring_valid = subst Ring.Contents.IsValid (sym same_ring) rv;
        ring_size = ap (λ (r : Ring (Snapshot F)). length r.buf) same_ring ∙ size ∙ sv.ring_size;
      } in
      (
        record c { states = insert p.id st' c.states },
        st',
        rw (e, seeded, noted),
        stored c p st' c.hub (store-IsValid c p.id st' c.hub v sv' v.hub_valid),
        refl,
        ap snapshots same_ring ∙ holds ∙ ap (λ n. some (last n hello.recent)) sv.ring_size,
        same_host,
        same_interval,
        same_online,
        rest,
      )

  unchanged :
      (p : Peer) (online : Bool) (c : Client F) (st : PeerState F)
      → lookup p.id c.states ≡ some st
      → st.online ≡ online
      → (j : Bytes)
      → lookup j c.states
        ≡ (if same p.id j then some (record st { online = online }) else lookup j c.states)
  unchanged p online c st e old j = elim (Bool-cases (same p.id j)) [
    | inl hit ↦
        let at_j = ap (λ k. lookup k c.states) (sym (same→eq p.id j hit)) in
        rw hit (at_j ∙ e ∙ ap (λ o. some (record st { online = o })) old)
    | inr miss ↦ rw miss refl
  ]

  -- Recording the connection state of a known peer never panics and changes only that field. Every
  -- transition is offered to all subscribers once, with the peer's id and the time it was last seen;
  -- repeating the state that is already recorded broadcasts nothing.
  pub set_online_lem :
      (p : Peer) (online : Bool) (c : Client F) (st : PeerState F)
      → IsValid c
      → lookup p.id c.states ≡ some st
      → (c' : Client F) × (set_online p online c ≡ some c')
        × Updated c p (record st { online = online }) c'
        × (if bool_eq st.online online
            then c'.hub ≡ c.hub
            else (broadcast
                  (record {
                    id = p.id;
                    snapshot = none;
                    online = some online;
                    last_seen = st.last_seen;
                  })
                  c.hub
                ≡ some c'.hub))
  unfolding set_online
  set_online_lem p online c st v e = elim (Bool-cases (bool_eq st.online online)) [
    | inl again ↦ (
      c,
      rw (e, again),
      record {
        valid = v;
        same_peers = refl;
        states = unchanged p online c st e (bool_eq→eq _ _ again);
      },
      rw again refl,
    )
    | inr change ↦
        let ev : Event F = record {
          id = p.id;
          snapshot = none;
          online = some online;
          last_seen = st.last_seen;
        } in
        let (hub, sent, hv) = broadcast-IsValid ev c.hub v.hub_valid in
        let sv = v.states_valid p.id st e in
        let st' : PeerState F = record st { online = online } in
        let sv' : StateValid st' = record {
          ring_valid = sv.ring_valid;
          ring_size = sv.ring_size;
        } in
        (
          record c { states = insert p.id st' c.states; hub = hub },
          rw (e, change, sent),
          stored c p st' hub (store-IsValid c p.id st' hub v sv' hv),
          rw change sent,
        )
  ]
