-- ===== src/Peers/Client/Invariant.antt =====
-- internal/peers/client.go: the invariant of the cached fleet state.
use mathlib.Core.List.{append-nil, append_assoc}
use owlwatch.Prelude.{
  ◌≡◌, inl, inr, sym, ap, subst, ◌∙◌, arith, Bool, List, [], ◌∷◌, ◌++◌, Option, some, if◌then◌else◌,
  length, All, All-map, some-inj, Bytes, same, lookup, insert, lookup-insert, lookup-insert_self,
  All-append, Bool-cases,
}
use owlwatch.Metrics.{Snapshot}
use owlwatch.Ring.Contents.{snapshots-total, empty-IsValid, length-empty, get_elem?-total}
use owlwatch.Ring.Contents
use owlwatch.Fanout
use owlwatch.Fanout.{Fanout, broadcast, broadcasts}
use owlwatch.Fanout.Invariant
use owlwatch.Peers.{Peer}
use owlwatch.Peers.Client.{
  Client, PeerState, Event, ring_cap, fresh_state, fresh_states, new_client,
}

module _ {F : Type 0} where
  -- The ring of each peer is valid and has its 150 slots.
  pub record StateValid (st : PeerState F) : Type 0 where
    pub ring_valid : Contents.IsValid st.ring
    pub ring_size : length st.ring.buf ≡ ring_cap

  abbrev pub Known : List (Bytes × PeerState F) → Peer → Type 0
  Known m p = (st : PeerState F) × (lookup p.id m ≡ some st)

  abbrev pub StatesValid : List (Bytes × PeerState F) → Type 0
  StatesValid m = (id : Bytes) (st : PeerState F) → lookup id m ≡ some st → StateValid st

  pub record IsValid (c : Client F) : Type 0 where
    pub states_valid : StatesValid c.states
    pub known : All (Known c.states) c.peers
    pub hub_valid : Fanout.Invariant.IsValid c.hub

  -- What `lookup-insert` branches to.
  abbrev choose : Option (PeerState F) → PeerState F → Bool → Option (PeerState F)
  choose old st b = if b then some st else old

  insert-StatesValid :
      (k : Bytes) (st : PeerState F) (m : List (Bytes × PeerState F))
      → StateValid st
      → StatesValid m
      → StatesValid (insert k st m)
  insert-StatesValid k st m v all id st' e = elim (Bool-cases (same k id)) [
    | inl hit ↦
        subst StateValid
          (some-inj (sym (lookup-insert k id st m ∙ ap (choose (lookup id m) st) hit) ∙ e)) v
    | inr miss ↦ all id st' (sym (lookup-insert k id st m ∙ ap (choose (lookup id m) st) miss) ∙ e)
  ]

  insert-Known :
      (k : Bytes) (st : PeerState F) (m : List (Bytes × PeerState F)) (p : Peer)
      → Known m p
      → Known (insert k st m) p
  insert-Known k st m p (old, e) = elim (Bool-cases (same k p.id)) [
    | inl hit ↦ (st, rw (lookup-insert, hit))
    | inr miss ↦ (old, rw (lookup-insert, miss) e)
  ]

  fresh_state-StateValid : (z : Snapshot F) (p : Peer) → StateValid (fresh_state z p)
  unfolding fresh_state
  fresh_state-StateValid z p = record {
    ring_valid = empty-IsValid z ring_cap (omega arith);
    ring_size = length-empty z ring_cap;
  }

  nothing : (id : Bytes) {st : PeerState F} → lookup id [] ≡ some st → ⊥
  unfolding lookup
  nothing id e = cc

  fresh_states_lem :
      (z : Snapshot F) (ps qs : List Peer) (m : List (Bytes × PeerState F))
      → StatesValid m
      → All (Known m) qs
      → StatesValid (fresh_states z ps m) × All (Known (fresh_states z ps m)) (qs ++ ps)
  unfolding fresh_states
  fresh_states_lem z [] qs m v k = (v, rw append-nil k)
  fresh_states_lem z (p ∷ ps) qs m v k =
      let m' = insert p.id (fresh_state z p) m in
      let (v', k') =
        fresh_states_lem z ps (qs ++ p ∷ []) m'
          (insert-StatesValid p.id (fresh_state z p) m (fresh_state-StateValid z p) v)
          (All-append (Known m') qs (p ∷ []) (All-map (insert-Known p.id _ m) qs k)
            ((fresh_state z p, lookup-insert_self p.id _ m), tt)) in
      (v', subst (All (Known (fresh_states z ps m'))) (append_assoc qs (p ∷ []) ps) k')

  -- A new client is well formed: every configured peer has a state.
  pub new_client-IsValid : (z : Snapshot F) (ps : List Peer) → IsValid (new_client z ps)
  unfolding new_client
  new_client-IsValid z ps =
      let (v, k) = fresh_states_lem z ps [] [] (λ id st e. absurd (nothing id e)) tt in
      record { states_valid = v; known = k; hub_valid = Fanout.Invariant.init-IsValid }

  -- Storing a valid state beside a valid registry keeps the client well formed.
  pub store-IsValid :
      (c : Client F) (k : Bytes) (st : PeerState F) (h : Fanout (Event F))
      → IsValid c
      → StateValid st
      → Fanout.Invariant.IsValid h
      → IsValid (record c { states = insert k st c.states; hub = h })
  store-IsValid c k st h v vs vh = record {
    states_valid = insert-StatesValid k st c.states vs v.states_valid;
    known = All-map (insert-Known k st c.states) c.peers v.known;
    hub_valid = vh;
  }
