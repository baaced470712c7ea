-- ===== src/Server/Federation/Hello.antt =====
-- internal/server/federation.go: the order of the events in `handleServerLive`.
use owlwatch.Prelude.{
  ℕ, zero, suc, ◌≡◌, inl, inr, sym, subst, Bool, true, false, List, [], ◌∷◌, ◌++◌, take, Option,
  none, some, Bytes, same, Bool-cases, Option-cases, some-inj,
}
use owlwatch.Metrics.{ServerSummary}
use owlwatch.Peers.Client.{Event}
use owlwatch.Server.Federation.{
  View, Greeting, Message, hello, status, snapshot, fleet_snapshot, servers, ping, peer_summary,
}
use owlwatch.Server.Federation.Streams.{
  Wake, done, closed, event, tick, peer_hello, cached_hello, offline_status, status_of, sample_of,
  live_loop, live_messages,
}

absurd_none : {A : Type 0} {a : A} → none ≡ some a → ⊥
absurd_none e = absurd cc

module _ {F : Type 0} where
  -- No snapshot comes before the hello, and there is one hello at most; the flag says whether one
  -- has been sent already.
  abbrev pub Ordered : Bool → List (Message F) → Type 0
  Ordered b [] = Unit
  Ordered false (hello g ∷ ms) = Ordered true ms
  Ordered true (hello g ∷ ms) = ⊥
  Ordered false (snapshot s ∷ ms) = ⊥
  Ordered true (snapshot s ∷ ms) = Ordered true ms
  Ordered b (status id on t ∷ ms) = Ordered b ms
  Ordered b (fleet_snapshot id s ∷ ms) = Ordered b ms
  Ordered b (servers sums ∷ ms) = Ordered b ms
  Ordered b (ping ∷ ms) = Ordered b ms

  status_of-Ordered :
      (b : Bool) (id : Bytes) (ev : Event F) (ms : List (Message F))
      → Ordered b ms
      → Ordered b (status_of id ev ++ ms)
  unfolding status_of
  status_of-Ordered b id ev ms h = elim (Option-cases ev.online) [
    | inl e ↦ rw (e, status_of) h
    | inr (on, e) ↦ rw (e, status_of) h
  ]

  sample_of-Ordered :
      (ev : Event F) (ms : List (Message F))
      → Ordered true ms
      → Ordered true (sample_of true ev ++ ms)
  unfolding sample_of
  sample_of-Ordered ev ms h = elim (Option-cases ev.online) [
    | inr (on, e) ↦ rw (e, sample_of) h
    | inl e ↦ elim (Option-cases ev.snapshot) [
      | inl n ↦ rw (e, n, sample_of) h
      | inr (s, n) ↦ rw (e, n, sample_of) h
    ]
  ]

  no_sample-Ordered :
      (ev : Event F) (ms : List (Message F))
      → Ordered false ms
      → Ordered false (sample_of false ev ++ ms)
  unfolding sample_of
  no_sample-Ordered ev ms h = elim (Option-cases ev.online) [
    | inr (on, e) ↦ rw (e, sample_of) h
    | inl e ↦ elim (Option-cases ev.snapshot) [
      | inl n ↦ rw (e, n, sample_of) h
      | inr (s, n) ↦ rw (e, n, sample_of) h
    ]
  ]

  offline_status-Ordered :
      (b : Bool) (id : Bytes) (o : Option (ServerSummary F)) (ms : List (Message F))
      → Ordered b ms
      → Ordered b (offline_status id o ++ ms)
  unfolding offline_status
  offline_status-Ordered b id none ms h = h
  offline_status-Ordered b id (some sum) ms h = elim (Option-cases sum.host) [
    | inl e ↦ rw (e, offline_status) h
    | inr (host, e) ↦ elim (Bool-cases sum.online) [
      | inl on ↦ rw (e, on, offline_status) h
      | inr off ↦ rw (e, off, offline_status) h
    ]
  ]

  -- What the cache yields is a hello.
  cached_hello_lem :
      (v : Option (View F)) (id : Bytes) (m : Message F)
      → cached_hello v id ≡ some m
      → (g : Greeting F) × (m ≡ hello g)
  unfolding cached_hello peer_hello
  cached_hello_lem v id m h = elim (Option-cases (peer_summary v id)) [
    | inl e ↦ absurd (absurd_none (simp (e, cached_hello) at h))
    | inr (sum, e) ↦ elim (Option-cases sum.host) [
      | inl n ↦ absurd (absurd_none (simp (e, n, cached_hello) at h))
      | inr (host, n) ↦ (_, sym (some-inj (simp (e, n, cached_hello) at h)))
    ]
  ]

  first_hello-Ordered :
      (v : Option (View F)) (id : Bytes) (m : Message F) (ms : List (Message F))
      → cached_hello v id ≡ some m
      → Ordered true ms
      → Ordered false (m ∷ ms)
  first_hello-Ordered v id m ms e h =
      let (g, is) = cached_hello_lem v id m e in subst (λ m'. Ordered false (m' ∷ ms)) (sym is) h

  live_loop-Ordered :
      (id : Bytes) (b : Bool) (wakes : List (Wake F)) → Ordered b (live_loop id b wakes)
  unfolding live_loop
  live_loop-Ordered id b [] = tt
  live_loop-Ordered id b (done ∷ rest) = tt
  live_loop-Ordered id b (closed ∷ rest) = tt
  live_loop-Ordered id b (tick ∷ rest) = live_loop-Ordered id b rest
  live_loop-Ordered id true (event ev v ∷ rest) = elim (Bool-cases (same ev.id id)) [
    | inr ne ↦ rw (ne, live_loop) (live_loop-Ordered id true rest)
    | inl e ↦
        rw (e, live_loop)
          (status_of-Ordered true id ev _ (sample_of-Ordered ev _ (live_loop-Ordered id true rest)))
  ]
  live_loop-Ordered id false (event ev v ∷ rest) = elim (Bool-cases (same ev.id id)) [
    | inr ne ↦ rw (ne, live_loop) (live_loop-Ordered id false rest)
    | inl e ↦ elim (Option-cases (cached_hello v id)) [
      | inl n ↦
          rw (e, n, live_loop)
            (status_of-Ordered false id ev _
              (no_sample-Ordered ev _ (live_loop-Ordered id false rest)))
      | inr (m, n) ↦
          rw (e, n, live_loop)
            (first_hello-Ordered v id m _ n
              (status_of-Ordered true id ev _ (live_loop-Ordered id true rest)))
    ]
  ]

  take-Ordered : (n : ℕ) (b : Bool) (ms : List (Message F)) → Ordered b ms → Ordered b (take n ms)
  take-Ordered zero b ms h = tt
  take-Ordered (suc n) b [] h = tt
  take-Ordered (suc n) false (hello g ∷ ms) h = take-Ordered n true ms h
  take-Ordered (suc n) true (hello g ∷ ms) h = absurd h
  take-Ordered (suc n) false (snapshot s ∷ ms) h = absurd h
  take-Ordered (suc n) true (snapshot s ∷ ms) h = take-Ordered n true ms h
  take-Ordered (suc n) b (status id on t ∷ ms) h = take-Ordered n b ms h
  take-Ordered (suc n) b (fleet_snapshot id s ∷ ms) h = take-Ordered n b ms h
  take-Ordered (suc n) b (servers sums ∷ ms) h = take-Ordered n b ms h
  take-Ordered (suc n) b (ping ∷ ms) h = take-Ordered n b ms h

  -- However the cached fleet changes while a peer's live stream runs, and however many of its writes
  -- succeed, the viewer gets at most one hello, and never a snapshot before it.
  pub live_messages-Ordered :
      (v : Option (View F)) (id : Bytes) (wakes : List (Wake F)) (writes : ℕ)
      → Ordered false (take writes (live_messages v id wakes))
  unfolding live_messages
  live_messages-Ordered v id wakes writes =
      take-Ordered writes false (live_messages v id wakes)
        (elim (Option-cases (cached_hello v id)) [
          | inl n ↦
              rw (n, live_messages)
                (offline_status-Ordered false id (peer_summary v id) _
                  (live_loop-Ordered id false wakes))
          | inr (m, n) ↦
              rw (n, live_messages)
                (first_hello-Ordered v id m _ n (
                  offline_status-Ordered true id (peer_summary v id) _
                    (live_loop-Ordered id true wakes)))
        ])
