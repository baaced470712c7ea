-- ===== src/Collector/Feed/History.antt =====
-- internal/collector/collector.go: what `Recent` and `Latest` answer after any run of the feed.
use owlwatch.Prelude.{
  ℕ, ◌+◌, ◌-◌, ◌<◌, ◌≡◌, refl, sym, ap, subst, ◌∙◌, arith, Bool, true, false, List, [], ◌∷◌, ◌++◌,
  Option, some, length, last, drop, dec_lt, drop-append, drop-drop, drop-nil, length-append,
  length-last, ◌>>=◌,
}
use mathlib.Core.List.{append_assoc, append-nil}
use owlwatch.Metrics.{Snapshot}
use owlwatch.Ring.{snapshots}
use owlwatch.Ring.Contents
use owlwatch.Ring.Contents.{empty-IsValid, length-empty, snapshots-empty}
use owlwatch.Ring.Push.{push_refines, last_short}
use owlwatch.Fanout
use owlwatch.Fanout.{Fanout, broadcast}
use owlwatch.Fanout.Invariant
use owlwatch.Fanout.Invariant.{broadcast-IsValid, init-IsValid, step-IsValid}
use owlwatch.Collector.Feed.{
  Feed, Op, publishes, subscribes, shuts_down, cancels, receives, ring_size, new_feed, publish,
  recent, latest_of, step, on_hub, run,
}

module _ {ℓ} {A : Type ℓ} where
  -- Cutting a list to its last `n` entries before one more comes changes nothing in the end.
  last-append_last :
      (n : ℕ) (xs : List A) (x : A) → 0 < n → last n (last n xs ++ x ∷ []) ≡ last n (xs ++ x ∷ [])
  last-append_last n xs x pos = elim (dec_lt n (length xs)) [
    | no short ↦ ap (λ l. last n (l ++ x ∷ [])) (last_short n xs (omega arith))
    | yes long ↦
        let ys = last n xs in
        let k = length xs - n in
        let cut : length (ys ++ x ∷ []) - n ≡ 1 =
          omega (arith, length-append ys (x ∷ []), length-last n xs) in
        let whole : length (xs ++ x ∷ []) - n ≡ k + 1 = omega (arith, length-append xs (x ∷ [])) in
        ap (λ i. drop i (ys ++ x ∷ [])) cut
        ∙ drop-append 1 ys (x ∷ []) (omega (arith, length-last n xs))
        ∙ ap (λ l. l ++ x ∷ []) (drop-drop 1 k xs)
        ∙ sym (drop-append (k + 1) xs (x ∷ []) (omega arith))
        ∙ ap (λ i. drop i (xs ++ x ∷ [])) (sym whole)
  ]

ring_size-pos : (n : ℕ) → 0 < ring_size n
unfolding ring_size
ring_size-pos n = ground arith

module _ {F : Type 0} where
  -- The snapshots that a run publishes.
  pub published : List (Op F) → List (Snapshot F)
  published [] = []
  published (publishes snap ∷ ops) = snap ∷ published ops
  published (subscribes ∷ ops) = published ops
  published (shuts_down ∷ ops) = published ops
  published (cancels id ∷ ops) = published ops
  published (receives id ∷ ops) = published ops

  -- The newest snapshot, or `z` and false if there is none.
  pub newest : Snapshot F × Bool → List (Snapshot F) → Snapshot F × Bool
  newest z [] = z
  newest z (snap ∷ snaps) = newest (snap, true) snaps

  pub record IsValid (n : ℕ) (past : List (Snapshot F)) (c : Feed F) : Type 0 where
    pub ring_valid : Contents.IsValid c.ring
    pub ring_length : length c.ring.buf ≡ n
    pub holds : snapshots c.ring ≡ some (last n past)
    pub hub_valid : Invariant.IsValid c.hub

  IsValid-hub :
      (n : ℕ) (past : List (Snapshot F)) (c : Feed F) (op : Fanout.Op (Snapshot F))
      → IsValid n past c
      → (c' : Feed F) × (on_hub c op ≡ some c') × IsValid n past c' × (latest_of c' ≡ latest_of c)
  unfolding on_hub
  IsValid-hub n past c op v =
      let (hub, done, valid) = step-IsValid op c.hub v.hub_valid in
      (
        record c { hub = hub },
        ap (λ o. o >>= λ h. some (record c { hub = h })) done,
        record {
          ring_valid = v.ring_valid;
          ring_length = v.ring_length;
          holds = v.holds;
          hub_valid = valid;
        },
        refl,
      )

  IsValid-publish :
      (n : ℕ) (past : List (Snapshot F)) (c : Feed F) (snap : Snapshot F)
      → 0 < n
      → IsValid n past c
      → (c' : Feed F) × (publish snap c ≡ some c')
        × IsValid n (past ++ snap ∷ []) c'
        × (latest_of c' ≡ (snap, true))
  unfolding publish
  IsValid-publish n past c snap pos v =
      let (ring, pushed, valid, size, content) = push_refines c.ring snap _ v.ring_valid v.holds in
      let (hub, sent, hub_valid) = broadcast-IsValid snap c.hub v.hub_valid in
      (
        record { ring = ring; latest = snap; sampled = true; hub = hub },
        rw (pushed, sent) refl,
        record {
          ring_valid = valid;
          ring_length = size ∙ v.ring_length;
          holds =
              content
              ∙ ap (λ m. some (last m (last n past ++ snap ∷ []))) v.ring_length
              ∙ ap some (last-append_last n past snap pos);
          hub_valid = hub_valid;
        },
        refl,
      )

  After : (n : ℕ) → List (Snapshot F) → Snapshot F × Bool → Option (Feed F) → Type 0
  After n past newest_one o =
      (c' : Feed F) × (o ≡ some c') × IsValid n past c' × (latest_of c' ≡ newest_one)

  on_hub-After :
      (n : ℕ) (past : List (Snapshot F)) (c : Feed F) (op : Fanout.Op (Snapshot F))
      (ops : List (Op F)) (rest : List (Snapshot F))
      → IsValid n past c
      → ((c' : Feed F)
          → IsValid n past c'
          → After n (past ++ rest) (newest (latest_of c') rest) (run ops c'))
      → After n (past ++ rest) (newest (latest_of c) rest) (on_hub c op >>= run ops)
  unfolding After
  on_hub-After n past c op ops rest v later =
      let (c', done, valid, kept) = IsValid-hub n past c op v in
      let (c'', ran, valid', latest) = later c' valid in
      (c'', rw done ran, valid', latest ∙ ap (λ l. newest l rest) kept)

  run-After :
      (n : ℕ) (past : List (Snapshot F)) (ops : List (Op F)) (c : Feed F)
      → 0 < n
      → IsValid n past c
      → After n (past ++ published ops) (newest (latest_of c) (published ops)) (run ops c)
  unfolding After run step published newest
  run-After n past [] c pos v =
      (c, refl, subst (λ l. IsValid n l c) (sym (append-nil past)) v, refl)
  run-After n past (publishes snap ∷ ops) c pos v =
      let (c', done, valid, now) = IsValid-publish n past c snap pos v in
      let (c'', ran, valid', latest) = run-After n (past ++ snap ∷ []) ops c' pos valid in
      (
        c'',
        rw done ran,
        subst (λ l. IsValid n l c'') (append_assoc past (snap ∷ []) (published ops)) valid',
        latest ∙ ap (λ l. newest l (published ops)) now,
      )
  run-After n past (subscribes ∷ ops) c pos v =
      on_hub-After n past c Fanout.subscribes ops (published ops) v
        (λ c' v'. run-After n past ops c' pos v')
  run-After n past (shuts_down ∷ ops) c pos v =
      on_hub-After n past c Fanout.shuts_down ops (published ops) v
        (λ c' v'. run-After n past ops c' pos v')
  run-After n past (cancels id ∷ ops) c pos v =
      on_hub-After n past c (Fanout.cancels id) ops (published ops) v
        (λ c' v'. run-After n past ops c' pos v')
  run-After n past (receives id ∷ ops) c pos v =
      on_hub-After n past c (Fanout.receives id) ops (published ops) v
        (λ c' v'. run-After n past ops c' pos v')

  new_feed-IsValid : (z : Snapshot F) (n : ℕ) → IsValid (ring_size n) [] (new_feed z n)
  unfolding new_feed
  new_feed-IsValid z n = record {
    ring_valid = empty-IsValid z (ring_size n) (ring_size-pos n);
    ring_length = length-empty z (ring_size n);
    holds = snapshots-empty z (ring_size n) ∙ ap some (sym (drop-nil (0 - ring_size n)));
    hub_valid = init-IsValid;
  }

  -- However the sampler's snapshots, its shutdown and the calls of subscribers follow on each other,
  -- the feed of a new collector does not panic: `Recent` then answers the newest published snapshots,
  -- oldest first, as many as the ring holds, `Latest` the very newest with true, or false if there is
  -- none, and the registry of subscribers is well formed.
  pub run-new_feed :
      (z : Snapshot F) (n : ℕ) (ops : List (Op F))
      → (c : Feed F) × (run ops (new_feed z n) ≡ some c)
        × (recent c ≡ some (last (ring_size n) (published ops)))
        × (latest_of c ≡ newest (z, false) (published ops))
        × Invariant.IsValid c.hub
  unfolding recent After new_feed
  run-new_feed z n ops =
      let (c, ran, valid, latest) =
        run-After (ring_size n) [] ops (new_feed z n) (ring_size-pos n) (new_feed-IsValid z n) in
      (c, ran, valid.holds, latest, valid.hub_valid)
