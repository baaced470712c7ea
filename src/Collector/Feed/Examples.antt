-- ===== src/Collector/Feed/Examples.antt =====
-- internal/collector/collector.go at a feed with a ring of two, a subscriber that is slow to receive,
-- and a shutdown.
use owlwatch.Prelude.{ℕ, ◌≡◌, false, List, [], ◌∷◌, some, last}
use owlwatch.Fanout.Invariant
use owlwatch.Peers.Client.Sample.{snapshot_at}
use owlwatch.Collector.Feed.{
  Feed, Op, publishes, subscribes, shuts_down, cancels, receives, ring_size, new_feed, recent,
  latest_of, run,
}
use owlwatch.Collector.Feed.History.{published, newest, run-new_feed}

abbrev busy : List (Op ℕ)
busy =
    subscribes
    ∷ publishes (snapshot_at 1000 1)
    ∷ publishes (snapshot_at 3000 2)
    ∷ receives 0
    ∷ cancels 0
    ∷ publishes (snapshot_at 5000 3)
    ∷ shuts_down
    ∷ []

run-new_feed_example :
    (c : Feed ℕ) × (run busy (new_feed (snapshot_at 0 0) 2) ≡ some c)
    × (recent c ≡ some (last (ring_size 2) (published busy)))
    × (latest_of c ≡ newest (snapshot_at 0 0, false) (published busy))
    × Invariant.IsValid c.hub
run-new_feed_example = run-new_feed (snapshot_at 0 0) 2 busy
