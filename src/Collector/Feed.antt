-- ===== src/Collector/Feed.antt =====
-- internal/collector/collector.go: the ring of recent snapshots, the latest one, and the subscribers.
-- Each function runs under the mutex, so it is one step; `none` is a run-time panic.
pub mod History
mod Examples
use owlwatch.Prelude.{
  ℕ, Bool, true, false, List, [], ◌∷◌, Option, none, some, ltb, if◌then◌else◌, ◌>>=◌,
}
use owlwatch.Metrics.{Snapshot}
use owlwatch.Ring
use owlwatch.Ring.{Ring, snapshots}
use owlwatch.Fanout
use owlwatch.Fanout.{Fanout, broadcast}

-- The fields `ring`, `head`, `count`, `latest`, `sampled`, `subs`, `nextSub` and `stopped`.
pub record Feed (F : Type 0) : Type 0 where
  pub ring : Ring (Snapshot F)
  pub latest : Snapshot F
  pub sampled : Bool
  pub hub : Fanout (Snapshot F)

abbrev pub default_ring_size : ℕ
default_ring_size = 150

-- `cfg.RingSize`, 0 for one that is not positive.
unfoldable pub ring_size : ℕ → ℕ
ring_size n = if ltb 0 n then n else default_ring_size

module _ {F : Type 0} where
  -- `New`, with the zero value of a snapshot.
  pub new_feed : Snapshot F → ℕ → Feed F
  unfolding ring_size
  new_feed zero n = record {
    ring = Ring.empty zero (ring_size n);
    latest = zero;
    sampled = false;
    hub = Fanout.init;
  }

  pub publish : Snapshot F → Feed F → Option (Feed F)
  publish snap c = Ring.push c.ring snap >>= λ ring. broadcast snap c.hub >>= λ hub.
      some (record { ring = ring; latest = snap; sampled = true; hub = hub })

  -- `Latest`
  abbrev pub latest_of : Feed F → Snapshot F × Bool
  latest_of c = (c.latest, c.sampled)

  -- `Recent`
  pub recent : Feed F → Option (List (Snapshot F))
  recent c = snapshots c.ring

-- What can happen to the feed: the sampler publishes, and shuts down when `Run` returns; subscribers
-- come, go, and receive.
pub data Op (F : Type 0) : Type 0 where
  publishes : Snapshot F → Op F
  subscribes shuts_down : Op F
  cancels receives : ℕ → Op F

module _ {F : Type 0} where
  on_hub : Feed F → Fanout.Op (Snapshot F) → Option (Feed F)
  on_hub c op = Fanout.step op c.hub >>= λ hub. some (record c { hub = hub })

  pub step : Op F → Feed F → Option (Feed F)
  unfolding publish on_hub
  step (publishes snap) c = publish snap c
  step subscribes c = on_hub c Fanout.subscribes
  step shuts_down c = on_hub c Fanout.shuts_down
  step (cancels id) c = on_hub c (Fanout.cancels id)
  step (receives id) c = on_hub c (Fanout.receives id)

  pub run : List (Op F) → Feed F → Option (Feed F)
  unfolding step
  run [] c = some c
  run (op ∷ ops) c = step op c >>= run ops
