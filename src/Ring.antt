-- ===== src/Ring.antt =====
-- The circular buffer of recent snapshots: the fields `ring`, `head` and `count` of `peerState`
-- (internal/peers/client.go), which internal/collector/collector.go keeps in the same way, and the
-- two readings of it as a CPU series. A `none` is a run-time panic (index out of range).
pub mod Contents
pub mod Push
pub mod Seed
pub mod Series
mod Examples
use owlwatch.Prelude.{
  ℕ, zero, suc, ◌+◌, ◌-◌, ◌*◌, ◌/◌, ◌%◌, Bool, true, false, List, [], ◌∷◌, Option, none, some, ltb,
  leb, ◌==◌, if◌then◌else◌, length, get_elem?, set, last, replicate, ◌>>=◌, fold, gather,
}

pub record Ring {ℓ} (A : Type ℓ) : Type ℓ where
  pub buf : List A
  pub head : ℕ
  pub count : ℕ

module _ {ℓ} {A : Type ℓ} where
  -- `make([]metrics.Snapshot, n)`: `n` zero values, none of them valid yet.
  pub empty : A → ℕ → Ring A
  empty zero_value n = record { buf = replicate n zero_value; head = 0; count = 0 }

  -- The assignment `ring[i] = v`, which panics out of range.
  pub write : List A → ℕ → A → Option (List A)
  write buf i v = if ltb i (length buf) then some (set buf i v) else none

  pub push : Ring A → A → Option (Ring A)
  unfolding write
  push r snap = write r.buf r.head snap >>= λ buf. some (record {
    buf = buf;
    head = (r.head + 1) % length buf;
    count = if ltb r.count (length buf) then r.count + 1 else r.count;
  })

  -- `recent[n-len(s.ring):]` when the peer sent more than the ring holds.
  pub seed : Ring A → List A → Option (Ring A)
  unfolding push
  seed r recent =
      fold push (record r { head = 0; count = 0 })
        (if ltb (length r.buf) (length recent) then last (length r.buf) recent else recent)

  -- `start := head - count; if start < 0 { start += len(ring) }`
  abbrev pub start : Ring A → ℕ
  start r = if ltb r.head r.count then r.head + length r.buf - r.count else r.head - r.count

  -- `ring[(start+i)%len(ring)]`, the i-th oldest entry
  abbrev pub at : Ring A → ℕ → Option A
  at r i = get_elem? r.buf ((start r + i) % length r.buf)

  pub snapshots : Ring A → Option (List A)
  unfolding gather
  snapshots r = gather (at r) 0 r.count

abbrev pub recent_cpu_points : ℕ
recent_cpu_points = 60

module _ {ℓ κ} {A : Type ℓ} {F : Type κ} (usage_pct : A → F) where
  abbrev pub usage_at : Option A → Option F
  usage_at o = o >>= λ snap. some (usage_pct snap)

  -- `peerState.recentCPU`. A nil slice and an empty one are both `[]`.
  pub recent_cpu : Ring A → Option (List F)
  unfolding gather
  recent_cpu r =
      if r.count == 0
      then some []
      else if leb r.count recent_cpu_points
      then gather (λ i. usage_at (at r i)) 0 r.count
      else gather (λ k. usage_at (at r (k * (r.count - 1) / (recent_cpu_points - 1)))) 0
          recent_cpu_points

  -- `recentCPU` of internal/server/federation.go, over a slice of snapshots.
  unfoldable pub recent_cpu_of : List A → Option (List F)
  unfolding gather
  recent_cpu_of snaps =
      if length snaps == 0
      then some []
      else if leb (length snaps) recent_cpu_points
      then gather (λ i. usage_at (get_elem? snaps i)) 0 (length snaps)
      else gather
          (λ i. usage_at (get_elem? snaps (i * (length snaps - 1) / (recent_cpu_points - 1)))) 0
          recent_cpu_points
