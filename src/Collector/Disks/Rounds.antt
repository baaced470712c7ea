-- ===== src/Collector/Disks/Rounds.antt =====
-- internal/collector/collector.go: the rounds of the sampler after a read that timed out.
use owlwatch.Prelude.{
  ℕ, ◌+◌, ◌<◌, ◌≡◌, false, List, [], ◌∷◌, ◌++◌, Option, some, All, All-append, Member, Bytes, same,
  lookup,
}
use owlwatch.Collector.Partitions.{Partition}
use owlwatch.Collector.Disks.{
  Answer, times_out, HungMounts, Visit, local_path, sample_disks, disk_reprobe_interval,
}
use owlwatch.Collector.Disks.Hung.{Without, sample_disks-Without, sample_disks_hangs}

-- One tick of the sampler, as the disks see it; `now` is the time at which it starts.
pub record Round (F : Type 0) : Type 0 where
  pub now : ℕ
  pub read : Bytes → Answer F
  pub parts : Option (List Partition)

module _ {F : Type 0} (join : Bytes → Bytes → Bytes) (rootfs : Bytes) where
  unfoldable pub round : Round F → HungMounts → Visit F
  round r hung = sample_disks join rootfs r.now r.read r.parts hung

  -- The mounts that a series of rounds probes.
  unfoldable pub probes : List (Round F) → HungMounts → List Bytes
  unfolding round
  probes [] hung = []
  probes (r ∷ rs) hung = let v = round r hung in v.probed ++ probes rs v.hung

  probes-Without :
      (m : Bytes) (next : ℕ) (rs : List (Round F)) (hung : HungMounts)
      → lookup m hung ≡ some next
      → All (λ r. r.now < next) rs
      → Without m (probes rs hung)
  unfolding probes round
  probes-Without m next [] hung e early = tt
  probes-Without m next (r ∷ rs) hung e (lt, early) =
      let (kept, without) =
        sample_disks-Without join rootfs m next r.now r.read r.parts hung e lt in
      All-append (λ k. same k m ≡ false) _ _ without
        (probes-Without m next rs (round r hung).hung kept early)

  -- A mount whose read timed out in one round is not probed in the rounds that follow and that start
  -- less than a minute after the start of that round, whatever partitions they list and whatever else they
  -- read. The minute is counted from the one reading of the clock that a round makes at its start, not
  -- from the end of the read.
  pub probes-quiet :
      (m : Bytes) (r : Round F) (rs : List (Round F)) (hung : HungMounts)
      → r.read (local_path join rootfs m) ≡ times_out
      → Member m (round r hung).probed
      → All (λ s. s.now < r.now + disk_reprobe_interval) rs
      → Without m (probes rs (round r hung).hung)
  unfolding round
  probes-quiet m r rs hung hangs probed early =
      probes-Without m (r.now + disk_reprobe_interval) rs (round r hung).hung
        (sample_disks_hangs join rootfs m r.now r.read r.parts hung hangs probed) early
