-- ===== src/Collector/Disks/Examples.antt =====
-- internal/collector/collector.go at two disks, of which one hangs and comes back.
use owlwatch.Prelude.{
  ℕ, ◌≡◌, inl, inr, refl, arith, Bool, true, false, List, [], ◌∷◌, ◌++◌, some, if◌then◌else◌,
  Member, Bytes, bytes, same, lookup, insert, delete, sort, insert_sorted, bytes_less, to_lower,
  cut_prefix,
}
use owlwatch.Collector.Partitions.{
  Partition, filter_partitions, by_device, is_real, represent, better_mount, one_of, under_any,
}
use owlwatch.Collector.Disks.{
  answers, times_out, UsageStat, waits, settle, local_path, visit, disk_usages, sample_disks,
}
use owlwatch.Collector.Disks.Hung.{Without}
use owlwatch.Collector.Disks.Rounds.{Round, round, probes, probes-quiet}

abbrev disks : List Partition
disks =
    record { device = bytes "/dev/sda1"; mountpoint = bytes "/"; fstype = bytes "ext4" }
    ∷ record { device = bytes "/dev/sdb1"; mountpoint = bytes "/nas"; fstype = bytes "ext4" }
    ∷ []

abbrev half_full : UsageStat ℕ
half_full = record { total = 8; used = 4; free = 4; used_percent = 50 }

-- A round in which "/nas" hangs or not.
abbrev round_at : ℕ → Bool → Round ℕ
round_at now hangs = record {
  now = now;
  read = λ path.
      if same path (bytes "/nas")
      then (if hangs then times_out else answers half_full)
      else answers half_full;
  parts = some disks;
}

abbrev join_paths : Bytes → Bytes → Bytes
join_paths a b = a ++ b

mounts_probed :
    probes join_paths []
      (round_at 0 true ∷ round_at 2000000000 true ∷ round_at 60000000000 false ∷ [])
      []
    ≡ bytes "/" ∷ bytes "/nas" ∷ bytes "/" ∷ bytes "/" ∷ bytes "/nas" ∷ []
unfolding probes round sample_disks disk_usages visit waits settle local_path lookup insert delete
    same filter_partitions by_device is_real represent better_mount one_of under_any sort
    insert_sorted bytes_less to_lower cut_prefix
mounts_probed = refl

nas_hangs : (round_at 0 true).read (local_path join_paths [] (bytes "/nas")) ≡ times_out
unfolding local_path same
nas_hangs = refl

nas_probed : Member (bytes "/nas") (round join_paths [] (round_at 0 true) []).probed
unfolding round sample_disks disk_usages visit waits settle local_path lookup insert delete same
    filter_partitions by_device is_real represent better_mount one_of under_any sort insert_sorted
    bytes_less to_lower cut_prefix
nas_probed = inr (inl refl)

probes-quiet_example : Without (bytes "/nas") (
    probes join_paths []
      (round_at 2000000000 false ∷ round_at 4000000000 true ∷ [])
      (round join_paths [] (round_at 0 true) []).hung)
probes-quiet_example =
    probes-quiet join_paths [] (bytes "/nas") (round_at 0 true)
      (round_at 2000000000 false ∷ round_at 4000000000 true ∷ []) [] nas_hangs nas_probed
      (omega arith, (omega arith, tt))
