-- ===== src/Collector/Partitions/Examples.antt =====
-- internal/collector/collector.go: partitions of a host with a bind mount, a tmpfs and a boot area.
use owlwatch.Prelude.{
  ◌≡◌, inl, refl, true, false, List, [], ◌∷◌, map, All, Member, Pairwise, IsSorted, bytes,
  insert_sorted, sort, bytes_less, same, lookup, insert, cut_prefix, to_lower,
}
use owlwatch.Collector.Partitions.{
  Partition, is_real, better_mount, represent, by_device, mount_less, filter_partitions, one_of,
  under_any,
}
use owlwatch.Collector.Partitions.Kept.{
  OtherDevice, filter_partitions-best, filter_partitions-IsSorted,
}

abbrev bind_mount : Partition
bind_mount = record {
  device = bytes "/dev/sda1";
  mountpoint = bytes "/etc/hosts";
  fstype = bytes "ext4";
}

abbrev listed : List Partition
listed =
    bind_mount
    ∷ record { device = bytes "/dev/sdb1"; mountpoint = bytes "/srv"; fstype = bytes "XFS" }
    ∷ record { device = bytes "/dev/sda1"; mountpoint = bytes "/"; fstype = bytes "ext4" }
    ∷ record { device = bytes "tmpfs"; mountpoint = bytes "/run"; fstype = bytes "tmpfs" }
    ∷ record { device = bytes "/dev/sda2"; mountpoint = bytes "/boot/efi"; fstype = bytes "vfat" }
    ∷ []

mounts_kept : map (λ p. p.mountpoint) (filter_partitions listed) ≡ bytes "/" ∷ bytes "/srv" ∷ []
unfolding filter_partitions by_device is_real represent better_mount one_of under_any sort
    insert_sorted bytes_less lookup insert cut_prefix to_lower same
mounts_kept = refl

bind_mount_real : is_real bind_mount ≡ true
unfolding is_real one_of under_any cut_prefix to_lower same
bind_mount_real = refl

filter_partitions-best_example :
    (q : Partition) × Member q (filter_partitions listed)
    × (q.device ≡ bytes "/dev/sda1")
    × (better_mount (bytes "/etc/hosts") q.mountpoint ≡ false)
filter_partitions-best_example = filter_partitions-best listed bind_mount (inl refl) bind_mount_real

filter_partitions-IsSorted_example :
    IsSorted mount_less (filter_partitions listed)
    × Pairwise OtherDevice (filter_partitions listed)
    × All (λ p. is_real p ≡ true) (filter_partitions listed)
filter_partitions-IsSorted_example = filter_partitions-IsSorted listed
