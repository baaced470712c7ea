-- ===== src/Collector/Partitions.antt =====
-- internal/collector/collector.go: the filter that keeps real file systems.
pub mod Kept
mod Examples
use owlwatch.Prelude.{
  ℕ, Bool, true, false, not, ◌&&◌, ◌||◌, List, [], ◌∷◌, ◌++◌, map, Option, none, some, ltb, ◌==◌,
  if◌then◌else◌, length, Bytes, bytes, same, has_prefix, to_lower, lookup, insert, sort, bytes_less,
}

-- gopsutil's disk.PartitionStat
pub record Partition : Type 0 where
  pub device : Bytes
  pub mountpoint : Bytes
  pub fstype : Bytes

abbrev pub allowed_fstypes : List Bytes
allowed_fstypes =
    bytes "ext4"
    ∷ bytes "ext3"
    ∷ bytes "ext2"
    ∷ bytes "xfs"
    ∷ bytes "btrfs"
    ∷ bytes "zfs"
    ∷ bytes "apfs"
    ∷ bytes "hfs"
    ∷ bytes "hfsplus"
    ∷ bytes "ntfs"
    ∷ bytes "fuseblk"
    ∷ bytes "vfat"
    ∷ bytes "exfat"
    ∷ bytes "f2fs"
    ∷ []

abbrev pub skipped_mount_prefixes : List Bytes
skipped_mount_prefixes = bytes "/boot/efi" ∷ bytes "/System" ∷ bytes "/private/var/vm" ∷ []

unfoldable pub one_of : Bytes → List Bytes → Bool
one_of s [] = false
one_of s (t ∷ ts) = same s t || one_of s ts

unfoldable pub under_any : Bytes → List Bytes → Bool
under_any mount [] = false
under_any mount (pre ∷ prefixes) =
    same mount pre || has_prefix mount (pre ++ bytes "/") || under_any mount prefixes

-- The tests that a partition passes before it competes for its device.
unfoldable pub is_real : Partition → Bool
unfolding one_of under_any
is_real p =
    one_of (to_lower p.fstype) allowed_fstypes
    && (has_prefix p.device (bytes "/dev/") || same (to_lower p.fstype) (bytes "zfs"))
    && not (under_any p.mountpoint skipped_mount_prefixes)

unfoldable pub better_mount : Bytes → Bytes → Bool
better_mount a b = if not (length a == length b) then ltb (length a) (length b) else bytes_less a b

-- The round for one partition that passes: it takes its device if that is free or held by a worse mount.
unfoldable pub represent : Partition → List (Bytes × Partition) → List (Bytes × Partition)
unfolding better_mount
represent p by_device = elim (lookup p.device by_device) [
  | none ↦ insert p.device p by_device
  | some cur ↦
      if better_mount p.mountpoint cur.mountpoint then insert p.device p by_device else by_device
]

unfoldable pub by_device : List Partition → List (Bytes × Partition) → List (Bytes × Partition)
unfolding is_real represent
by_device [] m = m
by_device (p ∷ ps) m = elim (is_real p) [
  | true ↦ by_device ps (represent p m)
  | false ↦ by_device ps m
]

abbrev pub mount_less : Partition → Partition → Bool
mount_less a b = bytes_less a.mountpoint b.mountpoint

-- `filterPartitions`. Go reads the map in any order; the sort leaves that open only for partitions with
-- the same mountpoint.
unfoldable pub filter_partitions : List Partition → List Partition
unfolding by_device
filter_partitions parts = sort mount_less (map (λ e. e.1) (by_device parts []))
