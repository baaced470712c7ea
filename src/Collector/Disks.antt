-- ===== src/Collector/Disks.antt =====
-- internal/collector/collector.go: the reading of each disk's usage, with a pause for a mount that
-- hangs. Times are nanoseconds. What a read meets, and filepath.Join, are arguments.
pub mod Hung
pub mod Rounds
mod Examples
use owlwatch.Prelude.{
  ℕ, ◌+◌, Bool, true, false, List, [], ◌∷◌, ◌++◌, Option, none, some, ltb, ◌==◌, if◌then◌else◌,
  Bytes, bytes, same, lookup, insert, delete,
}
use owlwatch.Metrics.{DiskMetrics}
use owlwatch.Collector.Partitions.{Partition, filter_partitions}

abbrev pub disk_reprobe_interval : ℕ
disk_reprobe_interval = 60000000000

-- gopsutil's disk.UsageStat
pub record UsageStat (F : Type 0) : Type 0 where
  pub total : ℕ
  pub used : ℕ
  pub free : ℕ
  pub used_percent : F

-- The results of `usage`: a value or an error in time, or errUsageTimeout.
pub data Answer (F : Type 0) : Type 0 where
  answers : UsageStat F → Answer F
  fails times_out : Answer F

-- `hungMounts`: the earliest time of the next probe, by mountpoint.
abbrev pub HungMounts : Type 0
HungMounts = List (Bytes × ℕ)

-- What one partition leads to: the mounts that hang now, the entry to report, the path that is read,
-- and the keys of the lines given to the log.
pub record Visit (F : Type 0) : Type 0 where
  pub hung : HungMounts
  pub entry : List (DiskMetrics F)
  pub probed : List Bytes
  pub logged : List Bytes

-- `now.Before(next)` for a mount in the map.
unfoldable pub waits : ℕ → Bytes → HungMounts → Bool
waits now mount hung = elim (lookup mount hung) [ none ↦ false | some next ↦ ltb now next ]

-- Where a mount of the host is found: under `rootfs` in a container.
unfoldable pub local_path : (Bytes → Bytes → Bytes) → Bytes → Bytes → Bytes
local_path join rootfs mount = if same rootfs [] then mount else join rootfs mount

module _ {F : Type 0} where
  unfoldable pub disk_metrics : Partition → UsageStat F → DiskMetrics F
  disk_metrics p u = record {
    mount = p.mountpoint;
    device = p.device;
    fstype = p.fstype;
    total = u.total;
    used = u.used;
    free = u.free;
    used_pct = u.used_percent;
  }

  -- The part of a round after the read.
  unfoldable pub settle : ℕ → Partition → HungMounts → Answer F → Visit F
  unfolding disk_metrics
  settle now p hung times_out = record {
    hung = insert p.mountpoint (now + disk_reprobe_interval) hung;
    entry = [];
    probed = p.mountpoint ∷ [];
    logged = (bytes "disk:" ++ p.mountpoint) ∷ [];
  }
  settle now p hung fails = record {
    hung = hung;
    entry = [];
    probed = p.mountpoint ∷ [];
    logged = (bytes "disk:" ++ p.mountpoint) ∷ [];
  }
  settle now p hung (answers u) = record {
    hung = hung;
    entry = if u.total == 0 then [] else disk_metrics p u ∷ [];
    probed = p.mountpoint ∷ [];
    logged = [];
  }

  module _ (join : Bytes → Bytes → Bytes) (rootfs : Bytes) where
    unfoldable pub visit : ℕ → (Bytes → Answer F) → Partition → HungMounts → Visit F
    unfolding waits settle local_path
    visit now read p hung = elim (waits now p.mountpoint hung) [
      | true ↦ record { hung = hung; entry = []; probed = []; logged = [] }
      | false ↦ settle now p (delete p.mountpoint hung) (read (local_path join rootfs p.mountpoint))
    ]

    -- `diskUsages`
    unfoldable pub disk_usages : ℕ → (Bytes → Answer F) → List Partition → HungMounts → Visit F
    unfolding visit
    disk_usages now read [] hung = record { hung = hung; entry = []; probed = []; logged = [] }
    disk_usages now read (p ∷ ps) hung =
        let v = visit now read p hung in
        let rest = disk_usages now read ps v.hung in
        record {
          hung = rest.hung;
          entry = v.entry ++ rest.entry;
          probed = v.probed ++ rest.probed;
          logged = v.logged ++ rest.logged;
        }

    -- `sampleDisks`: `none` is a failure to list the partitions.
    unfoldable pub sample_disks :
        ℕ → (Bytes → Answer F) → Option (List Partition) → HungMounts → Visit F
    unfolding disk_usages
    sample_disks now read none hung = record {
      hung = hung;
      entry = [];
      probed = [];
      logged = bytes "disk" ∷ [];
    }
    sample_disks now read (some parts) hung = disk_usages now read (filter_partitions parts) hung
