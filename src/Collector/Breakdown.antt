-- ===== src/Collector/Breakdown.antt =====
-- internal/collector/disk_usage.go: the path that a breakdown is asked for, and the cache of results.
-- Times are nanoseconds. The functions of path/filepath and the answers of the file system are
-- arguments.
pub mod Cached
pub mod Containing
pub mod Requests
pub mod Scan
pub mod Measured
pub mod Items
mod Examples
use owlwatch.Prelude.{
  ℕ, ◌+◌, Bool, true, false, not, ◌&&◌, ◌||◌, List, [], ◌∷◌, ◌++◌, Option, none, some, ltb, ◌==◌,
  if◌then◌else◌, length, map, sort, Bytes, bytes, same, has_prefix, cut_prefix, lookup, insert,
  delete,
}
use mathlib.Core.Option.{get_or}
use owlwatch.Metrics.{Snapshot, DiskMetrics, DiskUsage, DiskUsageItem}

abbrev pub cache_ttl : ℕ
cache_ttl = 300000000000

abbrev pub cache_cap : ℕ
cache_cap = 256

-- `diskUsageCacheEntry`
pub record CacheEntry (F : Type 0) : Type 0 where
  pub at : ℕ
  pub usage : DiskUsage F

abbrev pub Cache : Type 0 → Type 0
Cache F = List (Bytes × CacheEntry F)

pub data Error : Type 0 where
  disk_unavailable not_absolute outside_disks symlink_escapes : Error

-- filepath.Clean, IsAbs, Rel and Join
pub record Paths : Type 0 where
  pub clean : Bytes → Bytes
  pub is_abs : Bytes → Bool
  pub rel : Bytes → Bytes → Option Bytes
  pub join : Bytes → Bytes → Bytes

-- os.Lstat, as to whether a path is a symbolic link; filepath.EvalSymlinks; os.Stat, as to whether a
-- path is a directory.
pub record Files : Type 0 where
  pub is_link : Bytes → Option Bool
  pub eval_symlinks : Bytes → Option Bytes
  pub is_dir : Bytes → Option Bool

module _ {F : Type 0} where
  -- `cachedDiskUsage`
  unfoldable pub cached_disk_usage : ℕ → Bytes → Cache F → Option (DiskUsage F) × Cache F
  cached_disk_usage now path cache = elim (lookup path cache) [
    | none ↦ (none, delete path cache)
    | some entry ↦
        if ltb now (entry.at + cache_ttl)
        then (some entry.usage, cache)
        else (none, delete path cache)
  ]

  -- The search for the entry to evict, from the best so far. Go reads the map in any order; that
  -- leaves the choice open among entries of the same age.
  unfoldable pub oldest : Bytes → ℕ → Cache F → Bytes
  oldest path at [] = path
  oldest path at ((key, entry) ∷ cache) = elim (same path [] || ltb entry.at at) [
    | true ↦ oldest key entry.at cache
    | false ↦ oldest path at cache
  ]

  unfoldable pub evict : Cache F → Cache F
  unfolding oldest
  evict cache = if ltb (length cache) cache_cap then cache else delete (oldest [] 0 cache) cache

  unfoldable pub store_disk_usage : ℕ → Bytes → DiskUsage F → Cache F → Cache F
  unfolding evict
  store_disk_usage now path usage cache =
      insert path (record { at = now; usage = usage }) (evict cache)

-- `!found || len(candidate.Mount) > len(best.Mount)`
unfoldable pub longer : {F : Type 0} → Option (DiskMetrics F) → DiskMetrics F → Bool
longer none d = true
longer (some best) d = ltb (length best.mount) (length d.mount)

-- The share of a disk's used bytes, on float64, and the order of shares.
pub record Shares (F : Type 0) : Type 0 where
  pub share : ℕ → ℕ → F
  pub zero_value : F
  pub less : F → F → Bool

module _ {F : Type 0} (shares : Shares F) where
  open shares use {share, zero_value, less}

  unfoldable pub with_share : ℕ → DiskUsageItem F → DiskUsageItem F
  with_share used item = record item {
    used_pct = if ltb 0 used then share item.size used else zero_value;
  }

  unfoldable pub apply_mount_usage : DiskUsage F → DiskMetrics F → DiskUsage F
  unfolding with_share
  apply_mount_usage usage mount = record usage {
    mount = mount.mount;
    mount_used = mount.used;
    items = map (with_share mount.used) usage.items;
  }

  -- The path that is meant: for "", the mount of the fullest disk.
  unfoldable pub requested : Bytes → List (DiskMetrics F) → Bytes
  requested [] disks = elim (sort (λ a b. less b.used_pct a.used_pct) disks) [
    | [] ↦ []
    | d ∷ _ ↦ d.mount
  ]
  requested (c ∷ path) disks = c ∷ path

-- What a request leads to: a cached result, or the scan of a local directory for the path of the host
-- on a disk, or an error.
pub data Request (F : Type 0) : Type 0 where
  cached : DiskUsage F → Request F
  scans : Bytes → Bytes → DiskMetrics F → Request F
  refused : Error → Request F

module _ (paths : Paths) where
  open paths use {clean, is_abs, rel, join}

  unfoldable pub path_within : Bytes → Bytes → Bool
  path_within path root = elim (rel root path) [
    | none ↦ false
    | some r ↦ not (same r (bytes "..")) && not (has_prefix r (bytes "../"))
  ]

  unfoldable pub host_path_to_local : Bytes → Bytes → Bytes
  host_path_to_local rootfs path =
      if same rootfs []
      then clean path
      else join rootfs (get_or (cut_prefix (clean path) (bytes "/")) (clean path))

  -- The paths that a scan does not enter: the disks, the runtime file systems of Linux, and all mounts,
  -- where they can be listed.
  unfoldable pub all_local_mounts :
      {F : Type 0} → Bytes → List (DiskMetrics F) → Option (List Bytes) → List Bytes
  unfolding host_path_to_local
  all_local_mounts rootfs disks listed =
      map (λ mount. clean (host_path_to_local rootfs mount))
        (map (λ d. d.mount) disks
          ++ (bytes "/proc" ∷ bytes "/sys" ∷ bytes "/dev" ∷ bytes "/run" ∷ [])
          ++ get_or listed [])

  module _ {F : Type 0} where
    -- The loop over the disks, from the best so far.
    unfoldable pub best_disk :
        Bytes → Option (DiskMetrics F) → List (DiskMetrics F) → Option (DiskMetrics F)
    unfolding path_within longer
    best_disk path best [] = best
    best_disk path best (d ∷ disks) = elim (path_within path (clean d.mount) && longer best d) [
      | true ↦ best_disk path (some d) disks
      | false ↦ best_disk path best disks
    ]

    unfoldable pub containing_disk : Bytes → List (DiskMetrics F) → Option (DiskMetrics F)
    unfolding best_disk
    containing_disk path disks = best_disk path none disks

    -- The checks on the file system before a scan.
    unfoldable pub checked : Files → Bytes → Bytes → DiskMetrics F → Request F
    unfolding host_path_to_local path_within
    checked files rootfs path mount =
        let local = host_path_to_local rootfs path in
        elim (files.is_link local) [
          | none ↦ refused disk_unavailable
          | some true ↦ refused disk_unavailable
          | some false ↦ elim (files.eval_symlinks local) [
            | none ↦ refused disk_unavailable
            | some resolved ↦ elim (files.eval_symlinks (host_path_to_local rootfs mount.mount)) [
              | none ↦ refused disk_unavailable
              | some resolved_mount ↦
                  if not (path_within resolved resolved_mount)
                  then refused symlink_escapes
                  else elim (files.is_dir resolved) [
                    | none ↦ refused disk_unavailable
                    | some false ↦ refused disk_unavailable
                    | some true ↦ scans path resolved mount
                  ]
            ]
          ]
        ]

    -- The first part of `DiskUsage`, for a path that is clean, with the cache after it.
    unfoldable pub resolve :
        Shares F → Files → Bytes → ℕ → Bytes → List (DiskMetrics F) → Cache F → Request F × Cache F
    unfolding containing_disk cached_disk_usage apply_mount_usage checked
    resolve shares files rootfs now path disks cache =
        if not (is_abs path)
        then (refused not_absolute, cache)
        else elim (containing_disk path disks) [
          | none ↦ (refused outside_disks, cache)
          | some mount ↦
              let (found, cache') = cached_disk_usage now path cache in
              elim found [
                | some usage ↦ (cached (apply_mount_usage shares usage mount), cache')
                | none ↦ (checked files rootfs path mount, cache')
              ]
        ]

    -- `DiskUsage` up to the reading of the directory, from what `Latest` answers.
    unfoldable pub request :
        Shares F → Files → Bytes → ℕ → Bytes → Snapshot F × Bool → Cache F → Request F × Cache F
    unfolding resolve requested
    request shares files rootfs now path (snap, ok) cache =
        if not ok || (length snap.disks == 0)
        then (refused disk_unavailable, cache)
        else resolve shares files rootfs now (clean (requested shares path snap.disks)) snap.disks
            cache
