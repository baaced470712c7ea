-- ===== src/Collector/Breakdown/Requests.antt =====
-- internal/collector/disk_usage.go: what `DiskUsage` has checked before it scans a directory.
use owlwatch.Prelude.{◌≡◌, ◌⊎◌, true, false, ◌++◌, bytes, List, some, Bytes}
use owlwatch.Metrics.{DiskMetrics}
use owlwatch.Collector.Breakdown.{
  Paths, Files, Request, cached, scans, refused, Error, path_within, host_path_to_local,
}
use owlwatch.Collector.Breakdown.Containing.{Containing}

-- A relative path that leads upwards: "..", or what begins with "../".
abbrev pub Climbs : Bytes → Type 0
Climbs r = (r ≡ bytes "..") ⊎ ((s : Bytes) × (r ≡ bytes "../" ++ s))

-- The path is the root, or a text that begins with the root and a slash.
abbrev pub Below : Bytes → Bytes → Type 0
Below root path =
    (path ≡ root)
    ⊎ ((s : Bytes) × (path ≡ root ++ (bytes "/" ++ s)))
    ⊎ ((root ≡ bytes "/") × (s : Bytes) × (path ≡ bytes "/" ++ s))

-- filepath.Clean cleans once for all; and filepath.Rel of an absolute root leads upwards, unless the path lies
-- below the root.
pub record IsLexical (paths : Paths) : Type 0 where
  pub clean_clean : (path : Bytes) → paths.clean (paths.clean path) ≡ paths.clean path
  pub leads :
      (root path r : Bytes)
      → paths.is_abs root ≡ true
      → paths.rel root path ≡ some r
      → Climbs r ⊎ Below (paths.clean root) (paths.clean path)

module _ {F : Type 0} (paths : Paths) (files : Files) (rootfs : Bytes) where
  open paths use {clean, is_abs}
  open files use {is_link, eval_symlinks, is_dir}

  -- The directory is no symbolic link, and where its links lead lies within where the links of the
  -- mount lead.
  record Allowed (host resolved : Bytes) (mount : DiskMetrics F) : Type 0 where
    no_link : is_link (host_path_to_local paths rootfs host) ≡ some false
    resolves : eval_symlinks (host_path_to_local paths rootfs host) ≡ some resolved
    within :
        (root : Bytes) × (eval_symlinks (host_path_to_local paths rootfs mount.mount) ≡ some root)
        × (path_within paths resolved root ≡ true)
    directory : is_dir resolved ≡ some true

  refused_scans :
      {e : Error} {host resolved : Bytes} {mount : DiskMetrics F}
      → refused e ≡ scans host resolved mount
      → ⊥
  refused_scans h = cc

  Is : Request F → Bytes → DiskMetrics F → Type 0
  Is (cached usage) path mount = Unit
  Is (refused e) path mount = Unit
  Is (scans host resolved m) path mount = (host ≡ path) × (m ≡ mount) × Allowed host resolved m

  Sound : List (DiskMetrics F) → Request F → Type 0
  Sound disks (cached usage) = Unit
  Sound disks (refused e) = Unit
  Sound disks (scans host resolved mount) =
      Containing paths host disks (some mount) × (is_abs host ≡ true) × Allowed host resolved mount

  -- The path lies below the disk's mount, and where its links lead lies below where the links of the mount
  -- lead; it is no symbolic link itself, and leads to a directory.
  pub record Inside (host resolved : Bytes) (mount : DiskMetrics F) : Type 0 where
    pub root : Bytes
    pub below_mount : Below (clean mount.mount) (clean host)
    pub resolves : eval_symlinks (host_path_to_local paths rootfs host) ≡ some resolved
    pub mount_resolves : eval_symlinks (host_path_to_local paths rootfs mount.mount) ≡ some root
    pub below_root : Below (clean root) (clean resolved)
    pub no_link : is_link (host_path_to_local paths rootfs host) ≡ some false
    pub directory : is_dir resolved ≡ some true
