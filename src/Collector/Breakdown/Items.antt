-- ===== src/Collector/Breakdown/Items.antt =====
-- internal/collector/disk_usage.go: `measureDiskItem` and `scanDiskChildren`, with the workers one after
-- another, and the end of `DiskUsage`.
use owlwatch.Prelude.{
  ℕ, ◌+◌, Bool, true, false, not, ◌&&◌, ◌||◌, List, [], ◌∷◌, Option, none, some, ltb, ◌==◌,
  if◌then◌else◌, take, sort, bytes_less, Bytes, bytes, same,
}
use owlwatch.Metrics.{DiskUsage, DiskUsageItem, DiskMetrics}
use owlwatch.Collector.Partitions.{one_of}
use owlwatch.Collector.Breakdown.{Paths, Shares, Cache, apply_mount_usage, store_disk_usage}
use owlwatch.Collector.Breakdown.Scan.{
  Node, file, special, locked, folder, Walk, name_of, call_again, walk_node,
}

abbrev pub item_limit : ℕ
item_limit = 10

-- What os.ReadDir lists, with the tree below it: whether it is a symbolic link, whether its Info can be
-- read, and, for a directory, whether it is still there when the walk begins.
pub record Entry : Type 0 where
  pub node : Node
  pub is_link : Bool
  pub has_info : Bool
  pub is_there : Bool

-- `measuredDiskItem`: no item for an empty path.
pub record Measured (F : Type 0) : Type 0 where
  pub item : Option (DiskUsageItem F)
  pub skipped : ℕ

-- The counters that all entries share.
pub record Shared : Type 0 where
  pub visited : ℕ
  pub limit_hit : Bool

module _ {F : Type 0} (zero_value : F) where
  unfoldable pub item_of : Bytes → Bytes → Bytes → ℕ → Bool → DiskUsageItem F
  item_of path name kind size incomplete = record {
    path = path;
    name = name;
    kind = kind;
    size = size;
    used_pct = zero_value;
    incomplete = incomplete;
  }

  unfoldable pub no_info : Bytes → Node → Shared → Measured F × Shared
  unfolding item_of name_of
  no_info path node sh =
      (record { item = some (item_of path (name_of node) (bytes "file") 0 true); skipped = 1 }, sh)

  -- An entry that is no directory.
  unfoldable pub leaf : Bytes → Bytes → ℕ → Shared → Measured F × Shared
  unfolding item_of
  leaf path name size sh = (
    record { item = some (item_of path name (bytes "file") size false); skipped = 0 },
    record sh { visited = sh.visited + 1 },
  )

  -- A directory, after its walk.
  unfoldable pub directory : Bytes → Bytes → Bool × Walk → Measured F × Shared
  unfolding item_of
  directory path name (stopped, w) = (
    record {
      item = some (item_of path name (bytes "directory") w.size (stopped || ltb 0 w.skipped));
      skipped = w.skipped;
    },
    record { visited = w.visited; limit_hit = w.limit_hit },
  )

  module _ (paths : Paths) (mounts : List Bytes) (ended : ℕ → Bool) where
    open paths use {clean, join}

    unfoldable pub walked : Bytes → Entry → Shared → Bool × Walk
    unfolding walk_node call_again
    walked local e sh =
        let w : Walk = record {
          visited = sh.visited;
          limit_hit = sh.limit_hit;
          size = 0;
          skipped = 0;
        } in
        if e.is_there
        then walk_node paths mounts ended true local e.node w
        else call_again paths mounts ended w

    unfoldable pub measured_node : Bytes → Bytes → Entry → Node → Shared → Measured F × Shared
    unfolding no_info leaf directory walked
    measured_node local host e (file name none) sh = no_info host (file name none) sh
    measured_node local host e (file name (some size)) sh = leaf host name size sh
    measured_node local host e (special name) sh = leaf host name 0 sh
    measured_node local host e (locked name) sh = directory host name (walked local e sh)
    measured_node local host e (folder name nodes) sh = directory host name (walked local e sh)

    unfoldable pub measure_disk_item : Bytes → Bytes → Entry → Shared → Measured F × Shared
    unfolding measured_node
    measure_disk_item local host e sh =
        if sh.limit_hit || ended sh.visited || e.is_link
        then (record { item = none; skipped = 0 }, sh)
        else if not e.has_info
        then no_info host e.node sh
        else measured_node local host e e.node sh

    -- The jobs in order; a mount other than the directory itself is left out.
    unfoldable pub measure_all : Bytes → Bytes → List Entry → Shared → List (Measured F) × Shared
    unfolding measure_disk_item one_of
    measure_all local host [] sh = ([], sh)
    measure_all local host (e ∷ es) sh =
        let path = join local (name_of e.node) in
        let mounted = one_of (clean path) mounts && not (same (clean path) (clean local)) in
        let (r, sh') =
          if mounted
          then (record { item = none; skipped = 0 }, sh)
          else measure_disk_item path (join host (name_of e.node)) e sh in
        let (rs, sh'') = measure_all local host es sh' in (r ∷ rs, sh'')

unfoldable pub items_of : {F : Type 0} → List (Measured F) → List (DiskUsageItem F)
items_of [] = []
items_of (r ∷ rs) = elim r.item [ none ↦ items_of rs | some item ↦ item ∷ items_of rs ]

unfoldable pub skipped_in : {F : Type 0} → List (Measured F) → ℕ
skipped_in [] = 0
skipped_in (r ∷ rs) = r.skipped + skipped_in rs

-- The largest first, by name among equals.
unfoldable pub larger : {F : Type 0} → DiskUsageItem F → DiskUsageItem F → Bool
larger a b = if a.size == b.size then bytes_less a.name b.name else ltb b.size a.size

unfoldable pub top_items : {F : Type 0} → List (DiskUsageItem F) → List (DiskUsageItem F)
unfolding larger
top_items items = take item_limit (sort larger items)

-- The answer from the results; `late` tells whether the scan met its deadline.
unfoldable pub scanned : {F : Type 0} → Bytes → Bool → List (Measured F) × Shared → DiskUsage F
unfolding items_of skipped_in top_items
scanned host late (results, sh) = record {
  path = host;
  mount = [];
  mount_used = 0;
  items = top_items (items_of results);
  scanned_entries = sh.visited;
  skipped_entries = skipped_in results;
  truncated = sh.limit_hit || late;
}

-- `scanDiskChildren`
unfoldable pub scan_disk_children :
    {F : Type 0}
    → F
    → Paths
    → List Bytes
    → (ℕ → Bool)
    → Bool
    → Bytes
    → Bytes
    → List Entry
    → DiskUsage F
unfolding scanned measure_all
scan_disk_children zero_value paths mounts ended late local host entries = scanned host late (
    measure_all zero_value paths mounts ended local host entries
      (record { visited = 0; limit_hit = false }))

-- The end of `DiskUsage`, for a request that was not cancelled.
unfoldable pub finish :
    {F : Type 0}
    → Shares F
    → ℕ
    → Bytes
    → DiskMetrics F
    → DiskUsage F
    → Cache F
    → DiskUsage F × Cache F
unfolding apply_mount_usage store_disk_usage
finish shares now host mount result cache =
    let usage = apply_mount_usage shares result mount in
    (usage, store_disk_usage now host usage cache)
