-- ===== src/Collector/Breakdown/Examples.antt =====
-- internal/collector/disk_usage.go at a host with two disks, at a cache, and at a small tree.
use owlwatch.Prelude.{
  ℕ, List, map, sort, insert_sorted, ◌+◌, ◌≡◌, ◌≤◌, refl, arith, true, false, [], ◌∷◌, ◌++◌, none,
  some, ltb, if◌then◌else◌, length, Bytes, bytes, same, lookup, cut_prefix, ◌⊎◌, ◌≢◌, All,
}
use owlwatch.Metrics.{Snapshot, DiskMetrics, DiskUsage}
use owlwatch.Peers.Client.Sample.{snapshot_at}
use owlwatch.Collector.Breakdown.{
  Cache, Paths, Files, Shares, cached_disk_usage, store_disk_usage, cache_cap, cache_ttl,
}
use owlwatch.Collector.Partitions.{one_of}
use owlwatch.Collector.Breakdown.Scan.{
  Node, file, special, folder, no_more, also, name_of, Walk, count, enter, left_out, walk_node,
  walk_nodes,
}
use owlwatch.Collector.Breakdown.Measured.{
  measure, plus, measure_node, measure_nodes, add, Room, walk_node-eq-add,
}
use owlwatch.Collector.Breakdown.Items.{
  Entry, item_of, no_info, leaf, directory, walked, measured_node, measure_disk_item, measure_all,
  items_of, skipped_in, larger, top_items, scanned, scan_disk_children,
}
use owlwatch.Collector.Breakdown.Cached.{IsOldest, store_disk_usage-cached}
use owlwatch.Collector.Breakdown.Containing.{Containing}
use mathlib.Core.Option.{get_or}

-- Paths that are clean already, and relative paths below the root or a mount of one name.
abbrev clean_paths : Paths
clean_paths = record {
  clean = λ path. path;
  is_abs = λ path. true;
  rel = λ root path.
      if same root (bytes "/")
      then cut_prefix path (bytes "/")
      else if same path root
      then some (bytes ".")
      else some (get_or (cut_prefix path (root ++ bytes "/")) (bytes ".."));
  join = λ a b. a ++ b;
}

-- No links, and directories only.
abbrev plain_files : Files
plain_files = record {
  is_link = λ path. some false;
  eval_symlinks = λ path. some path;
  is_dir = λ path. some true;
}

abbrev shares : Shares ℕ
shares = record { share = λ size used. size; zero_value = 0; less = ltb }

abbrev disk_at : Bytes → ℕ → DiskMetrics ℕ
disk_at mount pct = record {
  mount = mount;
  device = [];
  fstype = bytes "ext4";
  total = 10;
  used = 5;
  free = 5;
  used_pct = pct;
}

abbrev two_disks : Snapshot ℕ
two_disks = record (snapshot_at 1000 10) {
  disks = disk_at (bytes "/") 50 ∷ disk_at (bytes "/nas") 70 ∷ [];
}

abbrev nothing_there : DiskUsage ℕ
nothing_there = record {
  path = bytes "/nas";
  mount = bytes "/nas";
  mount_used = 5;
  items = [];
  scanned_entries = 0;
  skipped_entries = 0;
  truncated = false;
}

abbrev one_result : Cache ℕ
one_result = (bytes "/nas", record { at = 0; usage = nothing_there }) ∷ []

one_result-named : All (λ e. e.0 ≢ []) one_result
one_result-named = ((λ e. absurd cc), tt)

store_disk_usage-cached_example :
    (length (store_disk_usage 1000 (bytes "/") nothing_there one_result) ≤ cache_cap)
    × (length (cached_disk_usage 2000 (bytes "/") one_result).1 ≤ cache_cap)
    × ((cached_disk_usage 2000
          (bytes "/")
          (store_disk_usage 1000 (bytes "/") nothing_there one_result)).0
        ≡ (if ltb 2000 (1000 + cache_ttl) then some nothing_there else none))
    × ((lookup (bytes "/nas") (store_disk_usage 1000 (bytes "/") nothing_there one_result)
          ≡ lookup (bytes "/nas") one_result)
        ⊎ (bytes "/nas" ≡ bytes "/")
        ⊎ ((cache_cap ≤ length one_result) × IsOldest (bytes "/nas") one_result))
store_disk_usage-cached_example =
    store_disk_usage-cached 1000 2000 (bytes "/") (bytes "/nas") nothing_there one_result
      (omega arith) one_result-named

-- A directory with a file of 5 bytes, one that cannot be read, and a mount of its own.
abbrev tree : Node
tree = folder (bytes "/srv") (
    also (file (bytes "/a") (some 5)) (
      also (file (bytes "/b") none)
        (also (folder (bytes "/mnt") (also (file (bytes "/c") (some 9)) no_more)) no_more)))

abbrev at_start : Walk
at_start = record { visited = 0; limit_hit = false; size = 0; skipped = 0 }

abbrev other_mounts : List Bytes
other_mounts = bytes "/srv/mnt" ∷ []

tree-Room :
    Room clean_paths other_mounts
      (λ _. false)
      (measure_node clean_paths other_mounts (λ _. false) true (bytes "/srv") tree)
      at_start
unfolding measure_node measure_nodes measure plus left_out one_of same name_of
tree-Room = record { going = refl; few = omega arith; small = omega arith }

tree-measured :
    walk_node clean_paths other_mounts (λ _. false) true (bytes "/srv") tree at_start
    ≡ (false, record { visited = 4; limit_hit = false; size = 5; skipped = 1 })
unfolding walk_node walk_nodes enter count left_out one_of same name_of
tree-measured = refl

walk_node-eq-add_example :
    walk_node clean_paths other_mounts (λ _. false) true (bytes "/srv") tree at_start ≡ (
      false,
      add clean_paths other_mounts
          (λ _. false)
          (measure_node clean_paths other_mounts (λ _. false) true (bytes "/srv") tree)
          at_start,
    )
walk_node-eq-add_example =
    walk_node-eq-add clean_paths other_mounts (λ _. false) (λ v. refl) true (bytes "/srv") tree
      at_start tree-Room

abbrev listed : List Entry
listed =
    record { node = tree; is_link = false; has_info = true; is_there = true }
    ∷ record { node = special (bytes "/link"); is_link = true; has_info = true; is_there = true }
    ∷ record {
      node = file (bytes "/big") (some 7);
      is_link = false;
      has_info = true;
      is_there = true;
    }
    ∷ []

sizes_ranked :
    map
      (λ item. item.size)
      (scan_disk_children {F = ℕ} 0 clean_paths other_mounts (λ _. false) false [] [] listed).items
    ≡ 7 ∷ 5 ∷ []
unfolding scan_disk_children scanned measure_all measure_disk_item measured_node walked leaf
    directory no_info item_of items_of skipped_in top_items larger sort insert_sorted walk_node
    walk_nodes enter count left_out one_of same name_of
sizes_ranked = refl
