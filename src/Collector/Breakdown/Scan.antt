-- ===== src/Collector/Breakdown/Scan.antt =====
-- internal/collector/disk_usage.go: the recursive walk of one entry, as filepath.WalkDir calls the
-- function of `measureDiskItem`. The tree is what the walk meets; a context that ends is told by the
-- number of entries visited.
use owlwatch.Prelude.{
  ℕ, ◌+◌, ◌%◌, ◌^◌, Bool, true, false, not, ◌&&◌, ◌||◌, Option, none, some, ltb, if◌then◌else◌,
  List, Bytes,
}
use owlwatch.Collector.Partitions.{one_of}
use owlwatch.Collector.Breakdown.{Paths}

abbrev pub entry_limit : ℕ
entry_limit = 2000000

-- A regular file with its size on disk, if it can be read; a link, device, pipe or socket; a directory
-- that cannot be listed; and a directory with its entries.
mutual
  pub data Node : Type 0 where
    file : Bytes → Option ℕ → Node
    special locked : Bytes → Node
    folder : Bytes → Nodes → Node

  pub data Nodes : Type 0 where
    no_more : Nodes
    also : Node → Nodes → Nodes

unfoldable pub name_of : Node → Bytes
name_of (file name size) = name
name_of (special name) = name
name_of (locked name) = name
name_of (folder name nodes) = name

-- `visited` and `limitHit`, which all entries share, and `size` and `skipped` of one entry.
pub record Walk : Type 0 where
  pub visited : ℕ
  pub limit_hit : Bool
  pub size : ℕ
  pub skipped : ℕ

-- A regular file; the sizes are uint64.
unfoldable pub count : Option ℕ → Walk → Walk
count none w = record w { skipped = w.skipped + 1 }
count (some n) w = record w { size = (w.size + n) % 2 ^ 64 }

module _ (paths : Paths) (mounts : List Bytes) (ended : ℕ → Bool) where
  open paths use {clean, join}

  -- How each call of the function begins; true where it stops the walk.
  unfoldable pub enter : Walk → Bool × Walk
  enter w =
      if w.limit_hit || ended w.visited
      then (true, w)
      else if ltb entry_limit (w.visited + 1)
      then (true, record w { visited = w.visited + 1; limit_hit = true })
      else (false, record w { visited = w.visited + 1 })

  -- The call for a directory that cannot be listed, after the one for its entry.
  unfoldable pub call_again : Walk → Bool × Walk
  unfolding enter
  call_again w =
      let (stop, w') = enter w in
      if stop then (true, w') else (false, record w' { skipped = w'.skipped + 1 })

  -- A directory below the root that is a mount of its own is not entered.
  unfoldable pub left_out : Bool → Bytes → Bool
  unfolding one_of
  left_out root path = not root && one_of (clean path) mounts

  unfoldable mutual
    unfolding enter call_again left_out count name_of

    pub walk_node : Bool → Bytes → Node → Walk → Bool × Walk
    walk_node root path (file name size) w =
        let (stop, w') = enter w in if stop then (true, w') else (false, count size w')
    walk_node root path (special name) w = enter w
    walk_node root path (locked name) w =
        let (stop, w') = enter w in
        if stop then (true, w') else if left_out root path then (false, w') else call_again w'
    walk_node root path (folder name nodes) w =
        let (stop, w') = enter w in
        let inside = walk_nodes path nodes w' in
        if stop then (true, w') else if left_out root path then (false, w') else inside

    pub walk_nodes : Bytes → Nodes → Walk → Bool × Walk
    walk_nodes path no_more w = (false, w)
    walk_nodes path (also node nodes) w =
        let (stop, w') = walk_node false (join path (name_of node)) node w in
        let rest = walk_nodes path nodes w' in if stop then (true, w') else rest
