-- ===== src/Collector/Breakdown/Measured.antt =====
-- internal/collector/disk_usage.go: the walk of a tree against its measure.
use owlwatch.Prelude.{
  ℕ, ◌+◌, ◌^◌, ◌≤◌, ◌<◌, ◌≡◌, inl, inr, refl, ap, ◌∙◌, arith, Bool, false, ◌||◌, Option, none, some,
  ge→ltb, if◌then◌else◌, List, Bytes, Bool-cases,
}
use owlwatch.Collector.Breakdown.{Paths}
use owlwatch.Collector.Breakdown.Scan.{
  entry_limit, Node, file, special, locked, folder, Nodes, no_more, also, name_of, Walk, count,
  enter, call_again, left_out, walk_node, walk_nodes,
}

-- Calls of the function, bytes of regular files, and what cannot be read.
pub record Measure : Type 0 where
  pub entries : ℕ
  pub bytes : ℕ
  pub errors : ℕ

unfoldable pub measure : ℕ → ℕ → ℕ → Measure
measure entries bytes errors = record { entries = entries; bytes = bytes; errors = errors }

unfoldable pub plus : Measure → Measure → Measure
plus a b = record {
  entries = a.entries + b.entries;
  bytes = a.bytes + b.bytes;
  errors = a.errors + b.errors;
}

module _ (paths : Paths) (mounts : List Bytes) (ended : ℕ → Bool) where
  open paths use {join}

  -- The tree below `path`, without the directories that are left out, which count as one entry.
  unfoldable mutual
    unfolding measure plus

    pub measure_node : Bool → Bytes → Node → Measure
    measure_node root path (file name none) = measure 1 0 1
    measure_node root path (file name (some n)) = measure 1 n 0
    measure_node root path (special name) = measure 1 0 0
    measure_node root path (locked name) =
        if left_out paths mounts ended root path then measure 1 0 0 else measure 2 0 1
    measure_node root path (folder name nodes) =
        let inside = measure_nodes path nodes in
        if left_out paths mounts ended root path then measure 1 0 0 else plus (measure 1 0 0) inside

    pub measure_nodes : Bytes → Nodes → Measure
    measure_nodes path no_more = measure 0 0 0
    measure_nodes path (also node nodes) =
        plus (measure_node false (join path (name_of node)) node) (measure_nodes path nodes)

  -- A walk with the measure of what it has met added.
  unfoldable pub add : Measure → Walk → Walk
  add m w = record w {
    visited = w.visited + m.entries;
    size = w.size + m.bytes;
    skipped = w.skipped + m.errors;
  }

  -- There is room for a measure: the walk goes on, stays within the limit, and its size fits.
  pub record Room (m : Measure) (w : Walk) : Type 0 where
    pub going : w.limit_hit ≡ false
    pub few : w.visited + m.entries ≤ entry_limit
    pub small : w.size + m.bytes < 2 ^ 64

  enter-Room :
      (w : Walk)
      → ((v : ℕ) → ended v ≡ false)
      → w.limit_hit ≡ false
      → w.visited + 1 ≤ entry_limit
      → enter paths mounts ended w ≡ (false, record w { visited = w.visited + 1 })
  unfolding enter
  enter-Room w open_ended going few =
      let not_done : (w.limit_hit || ended w.visited) ≡ false = rw going (open_ended w.visited) in
      rw (not_done, ge→ltb entry_limit (w.visited + 1) few, enter) refl

  walk-ext :
      (w : Walk) (v s k v' s' k' : ℕ)
      → v ≡ v'
      → s ≡ s'
      → k ≡ k'
      → ◌≡◌ {A = Bool × Walk}
          (false, record w { visited = v; size = s; skipped = k })
          (false, record w { visited = v'; size = s'; skipped = k' })
  walk-ext w v s k v' s' k' e1 e2 e3 =
      ap (λ x. (false, record w { visited = x; size = s; skipped = k })) e1
      ∙ ap (λ x. (false, record w { visited = v'; size = x; skipped = k })) e2
      ∙ ap (λ x. (false, record w { visited = v'; size = s'; skipped = x })) e3

  module _ (open_ended : (v : ℕ) → ended v ≡ false) where
    file-eq-add :
        (root : Bool) (path name : Bytes) (info : Option ℕ) (w : Walk)
        → Room (measure_node root path (file name info)) w
        → walk_node paths mounts ended root path (file name info) w
          ≡ (false, add (measure_node root path (file name info)) w)
    unfolding walk_node measure_node measure add count
    file-eq-add root path name none w room =
        rw (enter-Room w open_ended room.going room.few)
          (walk-ext w _ _ _ _ _ _ refl (omega arith) refl)
    file-eq-add root path name (some n) w room =
        let fits = room.small in
        rw (enter-Room w open_ended room.going room.few)
          (walk-ext w _ _ _ _ _ _ refl (omega arith) (omega arith))

    special-eq-add :
        (root : Bool) (path name : Bytes) (w : Walk)
        → Room (measure_node root path (special name)) w
        → walk_node paths mounts ended root path (special name) w
          ≡ (false, add (measure_node root path (special name)) w)
    unfolding walk_node measure_node measure add
    special-eq-add root path name w room =
        enter-Room w open_ended room.going room.few
        ∙ walk-ext w _ _ _ _ _ _ refl (omega arith) (omega arith)

    out_lem :
        (path : Bytes) (w : Walk)
        → Room (measure 1 0 0) w
        → ◌≡◌ {A = Bool × Walk}
            (false, record w { visited = w.visited + 1 })
            (false, add (measure 1 0 0) w)
    unfolding measure add
    out_lem path w room = walk-ext w _ _ _ _ _ _ refl (omega arith) (omega arith)

    locked-eq-add :
        (root : Bool) (path name : Bytes) (w : Walk)
        → Room (measure_node root path (locked name)) w
        → walk_node paths mounts ended root path (locked name) w
          ≡ (false, add (measure_node root path (locked name)) w)
    unfolding walk_node measure_node measure add call_again
    locked-eq-add root path name w room =
        elim (Bool-cases (left_out paths mounts ended root path)) [
          | inl out ↦
              let room' : Room (measure 1 0 0) w = rw (out, measure_node) at room in
              rw (enter-Room w open_ended room'.going room'.few, out, measure_node)
                (out_lem path w room')
          | inr in_it ↦
              let room' : Room (measure 2 0 1) w = rw (in_it, measure_node) at room in
              rw
                (
                  enter-Room w open_ended room'.going (omega (arith, room'.few)),
                  in_it,
                  enter-Room (record w { visited = w.visited + 1 }) open_ended room'.going
                      (omega (arith, room'.few)),
                )
                (walk-ext w _ _ _ _ _ _ (omega arith) (omega arith) refl)
        ]

    folder_lem :
        (m : Measure) (w : Walk)
        → ◌≡◌ {A = Bool × Walk}
            (false, add m (record w { visited = w.visited + 1 }))
            (false, add (plus (measure 1 0 0) m) w)
    unfolding measure plus add
    folder_lem m w = walk-ext w _ _ _ _ _ _ (omega arith) (omega arith) (omega arith)

    Room-inside :
        (m : Measure) (w : Walk)
        → Room (plus (measure 1 0 0) m) w
        → Room m (record w { visited = w.visited + 1 }) × (w.visited + 1 ≤ entry_limit)
    unfolding measure plus
    Room-inside m w room = (
      record {
        going = room.going;
        few = omega (arith, room.few);
        small = omega (arith, room.small);
      },
      omega (arith, room.few),
    )

    Room-plus : (a b : Measure) (w : Walk) → Room (plus a b) w → Room a w × Room b (add a w)
    unfolding plus add
    Room-plus a b w room = (
      record {
        going = room.going;
        few = omega (arith, room.few);
        small = omega (arith, room.small);
      },
      record {
        going = room.going;
        few = omega (arith, room.few);
        small = omega (arith, room.small);
      },
    )

    add-plus :
        (a b : Measure) (w : Walk)
        → ◌≡◌ {A = Bool × Walk} (false, add b (add a w)) (false, add (plus a b) w)
    unfolding plus add
    add-plus a b w = walk-ext w _ _ _ _ _ _ (omega arith) (omega arith) (omega arith)

    one_few : (w : Walk) → Room (measure 1 0 0) w → w.visited + 1 ≤ entry_limit
    unfolding measure
    one_few w room = room.few

    none_lem : (w : Walk) → ◌≡◌ {A = Bool × Walk} (false, w) (false, add (measure 0 0 0) w)
    unfolding measure add
    none_lem w = walk-ext w _ _ _ _ _ _ (omega arith) (omega arith) (omega arith)

    mutual
      unfolding walk_node walk_nodes measure_node measure_nodes

      node-eq-add :
          (root : Bool) (path : Bytes) (node : Node) (w : Walk)
          → Room (measure_node root path node) w
          → walk_node paths mounts ended root path node w
            ≡ (false, add (measure_node root path node) w)
      node-eq-add root path (file name info) w room = file-eq-add root path name info w room
      node-eq-add root path (special name) w room = special-eq-add root path name w room
      node-eq-add root path (locked name) w room = locked-eq-add root path name w room
      node-eq-add root path (folder name nodes) w room =
          elim (Bool-cases (left_out paths mounts ended root path)) [
            | inl out ↦
                let room' : Room (measure 1 0 0) w = rw (out, measure_node) at room in
                rw (enter-Room w open_ended room'.going (one_few w room'), out, measure_node)
                  (out_lem path w room')
            | inr in_it ↦
                let m = measure_nodes path nodes in
                let room' : Room (plus (measure 1 0 0) m) w = rw (in_it, measure_node) at room in
                let (inside, few) = Room-inside m w room' in
                rw
                  (
                    enter-Room w open_ended room'.going few,
                    in_it,
                    nodes-eq-add path nodes (record w { visited = w.visited + 1 }) inside,
                    measure_node,
                  )
                  (folder_lem m w)
          ]

      nodes-eq-add :
          (path : Bytes) (nodes : Nodes) (w : Walk)
          → Room (measure_nodes path nodes) w
          → walk_nodes paths mounts ended path nodes w ≡ (false, add (measure_nodes path nodes) w)
      nodes-eq-add path no_more w room = none_lem w
      nodes-eq-add path (also node nodes) w room =
          let a = measure_node false (join path (name_of node)) node in
          let b = measure_nodes path nodes in
          let (first, rest) = Room-plus a b w room in
          rw (node-eq-add false (join path (name_of node)) node w first)
            (nodes-eq-add path nodes (add a w) rest ∙ add-plus a b w)

    -- A walk that nothing interrupts, over a tree that stays within the limit of entries and whose sizes
    -- fit uint64, measures just that tree: the sizes of its regular files, the entries it has, and what
    -- of it cannot be read, without the directories below the root that are mounts of their own.
    pub walk_node-eq-add :
        (root : Bool) (path : Bytes) (node : Node) (w : Walk)
        → Room (measure_node root path node) w
        → walk_node paths mounts ended root path node w
          ≡ (false, add (measure_node root path node) w)
    walk_node-eq-add = node-eq-add
