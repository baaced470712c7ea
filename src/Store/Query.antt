-- ===== src/Store/Query.antt =====
-- internal/store/store.go: `QueryContext`, from the rows of its two SELECT statements to the points of
-- the history. The statements and math.Round are arguments. Times are nanoseconds, or milliseconds in the rows.
pub mod Buckets
use owlwatch.Prelude.{
  ℕ, ◌-◌, ◌/◌, Bool, true, false, List, [], ◌∷◌, Option, none, some, ◌==◌, ◌||◌, if◌then◌else◌,
  Bytes, insert,
}
use mathlib.Core.Option.{map}
use owlwatch.Metrics.{HistoryPoint}

pub record SampleBucket (F : Type 0) : Type 0 where
  pub bucket : ℕ
  pub cpu_avg : F
  pub cpu_max : F
  pub mem_used : F
  pub mem_pct : F
  pub swap_used : F
  pub gpu_util : Option F
  pub gpu_max : Option F
  pub gpu_mem : Option F
  pub gpu_temp : Option F

pub record DiskBucket (F : Type 0) : Type 0 where
  pub bucket : ℕ
  pub mount : Bytes
  pub pct : F

-- The result of a query: its rows, `none` for one that does not scan, and whether the iteration ends
-- with an error.
abbrev pub Rows : Type 0 → Type 0
Rows A = List (Option A) × Bool

-- The two statements, with the width of a bucket and both ends of the window in milliseconds.
pub record Queries (F : Type 0) : Type 0 where
  pub samples : ℕ → ℕ → ℕ → Option (Rows (SampleBucket F))
  pub disks : ℕ → ℕ → ℕ → Option (Rows (DiskBucket F))

pub data Error : Type 0 where
  invalid_bucket query_samples scan_sample iterate_samples : Error
  query_disks scan_disk iterate_disks : Error

pub data Answer (A : Type 0) : Type 0 where
  answer : A → Answer A
  failed : Error → Answer A

-- `Range`, without its key
pub record Range : Type 0 where
  pub dur : ℕ
  pub bucket : ℕ

module _ {F : Type 0} where
  unfoldable pub point : (F → ℕ) → SampleBucket F → HistoryPoint F
  point round r = record {
    ts = r.bucket;
    cpu_pct = r.cpu_avg;
    cpu_max_pct = r.cpu_max;
    mem_used = round r.mem_used;
    mem_pct = r.mem_pct;
    swap_used = round r.swap_used;
    gpu_util_pct = r.gpu_util;
    gpu_max_pct = r.gpu_max;
    gpu_mem_used = map round r.gpu_mem;
    gpu_temp_c = r.gpu_temp;
    disks = [];
  }

  -- The loop over the rows of `samples`.
  unfoldable pub scan_points :
      (F → ℕ) → List (Option (SampleBucket F)) → Answer (List (HistoryPoint F))
  unfolding point
  scan_points round [] = answer []
  scan_points round (none ∷ rows) = failed scan_sample
  scan_points round (some r ∷ rows) = elim (scan_points round rows) [
    | failed e ↦ failed e
    | answer ps ↦ answer (point round r ∷ ps)
  ]

  unfoldable pub has_bucket : ℕ → List (HistoryPoint F) → Bool
  has_bucket b [] = false
  has_bucket b (p ∷ ps) = (p.ts == b) || has_bucket b ps

  -- `byTS[bucket].Disks[mount] = pct`: the map points to the last of the points with that timestamp.
  unfoldable pub set_disk : DiskBucket F → List (HistoryPoint F) → List (HistoryPoint F)
  unfolding has_bucket
  set_disk d [] = []
  set_disk d (p ∷ ps) =
      let rest = set_disk d ps in
      if has_bucket d.bucket ps
      then p ∷ rest
      else if p.ts == d.bucket
      then record p { disks = insert d.mount d.pct p.disks } ∷ ps
      else p ∷ ps

  -- The loop over the rows of `disk_samples`.
  unfoldable pub fill :
      List (Option (DiskBucket F)) → List (HistoryPoint F) → Answer (List (HistoryPoint F))
  unfolding set_disk
  fill [] ps = answer ps
  fill (none ∷ rows) ps = failed scan_disk
  fill (some d ∷ rows) ps = fill rows (set_disk d ps)

  unfoldable pub filled :
      Rows (DiskBucket F) → List (HistoryPoint F) → Answer (List (HistoryPoint F))
  unfolding fill
  filled (rows, broken) ps = elim (fill rows ps) [
    | failed e ↦ failed e
    | answer ps' ↦ if broken then failed iterate_disks else answer ps'
  ]

  -- `mergeDisks`, with the result of its query
  unfoldable pub merge_disks :
      Option (Rows (DiskBucket F)) → List (HistoryPoint F) → Answer (List (HistoryPoint F))
  unfolding filled
  merge_disks found [] = answer []
  merge_disks none (p ∷ ps) = failed query_disks
  merge_disks (some rows) (p ∷ ps) = filled rows (p ∷ ps)

  unfoldable pub points_of :
      (F → ℕ)
      → Option (Rows (SampleBucket F))
      → Option (Rows (DiskBucket F))
      → Answer (List (HistoryPoint F))
  unfolding scan_points merge_disks
  points_of round none disks = failed query_samples
  points_of round (some (rows, broken)) disks = elim (scan_points round rows) [
    | failed e ↦ failed e
    | answer ps ↦ if broken then failed iterate_samples else merge_disks disks ps
  ]

  -- `QueryContext`
  unfoldable pub query : (F → ℕ) → Queries F → Range → ℕ → Answer (List (HistoryPoint F))
  unfolding points_of
  query round db r now =
      let width = r.bucket / 1000000 in
      let since = (now - r.dur) / 1000000 in
      let until = now / 1000000 in
      if width == 0
      then failed invalid_bucket
      else points_of round (db.samples width since until) (db.disks width since until)
