-- ===== src/Store.antt =====
-- internal/store/store.go: the rows that a snapshot becomes, and the transactions that write and prune
-- them. The database is an argument: its states, its open transactions, and the statements of the code
-- as steps that can fail; `none` is an error of that step.
pub mod Writes
pub mod Effects
pub mod Query
mod Examples
use owlwatch.Prelude.{
  ℕ, ◌+◌, ◌-◌, ◌%◌, ◌/◌, ◌^◌, Bool, true, false, List, [], ◌∷◌, Option, none, some, if◌then◌else◌,
  length, Bytes, ℤ, to_int64,
}
use owlwatch.Metrics.{Snapshot, GpuMetrics, DiskMetrics}

-- The operations on float64.
pub record Arithmetic (F : Type 0) : Type 0 where
  pub zero_value : F
  pub add : F → F → F
  pub divide_by : F → ℕ → F
  pub less : F → F → Bool

-- A row of `samples`; `none` is NULL.
pub record SampleRow (F : Type 0) : Type 0 where
  pub ts : ℕ
  pub cpu_pct : F
  pub mem_used : ℤ
  pub mem_pct : F
  pub swap_used : ℤ
  pub gpu_util : Option F
  pub gpu_mem : Option ℤ
  pub gpu_temp : Option F

-- The tables and the comparisons of SQL with a bound parameter.
pub data Table : Type 0 where
  samples disk_samples : Table

pub data Comparison : Type 0 where
  is_less is_at_most is_equal is_at_least is_greater : Comparison

-- The statements that `Insert` and `Prune` run, in a transaction: `delete_where t op n` is
-- `DELETE FROM t WHERE ts op ?`, with `n` bound.
pub record Database (F : Type 0) : Type 1 where
  pub State : Type 0
  pub Tx : Type 0
  pub begin : State → Option Tx
  pub put_sample : SampleRow F → Tx → Option Tx
  pub put_disk : ℕ → Bytes → F → Tx → Option Tx
  pub delete_where : Table → Comparison → ℕ → Tx → Option Tx
  pub commit : Tx → Option State

pub data Error : Type 0 where
  begin_insert insert_sample commit_insert : Error
  insert_disk : Bytes → Error
  begin_prune prune_samples prune_disks commit_prune : Error

-- A write that succeeds leaves a new state; after an error the transaction is rolled back.
pub data Written (S : Type 0) : Type 0 where
  written : S → Written S
  failed : Error → Written S

-- A sum of uint64 wraps around.
unfoldable pub mem_sum : {F : Type 0} → ℕ → List (GpuMetrics F) → ℕ
mem_sum sum [] = sum
mem_sum sum (g ∷ gpus) = mem_sum ((sum + g.mem_used) % 2 ^ 64) gpus

module _ {F : Type 0} (floats : Arithmetic F) where
  open floats use {zero_value, add, divide_by, less}

  -- The sums over all cards and the highest temperature, the first card's being given.
  unfoldable pub util_sum : F → List (GpuMetrics F) → F
  util_sum sum [] = sum
  util_sum sum (g ∷ gpus) = util_sum (add sum g.util_pct) gpus

  unfoldable pub temp_max : F → List (GpuMetrics F) → F
  temp_max top [] = top
  temp_max top (g ∷ gpus) = temp_max (if less top g.temp_c then g.temp_c else top) gpus

  unfoldable pub gpu_columns : List (GpuMetrics F) → Option F × Option ℤ × Option F
  unfolding util_sum temp_max
  gpu_columns [] = (none, none, none)
  gpu_columns (g ∷ gpus) =
      let cards = g ∷ gpus in
      (
        some (divide_by (util_sum zero_value cards) (length cards)),
        some (to_int64 (mem_sum 0 cards)),
        some (temp_max g.temp_c cards),
      )

  unfoldable pub sample_row : Snapshot F → SampleRow F
  unfolding gpu_columns
  sample_row snap =
      let (util, mem, temp) = gpu_columns snap.gpus in
      record {
        ts = snap.ts;
        cpu_pct = snap.cpu.usage_pct;
        mem_used = to_int64 snap.mem.used;
        mem_pct = snap.mem.used_pct;
        swap_used = to_int64 snap.mem.swap_used;
        gpu_util = util;
        gpu_mem = mem;
        gpu_temp = temp;
      }

module _ {F : Type 0} (db : Database F) where
  open db use {State, Tx, begin, put_sample, put_disk, delete_where, commit}

  -- The loop over the disks, and the commit after it.
  unfoldable pub put_disks : ℕ → List (DiskMetrics F) → Tx → Written State
  put_disks ts [] tx = elim (commit tx) [ none ↦ failed commit_insert | some s ↦ written s ]
  put_disks ts (d ∷ disks) tx = elim (put_disk ts d.mount d.used_pct tx) [
    | none ↦ failed (insert_disk d.mount)
    | some tx' ↦ put_disks ts disks tx'
  ]

  -- `Insert`
  unfoldable pub insert : Arithmetic F → Snapshot F → State → Written State
  unfolding put_disks
  insert floats snap s = elim (begin s) [
    | none ↦ failed begin_insert
    | some tx ↦ elim (put_sample (sample_row floats snap) tx) [
      | none ↦ failed insert_sample
      | some tx' ↦ put_disks snap.ts snap.disks tx'
    ]
  ]

  -- `Prune`, at the time `now` and for an age in nanoseconds
  unfoldable pub prune : ℕ → ℕ → State → Written State
  prune now older_than s = elim (begin s) [
    | none ↦ failed begin_prune
    | some tx ↦ elim (delete_where samples is_less ((now - older_than) / 1000000) tx) [
      | none ↦ failed prune_samples
      | some tx1 ↦ elim (delete_where disk_samples is_less ((now - older_than) / 1000000) tx1) [
        | none ↦ failed prune_disks
        | some tx2 ↦ elim (commit tx2) [ none ↦ failed commit_prune | some s' ↦ written s' ]
      ]
    ]
  ]
