-- ===== src/Metrics.antt =====
-- internal/metrics/types.go and internal/metrics/federation.go: the data that the collector, the
-- store, the hub and the server share. `F` stands for float64, which the code only stores, passes on
-- and compares; integers are natural numbers (times after 1970, sizes and counts); a nil pointer is
-- `none`, and a nil slice is the empty list.
use owlwatch.Prelude.{ℕ, Bool, List, Option, Bytes}

pub record ProcessCpuMetrics (F : Type 0) : Type 0 where
  pub pid : ℕ
  pub name : Bytes
  pub usage_pct : F

pub record CpuMetrics (F : Type 0) : Type 0 where
  pub usage_pct : F
  pub per_core : List F
  pub load1 : F
  pub load5 : F
  pub load15 : F
  pub top_processes : List (ProcessCpuMetrics F)

pub record ProcessMemoryMetrics (F : Type 0) : Type 0 where
  pub pid : ℕ
  pub name : Bytes
  pub used : ℕ
  pub used_pct : F

pub record MemMetrics (F : Type 0) : Type 0 where
  pub total : ℕ
  pub used : ℕ
  pub available : ℕ
  pub used_pct : F
  pub swap_total : ℕ
  pub swap_used : ℕ
  pub top_processes : List (ProcessMemoryMetrics F)

pub record DiskMetrics (F : Type 0) : Type 0 where
  pub mount : Bytes
  pub device : Bytes
  pub fstype : Bytes
  pub total : ℕ
  pub used : ℕ
  pub free : ℕ
  pub used_pct : F

pub record GpuMetrics (F : Type 0) : Type 0 where
  pub index : ℕ
  pub name : Bytes
  pub util_pct : F
  pub mem_total : ℕ
  pub mem_used : ℕ
  pub temp_c : F
  pub power_w : F

pub record Snapshot (F : Type 0) : Type 0 where
  pub ts : ℕ
  pub cpu : CpuMetrics F
  pub mem : MemMetrics F
  pub disks : List (DiskMetrics F)
  pub gpus : List (GpuMetrics F)

pub record HostInfo : Type 0 where
  pub hostname : Bytes
  pub os : Bytes
  pub platform : Bytes
  pub kernel_version : Bytes
  pub arch : Bytes
  pub cpu_model : Bytes
  pub cpu_cores : ℕ
  pub mem_total : ℕ
  pub boot_time : ℕ
  pub has_gpu : Bool
  pub gpu_names : List Bytes
  pub version : Bytes

pub record ServerSummary (F : Type 0) : Type 0 where
  pub id : Bytes
  pub name : Bytes
  pub is_local : Bool
  pub online : Bool
  pub last_seen : ℕ
  pub interval_ms : ℕ
  pub host : Option HostInfo
  pub latest : Option (Snapshot F)
  pub recent_cpu : List F

pub record DiskUsageItem (F : Type 0) : Type 0 where
  pub path : Bytes
  pub name : Bytes
  pub kind : Bytes
  pub size : ℕ
  pub used_pct : F
  pub incomplete : Bool

pub record DiskUsage (F : Type 0) : Type 0 where
  pub path : Bytes
  pub mount : Bytes
  pub mount_used : ℕ
  pub items : List (DiskUsageItem F)
  pub scanned_entries : ℕ
  pub skipped_entries : ℕ
  pub truncated : Bool

pub record HistoryPoint (F : Type 0) : Type 0 where
  pub ts : ℕ
  pub cpu_pct : F
  pub cpu_max_pct : F
  pub mem_used : ℕ
  pub mem_pct : F
  pub swap_used : ℕ
  pub gpu_util_pct : Option F
  pub gpu_max_pct : Option F
  pub gpu_mem_used : Option ℕ
  pub gpu_temp_c : Option F
  pub disks : List (Bytes × F)
