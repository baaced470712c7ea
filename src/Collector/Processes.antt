-- ===== src/Collector/Processes.antt =====
-- internal/collector/processes.go: the rankings of processes by CPU and by memory. Times are nanoseconds;
-- the zero time.Time is `none`. float64 and what gopsutil answers are arguments.
pub mod Ranking
pub mod Baseline
mod Examples
use owlwatch.Prelude.{
  ℕ, ◌+◌, Bool, true, false, not, ◌&&◌, ◌||◌, List, [], ◌∷◌, ◌++◌, Option, none, some, ltb, ◌==◌,
  if◌then◌else◌, take, sort, Bytes, bytes, same,
}
use mathlib.Core.Option.{get_or}
use owlwatch.Metrics.{ProcessCpuMetrics, ProcessMemoryMetrics}
use owlwatch.Peers.Config.{trim_space}

abbrev pub process_sample_interval : ℕ
process_sample_interval = 10000000000

abbrev pub top_process_count : ℕ
top_process_count = 10

-- The operations on float64: `seconds now last` is `now.Sub(last).Seconds()`, and `less` the order of
-- cmp.Compare, on which `>` agrees for numbers.
pub record Arithmetic (F : Type 0) : Type 0 where
  pub of_nat : ℕ → F
  pub seconds : ℕ → ℕ → F
  pub add : F → F → F
  pub sub : F → F → F
  pub mul : F → F → F
  pub div : F → F → F
  pub less : F → F → Bool
  pub is_zero : F → Bool

pub record CpuTime (F : Type 0) : Type 0 where
  pub created : ℕ
  pub seconds : F

-- What one walk learns about one process.
pub record Reading (F : Type 0) : Type 0 where
  pub pid : ℕ
  pub name : Bytes
  pub rss : ℕ
  pub cpu : CpuTime F

-- `processSampler`
pub record Sampler (F : Type 0) : Type 0 where
  pub next : Option ℕ
  pub last_walk : Option ℕ
  pub cpu_times : List (ℕ × CpuTime F)
  pub top_cpu : List (ProcessCpuMetrics F)
  pub top_mem : List (ProcessMemoryMetrics F)

-- What gopsutil answers about a process; `none` is an error.
pub record Process (F : Type 0) : Type 0 where
  pub pid : ℕ
  pub rss : Option ℕ
  pub times : Option (F × F)
  pub created : Option ℕ
  pub name : Option Bytes

-- `now.Before(ps.next)`
unfoldable pub waits : ℕ → Option ℕ → Bool
waits now none = false
waits now (some t) = ltb now t

-- A map by PID, the newest entry first.
unfoldable pub lookup_pid : {V : Type 0} → ℕ → List (ℕ × V) → Option V
lookup_pid pid [] = none
lookup_pid pid ((p, v) ∷ m) = if p == pid then some v else lookup_pid pid m

-- The name of a process, or "PID n".
unfoldable pub name_of : (ℕ → Bytes) → ℕ → Option Bytes → Bytes
unfolding trim_space
name_of decimal pid none = bytes "PID " ++ decimal pid
name_of decimal pid (some name) =
    if same (trim_space name) [] then bytes "PID " ++ decimal pid else name

-- The CPU times of the walk, for the next one.
unfoldable pub times_of :
    {F : Type 0} → List (Reading F) → List (ℕ × CpuTime F) → List (ℕ × CpuTime F)
times_of [] times = times
times_of (r ∷ rs) times = times_of rs ((r.pid, r.cpu) ∷ times)

-- `rankTop`: the largest first, and the lower PID first among equals.
module _ {K T : Type 0} (less : K → K → Bool) (key : T → K) (pid : T → ℕ) where
  unfoldable pub before : T → T → Bool
  before a b =
      if less (key b) (key a)
      then true
      else if less (key a) (key b)
      then false
      else ltb (pid a) (pid b)

  unfoldable pub rank_top : ℕ → List T → List T
  unfolding before
  rank_top limit rows = take limit (sort before rows)

unfoldable pub rank_processes :
    {F : Type 0} → List (ProcessMemoryMetrics F) → List (ProcessMemoryMetrics F)
unfolding rank_top
rank_processes rows = rank_top ltb (λ r. r.used) (λ r. r.pid) top_process_count rows

module _ {F : Type 0} (floats : Arithmetic F) where
  open floats use {of_nat, seconds, add, sub, mul, div, less, is_zero}

  unfoldable pub rank_cpu_processes : List (ProcessCpuMetrics F) → List (ProcessCpuMetrics F)
  unfolding rank_top
  rank_cpu_processes rows = rank_top less (λ r. r.usage_pct) (λ r. r.pid) top_process_count rows

  unfoldable pub mem_rows : ℕ → List (Reading F) → List (ProcessMemoryMetrics F)
  mem_rows total [] = []
  mem_rows total (r ∷ rs) =
      let rest = mem_rows total rs in
      if ltb 0 r.rss
      then record {
        pid = r.pid;
        name = r.name;
        used = r.rss;
        used_pct =
            if ltb 0 total then mul (div (of_nat r.rss) (of_nat total)) (of_nat 100) else of_nat 0;
      }
        ∷ rest
      else rest

  unfoldable pub minimum : F → F → F
  minimum a b = if less b a then b else a

  -- The row of one process, from the time since the last walk, if that has a reading of it.
  unfoldable pub cpu_row : F → ℕ → Reading F → Option (CpuTime F) → List (ProcessCpuMetrics F)
  unfolding minimum
  cpu_row elapsed cores r none = []
  cpu_row elapsed cores r (some prev) =
      if not (prev.created == r.cpu.created)
      then []
      else if less (of_nat 0) (sub r.cpu.seconds prev.seconds)
      then record {
        pid = r.pid;
        name = r.name;
        usage_pct =
            minimum
              (mul (div (div (sub r.cpu.seconds prev.seconds) elapsed) (of_nat cores)) (of_nat 100))
              (of_nat 100);
      }
        ∷ []
      else []

  unfoldable pub cpu_rows :
      F → ℕ → List (ℕ × CpuTime F) → List (Reading F) → List (ProcessCpuMetrics F)
  unfolding cpu_row lookup_pid
  cpu_rows elapsed cores times [] = []
  cpu_rows elapsed cores times (r ∷ rs) =
      cpu_row elapsed cores r (lookup_pid r.pid times) ++ cpu_rows elapsed cores times rs

  -- Where there is a baseline: a walk before, an elapsed time that is positive, and cores.
  unfoldable pub cpu_rows_since :
      Option ℕ → ℕ → ℕ → List (ℕ × CpuTime F) → List (Reading F) → List (ProcessCpuMetrics F)
  unfolding cpu_rows
  cpu_rows_since none now cores times readings = []
  cpu_rows_since (some last) now cores times readings =
      if less (of_nat 0) (seconds now last) && ltb 0 cores
      then cpu_rows (seconds now last) cores times readings
      else []

  unfoldable pub update : List (Reading F) → ℕ → ℕ → ℕ → Sampler F → Sampler F
  unfolding cpu_rows_since mem_rows times_of rank_cpu_processes rank_processes
  update readings now cores total ps = record ps {
    cpu_times = times_of readings [];
    last_walk = some now;
    top_cpu = rank_cpu_processes (cpu_rows_since ps.last_walk now cores ps.cpu_times readings);
    top_mem = rank_processes (mem_rows total readings);
  }

  unfoldable pub cpu_seconds : Option (F × F) → F
  cpu_seconds none = of_nat 0
  cpu_seconds (some (user, system)) = add user system

  unfoldable pub read_process : (ℕ → Bytes) → Process F → Option (Reading F)
  unfolding name_of cpu_seconds
  read_process decimal p =
      let rss = get_or p.rss 0 in
      let used = cpu_seconds p.times in
      if (rss == 0) && is_zero used
      then none
      else some (record {
        pid = p.pid;
        name = name_of decimal p.pid p.name;
        rss = rss;
        cpu = record { created = get_or p.created 0; seconds = used };
      })

  unfoldable pub readings_of : (ℕ → Bytes) → List (Process F) → List (Reading F)
  unfolding read_process
  readings_of decimal [] = []
  readings_of decimal (p ∷ ps) = elim (read_process decimal p) [
    | none ↦ readings_of decimal ps
    | some r ↦ r ∷ readings_of decimal ps
  ]

  -- After a list of processes that came: those that are read before the timeout.
  unfoldable pub walk : (ℕ → Bytes) → ℕ → ℕ → ℕ → ℕ → List (Process F) → Sampler F → Sampler F
  unfolding update readings_of
  walk decimal num_cpu now cores total processes ps =
      update (readings_of decimal processes) now (if cores == 0 then num_cpu else cores) total
        (record ps {
          next = elim ps.last_walk [
            | none ↦ some now
            | some _ ↦ some (now + process_sample_interval)
          ];
        })

  -- `sampleProcesses`, up to the rankings that it returns; `none` is a failure to list the processes.
  unfoldable pub sample_processes :
      (ℕ → Bytes) → ℕ → ℕ → ℕ → ℕ → Option (List (Process F)) → Sampler F → Sampler F
  unfolding walk
  sample_processes decimal num_cpu now cores total listed ps =
      if waits now ps.next then ps else elim listed [
        | none ↦ record ps { next = some (now + process_sample_interval) }
        | some processes ↦ walk decimal num_cpu now cores total processes ps
      ]

abbrev pub rankings :
    {F : Type 0} → Sampler F → List (ProcessCpuMetrics F) × List (ProcessMemoryMetrics F)
rankings ps = (ps.top_cpu, ps.top_mem)
