-- ===== src/Collector/Processes/Examples.antt =====
-- internal/collector/processes.go at two walks of three processes, of which one reuses a PID.
use owlwatch.Prelude.{
  ℕ, ◌+◌, ◌-◌, ◌*◌, ◌/◌, ◌≡◌, refl, arith, List, [], ◌∷◌, Option, none, some, ltb, ◌==◌, length,
  All, Pairwise, ◌++◌, min, IsOrder, sort, insert_sorted, bytes, same, map,
}
use owlwatch.Collector.Processes.{
  Arithmetic, Reading, Sampler, Process, before, rank_top, rank_processes, rank_cpu_processes,
  mem_rows, minimum, cpu_row, cpu_rows, cpu_rows_since, times_of, lookup_pid, update, walk, waits,
  readings_of, read_process, cpu_seconds, name_of, sample_processes,
}
use owlwatch.Peers.Config.{trim_space, trim_left, is_space}
use owlwatch.Collector.Processes.Ranking.{RanksAbove, rank_top-best}
use mathlib.Core.List.{Perm}
use owlwatch.Collector.Processes.Baseline.{failing, Grown, update-Grown}

abbrev whole_numbers : Arithmetic ℕ
whole_numbers = record {
  of_nat = λ n. n;
  seconds = λ now last. (now - last) / 1000000000;
  add = λ a b. a + b;
  sub = λ a b. a - b;
  mul = λ a b. a * b;
  div = λ a b. a / b;
  less = ltb;
  is_zero = λ a. a == 0;
}

abbrev process : ℕ → ℕ → ℕ → ℕ → Process ℕ
process pid created rss seconds = record {
  pid = pid;
  rss = some rss;
  times = some (seconds, 0);
  created = some created;
  name = some (bytes "p");
}

abbrev no_walk : Sampler ℕ
no_walk = record { next = none; last_walk = none; cpu_times = []; top_cpu = []; top_mem = [] }

abbrev first_walk : Option (List (Process ℕ))
first_walk = some (process 1 100 7 10 ∷ process 2 100 9 20 ∷ process 3 100 0 0 ∷ [])

-- Process 2 has exited, and its PID is reused.
abbrev second_walk : Option (List (Process ℕ))
second_walk = some (process 1 100 7 14 ∷ process 2 500 9 30 ∷ [])

-- Two walks, 2 s apart, on two cores.
abbrev sampled : Sampler ℕ
sampled =
    sample_processes whole_numbers (λ _. []) 2 4000000000 2 100 second_walk
      (sample_processes whole_numbers (λ _. []) 2 2000000000 2 100 first_walk no_walk)

shares :
    (map (λ r. r.pid) sampled.top_cpu ≡ 1 ∷ []) × (map (λ r. r.pid) sampled.top_mem ≡ 2 ∷ 1 ∷ [])
unfolding sample_processes walk waits readings_of read_process cpu_seconds name_of update
    cpu_rows_since cpu_rows cpu_row minimum lookup_pid times_of mem_rows rank_processes
    rank_cpu_processes rank_top before sort insert_sorted trim_space trim_left is_space same
shares = (refl, refl)

ltb-IsOrder : IsOrder ltb
ltb-IsOrder = record { asym = λ a b h. ground arith; trans = λ a b c h k. ground arith }

-- PID and resident memory
abbrev rows : List (ℕ × ℕ)
rows = (1, 7) ∷ (2, 9) ∷ (3, 7) ∷ []

abbrev two_best : List (ℕ × ℕ)
two_best = rank_top ltb (λ r. r.1) (λ r. r.0) 2 rows

rank_top-best_example :
    (length two_best ≡ min 2 3)
    × Pairwise (RanksAbove ltb (λ r. r.1) (λ r. r.0)) two_best
    × ((others : List (ℕ × ℕ)) × Perm (two_best ++ others) rows
        × All
            (λ other. All (λ kept. RanksAbove ltb (λ r. r.1) (λ r. r.0) kept other) two_best)
            others)
rank_top-best_example = rank_top-best ltb (λ r. r.1) (λ r. r.0) 2 rows ltb-IsOrder

abbrev earlier : List (Reading ℕ)
earlier =
    record { pid = 1; name = []; rss = 7; cpu = record { created = 100; seconds = 10 } }
    ∷ record { pid = 2; name = []; rss = 9; cpu = record { created = 100; seconds = 20 } }
    ∷ []

abbrev readings : List (Reading ℕ)
readings =
    record { pid = 1; name = []; rss = 7; cpu = record { created = 100; seconds = 14 } }
    ∷ record { pid = 2; name = []; rss = 9; cpu = record { created = 500; seconds = 30 } }
    ∷ []

-- One sample between the walks finds no list.
abbrev between : Sampler ℕ
between =
    failing whole_numbers (λ _. []) 2 2 100 (20000000000 ∷ [])
      (update whole_numbers earlier 2000000000 2 100 no_walk)

update-Grown_example :
    All
      (Grown whole_numbers earlier readings)
      (update whole_numbers readings 30000000000 2 100 between).top_cpu
update-Grown_example =
    update-Grown whole_numbers earlier readings 2000000000 30000000000 2 100 (λ _. []) 2
      (20000000000 ∷ []) no_walk
