-- ===== src/Collector/Processes/Baseline.antt =====
-- internal/collector/processes.go: which processes the CPU ranking can name.
use owlwatch.Prelude.{
  ℕ, ◌≡◌, inl, inr, refl, true, List, [], ◌∷◌, ◌&&◌, Option, none, some, ltb, ◌==◌, ==_iff, All,
  All-append, All-map, ap, subst, ◌∙◌, ◌⊎◌, some-inj, none-some, Bytes, Member, Bool-cases,
  Option-cases,
}
use owlwatch.Metrics.{ProcessCpuMetrics}
use owlwatch.Collector.Processes.{
  Arithmetic, CpuTime, Reading, Sampler, lookup_pid, cpu_row, cpu_rows, cpu_rows_since, update,
  rank_cpu_processes, top_process_count, times_of, sample_processes, waits,
}
use owlwatch.Collector.Processes.Ranking.{All-rank_top}

module _ {F : Type 0} (floats : Arithmetic F) where
  open floats use {of_nat, seconds, sub, less}

  -- The row is about a process that both walks read, created at the same time, whose CPU time grew.
  pub Justified : List (ℕ × CpuTime F) → List (Reading F) → ProcessCpuMetrics F → Type 0
  Justified times readings row =
      (r : Reading F) × (prev : CpuTime F) × Member r readings
      × (row.pid ≡ r.pid)
      × (lookup_pid r.pid times ≡ some prev)
      × (prev.created ≡ r.cpu.created)
      × (less (of_nat 0) (sub r.cpu.seconds prev.seconds) ≡ true)

  cpu_row-Justified :
      (elapsed : F) (cores : ℕ) (times : List (ℕ × CpuTime F)) (readings : List (Reading F))
      (r : Reading F)
      → Member r readings
      → All (Justified times readings) (cpu_row floats elapsed cores r (lookup_pid r.pid times))
  unfolding cpu_row Justified
  cpu_row-Justified elapsed cores times readings r m =
      elim (Option-cases (lookup_pid r.pid times)) [
        | inl e ↦ rw (e, cpu_row) tt
        | inr (prev, e) ↦ elim (Bool-cases (prev.created == r.cpu.created)) [
          | inr other ↦ rw (e, other, cpu_row) tt
          | inl same_one ↦ elim (Bool-cases (less (of_nat 0) (sub r.cpu.seconds prev.seconds))) [
            | inr idle ↦ rw (e, same_one, idle, cpu_row) tt
            | inl busy ↦
                rw (e, same_one, busy, cpu_row)
                  ((r, prev, m, refl, e, (==_iff prev.created r.cpu.created).0 same_one, busy), tt)
          ]
        ]
      ]

  cpu_rows-Justified :
      (elapsed : F) (cores : ℕ) (times : List (ℕ × CpuTime F)) (all readings : List (Reading F))
      → ((r : Reading F) → Member r readings → Member r all)
      → All (Justified times all) (cpu_rows floats elapsed cores times readings)
  unfolding cpu_rows
  cpu_rows-Justified elapsed cores times all [] sub_list = tt
  cpu_rows-Justified elapsed cores times all (r ∷ rs) sub_list =
      All-append (Justified times all) _ _
        (cpu_row-Justified elapsed cores times all r (sub_list r (inl refl)))
        (cpu_rows-Justified elapsed cores times all rs (λ q m. sub_list q (inr m)))

  since_Justified :
      (last : Option ℕ) (now cores : ℕ) (times : List (ℕ × CpuTime F)) (readings : List (Reading F))
      → All (Justified times readings) (cpu_rows_since floats last now cores times readings)
  unfolding cpu_rows_since
  since_Justified none now cores times readings = tt
  since_Justified (some t) now cores times readings =
      elim (Bool-cases (less (of_nat 0) (seconds now t) && ltb 0 cores)) [
        | inl e ↦
            rw (e, cpu_rows_since)
              (cpu_rows-Justified (seconds now t) cores times readings readings (λ r m. m))
        | inr e ↦ rw (e, cpu_rows_since) tt
      ]

  update-Justified :
      (readings : List (Reading F)) (now cores total : ℕ) (ps : Sampler F)
      → All (Justified ps.cpu_times readings) (update floats readings now cores total ps).top_cpu
  unfolding update rank_cpu_processes
  update-Justified readings now cores total ps =
      All-rank_top less (λ r. r.usage_pct) (λ r. r.pid) (Justified ps.cpu_times readings)
        top_process_count _ (since_Justified ps.last_walk now cores ps.cpu_times readings)

  -- What the times are found from: the readings of one walk, or the times before.
  times_of-lookup :
      (readings : List (Reading F)) (times : List (ℕ × CpuTime F)) (pid : ℕ) (t : CpuTime F)
      → lookup_pid pid (times_of readings times) ≡ some t
      → ((r : Reading F) × Member r readings × (r.pid ≡ pid) × (r.cpu ≡ t))
        ⊎ (lookup_pid pid times ≡ some t)
  unfolding times_of lookup_pid
  times_of-lookup [] times pid t e = inr e
  times_of-lookup (r ∷ rs) times pid t e =
      elim (times_of-lookup rs ((r.pid, r.cpu) ∷ times) pid t e) [
        | inl (q, m, same_pid, is) ↦ inl (q, inr m, same_pid, is)
        | inr found ↦ elim (Bool-cases (r.pid == pid)) [
          | inl hit ↦
              inl
                (r, inl refl, (==_iff r.pid pid).0 hit, some-inj (simp (hit, lookup_pid) at found))
          | inr miss ↦ inr (simp (miss, lookup_pid) at found)
        ]
      ]

  -- The samples of the processes at some times, each of which finds no list of them.
  pub failing : (ℕ → Bytes) → ℕ → ℕ → ℕ → List ℕ → Sampler F → Sampler F
  failing decimal num_cpu cores total [] ps = ps
  failing decimal num_cpu cores total (now ∷ times) ps =
      failing decimal num_cpu cores total times
        (sample_processes floats decimal num_cpu now cores total none ps)

  failing-cpu_times :
      (decimal : ℕ → Bytes) (num_cpu cores total : ℕ) (times : List ℕ) (ps : Sampler F)
      → (failing decimal num_cpu cores total times ps).cpu_times ≡ ps.cpu_times
  unfolding failing sample_processes
  failing-cpu_times decimal num_cpu cores total [] ps = refl
  failing-cpu_times decimal num_cpu cores total (now ∷ times) ps =
      failing-cpu_times decimal num_cpu cores total times _
      ∙ elim (Bool-cases (waits now ps.next)) [
        | inl e ↦ rw (e, sample_processes) refl
        | inr e ↦ rw (e, sample_processes) refl
      ]

  -- The process of a row is read by two walks, with the same PID and the same creation time, and its
  -- CPU time is larger in the second.
  pub record Grown (before after : List (Reading F)) (row : ProcessCpuMetrics F) : Type 0 where
    pub old : Reading F
    pub new : Reading F
    pub read_before : Member old before
    pub read_after : Member new after
    pub same_pid : (row.pid ≡ new.pid) × (old.pid ≡ new.pid)
    pub same_created : old.cpu.created ≡ new.cpu.created
    pub grown : less (of_nat 0) (sub new.cpu.seconds old.cpu.seconds) ≡ true

  Justified→Grown :
      (before after : List (Reading F)) (row : ProcessCpuMetrics F)
      → Justified (times_of before []) after row
      → Grown before after row
  unfolding Justified lookup_pid
  Justified→Grown before after row (new, prev, m, pid, found, created, busy) =
      elim (times_of-lookup before [] new.pid prev found) [
        | inl (old, m_old, same_pid, is) ↦ record {
          old = old;
          new = new;
          read_before = m_old;
          read_after = m;
          same_pid = (pid, same_pid);
          same_created = ap (λ (t : CpuTime F). t.created) is ∙ created;
          grown = ap (λ (t : CpuTime F). less (of_nat 0) (sub new.cpu.seconds t.seconds)) is ∙ busy;
        }
        | inr absent ↦ absurd (none-some absent)
      ]

  -- Of two walks, with any samples that wait or find no process list between them, the second ranks by
  -- CPU only processes that both have read, under the same PID and the same creation time, so that a
  -- reused PID is not compared with its former owner; their CPU time has grown in between.
  pub update-Grown :
      (earlier later : List (Reading F)) (t1 t2 cores total : ℕ) (decimal : ℕ → Bytes) (num_cpu : ℕ)
      (times : List ℕ) (ps : Sampler F)
      → let between =
          failing decimal num_cpu cores total times (update floats earlier t1 cores total ps) in
        All (Grown earlier later) (update floats later t2 cores total between).top_cpu
  unfolding update
  update-Grown earlier later t1 t2 cores total decimal num_cpu times ps =
      let between =
        failing decimal num_cpu cores total times (update floats earlier t1 cores total ps) in
      let kept : between.cpu_times ≡ times_of earlier [] =
        failing-cpu_times decimal num_cpu cores total times
          (update floats earlier t1 cores total ps) in
      All-map
        (λ row h. Justified→Grown earlier later row (subst (λ ts. Justified ts later row) kept h)) _
        (update-Justified later t2 cores total between)
