-- ===== src/Collector/Gpu.antt =====
-- internal/collector/gpu.go: the poller of nvidia-smi and the parser of its output. Times are
-- nanoseconds; the zero time.Time is `none`. The command, the number parsers and float64 are arguments.
pub mod Poller
mod Examples
use owlwatch.Prelude.{
  ℕ, ◌+◌, ◌-◌, Bool, true, false, not, ◌&&◌, ◌||◌, List, [], ◌∷◌, ◌++◌, Option, none, some, ltb,
  ◌==◌, if◌then◌else◌, length, take, drop, Bytes, bytes, same, ℤ,
}
use mathlib.Core.Option.{get_or}
use owlwatch.Metrics.{GpuMetrics}
use owlwatch.Peers.Config.{split, trim_space}

-- strconv.ParseFloat, `v < 0`, and `uint64(v * mib)`; strconv.Atoi, for an index that is not negative.
pub record Numbers (F : Type 0) : Type 0 where
  pub parse_float : Bytes → Option F
  pub atoi : Bytes → Option ℕ
  pub is_negative : F → Bool
  pub zero_value : F
  pub mebibytes : F → ℕ

-- strings.Join with a comma
unfoldable pub join : List Bytes → Bytes
join [] = []
join (s ∷ []) = s
join (s ∷ t ∷ rest) = s ++ bytes "," ++ join (t ∷ rest)

module _ {F : Type 0} (numbers : Numbers F) where
  open numbers use {parse_float, atoi, is_negative, zero_value, mebibytes}

  unfoldable pub smi_float : Bytes → F
  unfolding trim_space
  smi_float s = elim (parse_float (trim_space s)) [
    | none ↦ zero_value
    | some v ↦ if is_negative v then zero_value else v
  ]

  -- The last five fields of a line.
  unfoldable pub gpu_of : ℕ → Bytes → List Bytes → Option (GpuMetrics F)
  unfolding smi_float
  gpu_of index name (util ∷ total ∷ used ∷ temp ∷ power ∷ []) = some (record {
    index = index;
    name = name;
    util_pct = smi_float util;
    mem_total = mebibytes (smi_float total);
    mem_used = mebibytes (smi_float used);
    temp_c = smi_float temp;
    power_w = smi_float power;
  })
  gpu_of index name _ = none

  -- One line that is not blank, after `seen` cards.
  unfoldable pub parse_fields : ℕ → List Bytes → Option (GpuMetrics F)
  unfolding gpu_of join trim_space
  parse_fields seen [] = none
  parse_fields seen (first ∷ rest) =
      if ltb (length (first ∷ rest)) 7
      then none
      else gpu_of (get_or (atoi (trim_space first)) seen)
          (trim_space (join (take (length rest - 5) rest))) (drop (length rest - 5) rest)

  unfoldable pub parse_lines : List (GpuMetrics F) → List Bytes → List (GpuMetrics F)
  unfolding parse_fields split trim_space
  parse_lines gpus [] = gpus
  parse_lines gpus (line ∷ lines) = elim (same (trim_space line) []) [
    | true ↦ parse_lines gpus lines
    | false ↦ elim (parse_fields (length gpus) (split 44 (trim_space line))) [
      | none ↦ parse_lines gpus lines
      | some gpu ↦ parse_lines (gpus ++ gpu ∷ []) lines
    ]
  ]

  -- `parseNvidiaSMI`
  unfoldable pub parse_nvidia_smi : Bytes → List (GpuMetrics F)
  unfolding parse_lines split
  parse_nvidia_smi out = parse_lines [] (split 10 out)

abbrev pub gpu_reprobe_interval : ℕ
gpu_reprobe_interval = 60000000000

-- `queryNvidiaSMI`: there is no such binary, the command fails, or it prints its output.
pub data Query : Type 0 where
  not_found fails : Query
  prints : Bytes → Query

pub record GpuPoller : Type 0 where
  pub available : Bool
  pub next_probe : Option ℕ

-- A sample: the poller after it, the cards that it reports, whether the command was run, and the
-- number of lines given to the log.
pub record Sampled (F : Type 0) : Type 0 where
  pub poller : GpuPoller
  pub gpus : List (GpuMetrics F)
  pub ran : Bool
  pub logged : ℕ

-- `!g.available && time.Now().Before(g.nextProbe)`
unfoldable pub resting : ℕ → GpuPoller → Bool
resting now g = elim g.next_probe [ none ↦ false | some t ↦ not g.available && ltb now t ]

-- After a failure at the time `now`.
unfoldable pub give_up : {F : Type 0} → ℕ → ℕ → Sampled F
give_up now logged = record {
  poller = record { available = false; next_probe = some (now + gpu_reprobe_interval) };
  gpus = [];
  ran = true;
  logged = logged;
}

module _ {F : Type 0} (numbers : Numbers F) where
  -- The cards that a query finds.
  unfoldable pub found : List (GpuMetrics F) → ℕ → GpuPoller → Sampled F
  unfolding give_up
  found [] now g = give_up now 1
  found (gpu ∷ gpus) now g = record {
    poller = record g { available = true };
    gpus = gpu ∷ gpus;
    ran = true;
    logged = if g.available then 0 else 1;
  }

  unfoldable pub after_query : Query → ℕ → GpuPoller → Sampled F
  unfolding give_up found parse_nvidia_smi
  after_query not_found now g = give_up now (if g.available then 1 else 0)
  after_query fails now g = give_up now 1
  after_query (prints out) now g = found (parse_nvidia_smi numbers out) now g

  -- `sample`, called at `start`, with the query over at `now`
  unfoldable pub sample : ℕ → ℕ → Query → GpuPoller → Sampled F
  unfolding resting after_query
  sample start now query g =
      if resting start g
      then record { poller = g; gpus = []; ran = false; logged = 0 }
      else after_query query now g

  -- `probeInitial`, with the query over at `now`
  unfoldable pub probe_initial : ℕ → Query → Sampled F
  unfolding give_up parse_nvidia_smi
  probe_initial now not_found = give_up now 0
  probe_initial now fails = give_up now 1
  probe_initial now (prints out) = elim (parse_nvidia_smi numbers out) [
    | [] ↦ give_up now 0
    | gpu ∷ gpus ↦ record {
      poller = record { available = true; next_probe = none };
      gpus = gpu ∷ gpus;
      ran = true;
      logged = 0;
    }
  ]
