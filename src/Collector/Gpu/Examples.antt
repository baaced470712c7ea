-- ===== src/Collector/Gpu/Examples.antt =====
-- internal/collector/gpu.go at the output for two cards, and at a host without the binary.
use owlwatch.Prelude.{
  ℕ, ◌*◌, ◌≡◌, refl, arith, false, List, [], ◌∷◌, ◌++◌, none, some, if◌then◌else◌, Bytes, bytes,
  same,
}
use owlwatch.Peers.Config.{split, push_byte, trim_space, trim_left, is_space}
use owlwatch.Collector.Gpu.{
  Numbers, not_found, prints, GpuPoller, parse_nvidia_smi, parse_lines, parse_fields, gpu_of,
  smi_float, join, sample, resting,
}
use owlwatch.Collector.Gpu.Poller.{Tick, commands, FindsNone, commands_pause}

-- A parser that knows two texts.
abbrev few_numbers : Numbers ℕ
few_numbers = record {
  parse_float =
      λ s. if same s (bytes "24") then some 24 else if same s (bytes "8") then some 8 else none;
  atoi = λ s. if same s (bytes "1") then some 1 else none;
  is_negative = λ _. false;
  zero_value = 0;
  mebibytes = λ v. v * 1048576;
}

abbrev output : Bytes
output = bytes "1, RTX, Ti, 8, 24, 8, 24, [N/A]" ++ 10 ∷ bytes "bad line" ++ 10 ∷ []

cards :
    parse_nvidia_smi few_numbers output
    ≡ record {
      index = 1;
      name = bytes "RTX, Ti";
      util_pct = 8;
      mem_total = 24 * 1048576;
      mem_used = 8 * 1048576;
      temp_c = 24;
      power_w = 0;
    }
      ∷ []
unfolding parse_nvidia_smi parse_lines parse_fields gpu_of smi_float join split push_byte trim_space
    trim_left is_space same
cards = refl

abbrev at_start : GpuPoller
at_start = record { available = false; next_probe = none }

abbrev without_binary : Tick
without_binary = record { start = 0; now = 1000000; query = not_found }

abbrev later_ticks : List Tick
later_ticks =
    record { start = 2000000000; now = 2000000000; query = prints output }
    ∷ record { start = 60000000000; now = 60000000000; query = prints output }
    ∷ []

at_start-awake : resting 0 at_start ≡ false
unfolding resting
at_start-awake = refl

not_found-FindsNone : FindsNone few_numbers not_found
unfolding FindsNone
not_found-FindsNone = tt

commands_pause_example :
    ((sample few_numbers 0 1000000 not_found at_start).gpus ≡ [])
    × (commands few_numbers later_ticks (sample few_numbers 0 1000000 not_found at_start).poller
        ≡ [])
commands_pause_example =
    commands_pause few_numbers without_binary later_ticks at_start at_start-awake
      not_found-FindsNone (omega arith, (omega arith, tt))
