-- ===== src/Alerts/Examples.antt =====
-- internal/alerts/alerts.go at a CPU rule of 90 percent, held for a minute, with an hour of
-- cooldown; float64 is ℕ here.
use owlwatch.Prelude.{
  ℕ, ◌+◌, ◌*◌, ◌≡◌, ◌⊎◌, inl, refl, arith, Bool, true, false, List, [], ◌∷◌, none, some, ltb, leb,
  bytes, same, lookup, insert, All, Member,
}
use owlwatch.Metrics.{Snapshot}
use owlwatch.Peers.Client.Sample.{snapshot_at}
use owlwatch.Alerts.{
  Floats, Format, Config, Notifier, Breach, unix_milli, minute, rules, check, check_all, advance,
  report, is_due, fresh_rule,
}
use owlwatch.Alerts.Evaluate.{pass, evaluate}
use owlwatch.Alerts.Justified.{Founded, open_since}
use owlwatch.Alerts.Sourced.{IsReading}
use owlwatch.Alerts.Window.{window, window_since_run}
use owlwatch.Alerts.Cooldown.{Silent, emails, emails-pause, pass-Founded}

abbrev natural : Floats ℕ
natural = record { less = ltb; at_most = leb; zero_value = 0 }

abbrev plain : Format ℕ
plain = record {
  fixed1 = λ v. (48 + v) ∷ [];
  fixed0 = λ v. (48 + v) ∷ [];
  decimal = λ n. (48 + n) ∷ [];
  duration = λ d. (48 + d) ∷ [];
  rfc3339 = λ t. (48 + t) ∷ [];
}

abbrev cpu_only : Config ℕ
cpu_only = record {
  smtp_host = bytes "smtp";
  smtp_port = 587;
  smtp_user = [];
  smtp_pass = [];
  from_address = bytes "a";
  to = bytes "b" ∷ [];
  cpu_pct = 90;
  mem_pct = 0;
  disk_pct = 0;
  gpu_temp_c = 0;
  hold_for = minute;
  cooldown = 60 * minute;
}

abbrev high_since_start : Notifier ℕ
high_since_start = record {
  cfg = cpu_only;
  hostname = bytes "den";
  states = (bytes "cpu", record { since = some 0; next_allowed = none }) ∷ [];
  last_fail = none;
}

-- Two minutes after the start, at 95 percent.
abbrev high : Snapshot ℕ
high = snapshot_at 120000 95

abbrev cpu_breach : Breach ℕ
cpu_breach = record {
  key = bytes "cpu";
  label = bytes "CPU usage";
  value = 95;
  threshold = 90;
  unit = bytes "%";
  since = 0;
}

high-due : Member cpu_breach (pass natural plain high high_since_start).1
unfolding pass check_all rules check advance report is_due lookup insert same
high-due = inl refl

abbrev soon : List (ℕ × Bool × Snapshot ℕ)
soon = (1, true, snapshot_at 122000 99) ∷ (2, false, snapshot_at 3000000 99) ∷ []

emails-pause_example :
    All
      (Silent (bytes "cpu"))
      (emails natural plain soon (evaluate natural plain 5 true high high_since_start).0)
emails-pause_example =
    emails-pause natural plain 5 true high high_since_start cpu_breach soon high-due
      (omega arith, (omega arith, tt))

pass-Founded_example :
    IsReading natural plain high_since_start.cfg high cpu_breach.key cpu_breach.value
      cpu_breach.threshold
    × ((cpu_breach.since ≡ unix_milli high.ts)
        ⊎ (open_since cpu_breach.key high_since_start.states ≡ some cpu_breach.since))
    × Founded natural plain minute
        (unix_milli 120000)
        (pass natural plain high high_since_start).0
        cpu_breach
pass-Founded_example = pass-Founded natural plain high high_since_start cpu_breach high-due

window_example :
    (window natural plain 90 fresh_rule
      ((95, 1) ∷ (80, 2) ∷ (91, 3) ∷ (90, 4) ∷ (99, 5) ∷ [])).since
    ≡ some 3
window_example =
    window_since_run natural plain 90 fresh_rule ((95, 1) ∷ []) (80, 2) (91, 3)
      ((90, 4) ∷ (99, 5) ∷ []) refl refl (refl, (refl, tt))
