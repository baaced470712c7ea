-- ===== src/Alerts.antt =====
-- internal/alerts/alerts.go: the threshold rules, their breach windows and cooldowns, and the email
-- that one snapshot can cause. Times and durations are nanoseconds; the zero time.Time is `none`.
-- Comparison of float64 values and the fmt verbs are parameters.
pub mod Evaluate
pub mod Window
pub mod Justified
pub mod Sourced
pub mod Cooldown
mod Examples
use owlwatch.Prelude.{
  ℕ, ◌+◌, ◌*◌, Bool, true, false, List, [], ◌∷◌, ◌++◌, Option, none, some, ltb, if◌then◌else◌, not,
  ◌||◌, length, Bytes, bytes, lookup, insert, map,
}
use mathlib.Core.Option.{get_or}
use owlwatch.Metrics.{Snapshot, DiskMetrics, GpuMetrics}

-- `a < b` and `a <= b` on float64, and the constant 0.
pub record Floats (F : Type 0) : Type 0 where
  pub less : F → F → Bool
  pub at_most : F → F → Bool
  pub zero_value : F

-- The verbs `%.1f`, `%.0f` and `%d`, the text of a duration and a time in RFC 3339 (UTC).
pub record Format (F : Type 0) : Type 0 where
  pub fixed1 : F → Bytes
  pub fixed0 : F → Bytes
  pub decimal : ℕ → Bytes
  pub duration : ℕ → Bytes
  pub rfc3339 : ℕ → Bytes

pub record Config (F : Type 0) : Type 0 where
  pub smtp_host : Bytes
  pub smtp_port : ℕ
  pub smtp_user : Bytes
  pub smtp_pass : Bytes
  pub from_address : Bytes
  pub to : List Bytes
  pub cpu_pct : F
  pub mem_pct : F
  pub disk_pct : F
  pub gpu_temp_c : F
  pub hold_for : ℕ
  pub cooldown : ℕ

unfoldable pub is_empty {ℓ} : {A : Type ℓ} → List A → Bool
is_empty [] = true
is_empty (_ ∷ _) = false

unfoldable pub enabled : {F : Type 0} → Config F → Bool
unfolding is_empty
enabled c = if is_empty c.smtp_host then false else not (is_empty c.to)

abbrev pub minute : ℕ
minute = 60000000000

abbrev pub retry_after : ℕ
retry_after = minute

-- `time.UnixMilli`
abbrev pub unix_milli : ℕ → ℕ
unix_milli ts = ts * 1000000

-- `now.Before(t)`: the zero time lies before every `now`.
abbrev pub before : ℕ → Option ℕ → Bool
before now none = false
before now (some t) = ltb now t

pub record RuleState : Type 0 where
  pub since : Option ℕ
  pub next_allowed : Option ℕ

abbrev pub fresh_rule : RuleState
fresh_rule = record { since = none; next_allowed = none }

-- The arguments of one call of `check`.
pub record Rule (F : Type 0) : Type 0 where
  pub key : Bytes
  pub label : Bytes
  pub value : F
  pub threshold : F
  pub unit : Bytes

-- `state` is a pointer into the map: here, the key under which the state is kept.
pub record Breach (F : Type 0) : Type 0 where
  pub key : Bytes
  pub label : Bytes
  pub value : F
  pub threshold : F
  pub unit : Bytes
  pub since : ℕ

abbrev pub States : Type 0
States = List (Bytes × RuleState)

-- `last_fail` limits the logging of failed sends, and is kept by the wall clock.
pub record Notifier (F : Type 0) : Type 0 where
  pub cfg : Config F
  pub hostname : Bytes
  pub states : States
  pub last_fail : Option ℕ

pub record Mail : Type 0 where
  pub subject : Bytes
  pub body : Bytes

module _ {F : Type 0} (floats : Floats F) (fmt : Format F) where
  open floats use {less, at_most, zero_value}
  open fmt use {fixed1, fixed0, decimal, duration, rfc3339}

  -- The breach window after one sample: closed below the threshold, else open since its first
  -- sample.
  pub advance : F → F → ℕ → RuleState → RuleState
  advance value threshold now st =
      if less value threshold
      then record st { since = none }
      else record st { since = some (get_or st.since now) }

  -- Whether a window open since `since` is due: held long enough, and the cooldown has passed.
  pub is_due : ℕ → ℕ → ℕ → Option ℕ → Bool
  is_due hold_for now since next_allowed =
      not (ltb now (since + hold_for) || before now next_allowed)

  -- What `check` appends for an open window; there is nothing to say of a closed one.
  pub report : ℕ → ℕ → Rule F → Option ℕ → Option ℕ → List (Breach F)
  unfolding is_due
  report hold_for now r none next_allowed = []
  report hold_for now r (some since) next_allowed =
      if is_due hold_for now since next_allowed
      then record {
        key = r.key;
        label = r.label;
        value = r.value;
        threshold = r.threshold;
        unit = r.unit;
        since = since;
      }
        ∷ []
      else []

  pub check : ℕ → ℕ → Rule F → States × List (Breach F) → States × List (Breach F)
  unfolding advance report
  check hold_for now r (states, due) =
      if at_most r.threshold zero_value
      then (states, due)
      else let st = advance r.value r.threshold now (get_or (lookup r.key states) fresh_rule) in
        (insert r.key st states, due ++ report hold_for now r st.since st.next_allowed)

  disk_rule : Config F → DiskMetrics F → Rule F
  disk_rule cfg d = record {
    key = bytes "disk:" ++ d.mount;
    label = bytes "Disk " ++ (d.mount ++ bytes " usage");
    value = d.used_pct;
    threshold = cfg.disk_pct;
    unit = bytes "%";
  }

  gpu_rule : Config F → GpuMetrics F → Rule F
  gpu_rule cfg g = record {
    key = bytes "gpu" ++ decimal g.index;
    label = bytes "GPU " ++ (decimal g.index ++ (bytes " (" ++ (g.name ++ bytes ") temperature")));
    value = g.temp_c;
    threshold = cfg.gpu_temp_c;
    unit = bytes "C";
  }

  -- The calls of `check` that one snapshot makes, in order.
  pub rules : Config F → Snapshot F → List (Rule F)
  unfolding disk_rule gpu_rule
  rules cfg snap =
      record {
        key = bytes "cpu";
        label = bytes "CPU usage";
        value = snap.cpu.usage_pct;
        threshold = cfg.cpu_pct;
        unit = bytes "%";
      }
      ∷ record {
        key = bytes "mem";
        label = bytes "Memory usage";
        value = snap.mem.used_pct;
        threshold = cfg.mem_pct;
        unit = bytes "%";
      }
      ∷ (map (disk_rule cfg) snap.disks ++ map (gpu_rule cfg) snap.gpus)

  pub check_all : ℕ → ℕ → List (Rule F) → States × List (Breach F) → States × List (Breach F)
  unfolding check
  check_all hold_for now [] acc = acc
  check_all hold_for now (r ∷ rs) acc = check_all hold_for now rs (check hold_for now r acc)
