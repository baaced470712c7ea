-- ===== src/Main/Config/Bounds.antt =====
-- cmd/owlwatch/main.go: what holds of a configuration that `loadConfig` accepts.
use owlwatch.Prelude.{
  ℕ, Bool, ◌*◌, ◌≤◌, ◌<◌, ◌≡◌, ◌⊎◌, inl, inr, refl, ◌∙◌, arith, true, false, not, ◌||◌, ◌&&◌, [],
  ◌∷◌, Option, none, some, ltb, ltb→lt, ltb→ge, length, Bytes, bytes, same, ℤ, pos, negsuc,
  Bool-cases, Option-cases,
}
use owlwatch.Alerts.{Floats, is_empty, enabled}
use owlwatch.Alerts
use owlwatch.Peers.Config.{parse_peers}
use owlwatch.Peers.Config.Accepted.{Acceptable, Parsed-cases, parse_peers-Acceptable}
use owlwatch.Main.Config.{
  loaded, System, AppConfig, minute, in_range, positive, env_int, float_in_range, env_float,
  env_duration, load_alert_config, load_peers, check_intervals, load_config,
}
use owlwatch.Main.Config.Outcome.{
  Holds, at_value, at_error, Holds-map, Holds-rest, Holds-bind, Holds-elim, reject_if-Holds,
}
use owlwatch.Main.Config.Mail.{MailSettings, check_mail-Holds}

token_ok : (s : Bytes) → (not (same s []) && ltb (length s) 16) ≡ false → (s ≡ []) ⊎ (16 ≤ length s)
unfolding same
token_ok [] h = inl refl
token_ok (b ∷ s) h = inr (ltb→ge (length (b ∷ s)) 16 h)

in_range_lem : (lo hi n : ℕ) (o : Option ℤ) → in_range lo hi o ≡ some n → (lo ≤ n) × (n ≤ hi)
unfolding in_range
in_range_lem lo hi n none h = cc
in_range_lem lo hi n (some (negsuc m)) h = cc
in_range_lem lo hi n (some (pos m)) h = (ground arith, ground arith)

positive_lem : (n : ℕ) (o : Option ℤ) → positive o ≡ some n → 0 < n
unfolding positive
positive_lem n none h = cc
positive_lem n (some (negsuc m)) h = cc
positive_lem n (some (pos m)) h = ground arith

module _ {F : Type 0} (floats : Floats F) (sys : System F) where
  open floats use {less, at_most}
  open sys use {getenv, atoi, parse_float, parse_duration, parse_url, of_nat}

  -- No test of the code finds `f` out of the range.
  abbrev NotOutside : F → F → F → Type 0
  NotOutside lo hi f = (less f lo ≡ false) × (less hi f ≡ false)

  env_int-Holds :
      (key : Bytes) (default lo hi : ℕ)
      → (ltb default lo || ltb hi default) ≡ false
      → Holds (λ n. (lo ≤ n) × (n ≤ hi)) (env_int floats sys key default lo hi)
  unfolding env_int
  env_int-Holds key default lo hi h = elim (Bool-cases (same (getenv key) [])) [
    | inl e ↦ rw (e, env_int) (at_value (ground arith, ground arith))
    | inr e ↦ elim (Option-cases (in_range lo hi (atoi (getenv key)))) [
      | inl is ↦ rw (e, is, env_int) at_error
      | inr (n, is) ↦ rw (e, is, env_int) (at_value (in_range_lem lo hi n (atoi (getenv key)) is))
    ]
  ]

  env_duration-Holds :
      (key : Bytes) (default : ℕ)
      → ltb 0 default ≡ true
      → Holds (λ d. 0 < d) (env_duration floats sys key default)
  unfolding env_duration
  env_duration-Holds key default h = elim (Bool-cases (same (getenv key) [])) [
    | inl e ↦ rw (e, env_duration) (at_value (ltb→lt 0 default h))
    | inr e ↦ elim (Option-cases (positive (parse_duration (getenv key)))) [
      | inl is ↦ rw (e, is, env_duration) at_error
      | inr (n, is) ↦
          rw (e, is, env_duration) (at_value (positive_lem n (parse_duration (getenv key)) is))
    ]
  ]

  float_in_range_lem :
      (lo hi f : F) (o : Option F) → float_in_range floats sys lo hi o ≡ some f → NotOutside lo hi f
  unfolding float_in_range
  float_in_range_lem lo hi f none h = cc
  float_in_range_lem lo hi f (some g) h = elim (Bool-cases (less g lo)) [
    | inl e ↦ ground arith
    | inr e ↦ ground arith
  ]

  env_float-Holds :
      (key : Bytes) (default lo hi : F)
      → NotOutside lo hi default
      → Holds (NotOutside lo hi) (env_float floats sys key default lo hi)
  unfolding env_float
  env_float-Holds key default lo hi h = elim (Bool-cases (same (getenv key) [])) [
    | inl e ↦ rw (e, env_float) (at_value h)
    | inr e ↦ elim (Option-cases (float_in_range floats sys lo hi (parse_float (getenv key)))) [
      | inl is ↦ rw (e, is, env_float) at_error
      | inr (f, is) ↦
          rw (e, is, env_float)
            (at_value (float_in_range_lem lo hi f (parse_float (getenv key)) is))
    ]
  ]

  -- float64: which values are NaN; the small whole numbers are not, and are in their order; and of two
  -- values that are not, one is at most the other.
  pub record IsFloat : Type 0 where
    pub nan : F → Bool
    pub ordered : (m n : ℕ) → m ≤ 150 → n ≤ 150 → less (of_nat m) (of_nat n) ≡ ltb m n
    pub whole : (n : ℕ) → n ≤ 150 → nan (of_nat n) ≡ false
    pub total : (a b : F) → nan a ≡ false → nan b ≡ false → less a b ≡ false → at_most b a ≡ true

  -- A NaN, or between the bounds.
  abbrev pub Within : IsFloat → ℕ → ℕ → F → Type 0
  Within l lo hi f =
      (l.nan f ≡ true) ⊎ ((at_most (of_nat lo) f ≡ true) × (at_most f (of_nat hi) ≡ true))

  inside :
      (l : IsFloat) (lo hi : ℕ) (f : F)
      → lo ≤ 150
      → hi ≤ 150
      → NotOutside (of_nat lo) (of_nat hi) f
      → Within l lo hi f
  inside l lo hi f h1 h2 (low, high) = elim (Bool-cases (l.nan f)) [
    | inl e ↦ inl e
    | inr e ↦
        inr (
          l.total f (of_nat lo) e (l.whole lo h1) low,
          l.total (of_nat hi) f (l.whole hi h2) e high,
        )
  ]

  threshold-Holds :
      (l : IsFloat) (key : Bytes) (default hi : ℕ)
      → (ltb hi default || ltb 150 hi) ≡ false
      → Holds (Within l 0 hi) (env_float floats sys key (of_nat default) (of_nat 0) (of_nat hi))
  threshold-Holds l key default hi h =
      Holds-map (λ f out. inside l 0 hi f (omega arith) (ground arith) out)
        (env_float-Holds key (of_nat default) (of_nat 0) (of_nat hi) (
          l.ordered default 0 (ground arith) (omega arith) ∙ ground arith,
          l.ordered hi default (ground arith) (ground arith) ∙ ground arith,
        ))

module _ {F : Type 0} (floats : Floats F) (sys : System F) where
  open sys use {getenv, parse_url, of_nat}

  pub record AlertsInRange (l : IsFloat floats sys) (c : Alerts.Config F) : Type 0 where
    pub mail : MailSettings c.smtp_host c.to c.from_address
    pub smtp_port : (1 ≤ c.smtp_port) × (c.smtp_port ≤ 65535)
    pub cpu_pct : Within floats sys l 0 100 c.cpu_pct
    pub mem_pct : Within floats sys l 0 100 c.mem_pct
    pub disk_pct : Within floats sys l 0 100 c.disk_pct
    pub gpu_temp_c : Within floats sys l 0 150 c.gpu_temp_c
    pub hold_for : 0 < c.hold_for
    pub cooldown : 0 < c.cooldown

  pub record InRange (l : IsFloat floats sys) (c : AppConfig F) : Type 0 where
    pub port : (1 ≤ c.port) × (c.port ≤ 65535)
    pub sample_interval : (250000000 ≤ c.sample_interval) × (c.sample_interval ≤ minute)
    pub persist_interval :
        (c.sample_interval ≤ c.persist_interval) × (c.persist_interval ≤ 60 * minute)
    pub retention_days : (1 ≤ c.retention_days) × (c.retention_days ≤ 3650)
    pub token : (c.token ≡ []) ⊎ (16 ≤ length c.token)
    pub peers : Acceptable c.peers
    pub max_sse_clients : (1 ≤ c.max_sse_clients) × (c.max_sse_clients ≤ 10000)
    pub max_history : (1 ≤ c.max_history) × (c.max_history ≤ 1000)
    pub alerts : AlertsInRange l c.alerts

  load_alert_config-Holds :
      (l : IsFloat floats sys) → Holds (AlertsInRange l) (load_alert_config floats sys)
  unfolding load_alert_config
  load_alert_config-Holds l = Holds-bind _ (check_mail-Holds floats sys _ _ _) λ _ mail.
      Holds-bind _ (env_int-Holds floats sys _ 587 1 65535 refl) λ _ port.
        Holds-bind _ (threshold-Holds floats sys l _ 90 100 refl) λ _ cpu.
          Holds-bind _ (threshold-Holds floats sys l _ 90 100 refl) λ _ mem.
            Holds-bind _ (threshold-Holds floats sys l _ 92 100 refl) λ _ disk.
              Holds-bind _ (threshold-Holds floats sys l _ 90 150 refl) λ _ temp.
                Holds-bind _ (env_duration-Holds floats sys _ (5 * minute) refl) λ _ hold_for.
                  Holds-bind _ (env_duration-Holds floats sys _ (30 * minute) refl) λ _ cooldown.
                    at_value (record {
                      mail = mail;
                      smtp_port = port;
                      cpu_pct = cpu;
                      mem_pct = mem;
                      disk_pct = disk;
                      gpu_temp_c = temp;
                      hold_for = hold_for;
                      cooldown = cooldown;
                    })

  check_intervals-Holds :
      (sample persist : ℕ)
      → Holds
          (λ _.
            ((250000000 ≤ sample) × (sample ≤ minute))
            × ((sample ≤ persist) × (persist ≤ 60 * minute)))
          (check_intervals floats sys sample persist)
  unfolding check_intervals
  check_intervals-Holds sample persist =
      Holds-bind _ (reject_if-Holds (ltb sample 250000000 || ltb minute sample) _) λ _ h1.
        Holds-map (λ _ h2. ((ground arith, ground arith), (ground arith, ground arith)))
          (reject_if-Holds (ltb persist sample || ltb (60 * minute) persist) _)

  load_peers-Acceptable : (token : Bytes) → Holds Acceptable (load_peers floats sys token)
  unfolding load_peers
  load_peers-Acceptable token =
      elim (Parsed-cases (parse_peers parse_url (getenv (bytes "OWLWATCH_PEERS")) token)) [
        | inl (e, is) ↦ rw (is, load_peers) at_error
        | inr (ps, is) ↦
            rw (is, load_peers)
              (at_value
                (parse_peers-Acceptable parse_url (getenv (bytes "OWLWATCH_PEERS")) token ps is))
      ]

  load_config-Holds : (l : IsFloat floats sys) → Holds (InRange l) (load_config floats sys)
  unfolding load_config
  load_config-Holds l = Holds-rest _ _ λ _.
      Holds-bind _ (env_int-Holds floats sys _ 8080 1 65535 refl) λ _ port. Holds-rest _ _ λ sample.
        Holds-rest _ _ λ persist.
          Holds-bind _ (check_intervals-Holds sample persist) λ _ (in_sample, in_persist).
            Holds-bind _ (env_int-Holds floats sys _ 30 1 3650 refl) λ _ days.
              Holds-bind _ (reject_if-Holds _ _) λ _ token.
                Holds-bind _ (load_peers-Acceptable _) λ _ peers.
                  Holds-bind _ (env_int-Holds floats sys _ 128 1 10000 refl) λ _ clients.
                    Holds-bind _ (env_int-Holds floats sys _ 16 1 1000 refl) λ _ history.
                      Holds-bind _ (load_alert_config-Holds l) λ _ alerts. at_value (record {
                        port = port;
                        sample_interval = in_sample;
                        persist_interval = in_persist;
                        retention_days = days;
                        token = token_ok (getenv (bytes "OWLWATCH_TOKEN")) token;
                        peers = peers;
                        max_sse_clients = clients;
                        max_history = history;
                        alerts = alerts;
                      })

  -- A configuration that is accepted is in range: the port, the retention, and the limits of streams
  -- and history requests are within their bounds; a sample is taken every 250 ms to 1 minute and
  -- stored no more often, and at least hourly; the token is empty or has 16 bytes or more; the peers
  -- are acceptable; there is no mail server and no recipient, or both and a sender; a percentage is from 0
  -- to 100 or a NaN, the temperature from 0 to 150 or a NaN; the hold time and cooldown are positive.
  pub load_config-InRange :
      (c : AppConfig F) (l : IsFloat floats sys) → load_config floats sys ≡ loaded c → InRange l c
  load_config-InRange c l h = Holds-elim (load_config-Holds l) h
