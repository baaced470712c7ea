-- ===== src/Main/Config.antt =====
-- cmd/owlwatch/main.go: `loadConfig`. An error carries the name of the variable that its message
-- starts with. The environment and the parsers of Go's library are arguments; the value of a
-- duration is in nanoseconds.
pub mod Outcome
pub mod Mail
pub mod Bounds
mod Examples
use owlwatch.Prelude.{
  ℕ, ◌*◌, Bool, true, false, not, ◌&&◌, ◌||◌, List, [], ◌∷◌, Option, none, some, ltb, if◌then◌else◌,
  length, Bytes, bytes, same, ℤ, pos, negsuc,
}
use owlwatch.Alerts.{Floats, is_empty}
use owlwatch.Alerts
use owlwatch.Peers.{Peer}
use owlwatch.Peers.Config.{Url, Parsed, ok, failed, split, trim_space, parse_peers}

pub data Loaded (A : Type 0) : Type 0 where
  loaded : A → Loaded A
  rejected : Bytes → Loaded A

infixl 5 ◌>>=◌
unfoldable pub ◌>>=◌ : {A B : Type 0} → Loaded A → (A → Loaded B) → Loaded B
loaded a >>= f = f a
rejected key >>= f = rejected key

-- os.Getenv, with "" for a variable that is not set; whether net.ParseIP accepts a text; strconv.Atoi,
-- strconv.ParseFloat, time.ParseDuration and url.Parse; and the float64 constants.
pub record System (F : Type 0) : Type 0 where
  pub getenv : Bytes → Bytes
  pub is_ip : Bytes → Bool
  pub atoi : Bytes → Option ℤ
  pub parse_float : Bytes → Option F
  pub parse_duration : Bytes → Option ℤ
  pub parse_url : Bytes → Option Url
  pub of_nat : ℕ → F

-- `appConfig`
pub record AppConfig (F : Type 0) : Type 0 where
  pub listen_address : Bytes
  pub port : ℕ
  pub db_path : Bytes
  pub sample_interval : ℕ
  pub persist_interval : ℕ
  pub retention_days : ℕ
  pub rootfs : Bytes
  pub allowed_hosts : List Bytes
  pub peers : List Peer
  pub token : Bytes
  pub max_sse_clients : ℕ
  pub max_history : ℕ
  pub alerts : Alerts.Config F

abbrev pub second : ℕ
second = 1000000000

abbrev pub minute : ℕ
minute = 60 * second

-- A test of the code that ends the load if it holds.
unfoldable pub reject_if : Bool → Bytes → Loaded Unit
reject_if test key = if test then rejected key else loaded tt

-- The loop over a list separated by commas.
unfoldable pub fields : List Bytes → List Bytes
unfolding trim_space
fields [] = []
fields (raw ∷ rest) =
    let others = fields rest in if same (trim_space raw) [] then others else trim_space raw ∷ others

-- `err != nil || n < min || n > max`, for a `min` that is not negative.
unfoldable pub in_range : ℕ → ℕ → Option ℤ → Option ℕ
in_range lo hi none = none
in_range lo hi (some (negsuc n)) = none
in_range lo hi (some (pos n)) = if ltb n lo || ltb hi n then none else some n

-- `err != nil || d <= 0`
unfoldable pub positive : Option ℤ → Option ℕ
positive none = none
positive (some (negsuc n)) = none
positive (some (pos n)) = if ltb 0 n then some n else none

module _ {F : Type 0} (floats : Floats F) (sys : System F) where
  open floats use {less}
  open sys use {getenv, is_ip, atoi, parse_float, parse_duration, parse_url, of_nat}

  unfoldable pub env_int : Bytes → ℕ → ℕ → ℕ → Loaded ℕ
  unfolding in_range
  env_int key default lo hi =
      if same (getenv key) []
      then loaded default
      else elim (in_range lo hi (atoi (getenv key))) [ none ↦ rejected key | some n ↦ loaded n ]

  -- `err != nil || f < min || f > max`
  unfoldable pub float_in_range : F → F → Option F → Option F
  float_in_range lo hi none = none
  float_in_range lo hi (some f) = if less f lo || less hi f then none else some f

  unfoldable pub env_float : Bytes → F → F → F → Loaded F
  unfolding float_in_range
  env_float key default lo hi =
      if same (getenv key) []
      then loaded default
      else elim (float_in_range lo hi (parse_float (getenv key))) [
        | none ↦ rejected key
        | some f ↦ loaded f
      ]

  unfoldable pub env_duration : Bytes → ℕ → Loaded ℕ
  unfolding positive
  env_duration key default =
      if same (getenv key) []
      then loaded default
      else elim (positive (parse_duration (getenv key))) [ none ↦ rejected key | some d ↦ loaded d ]

  -- The mail settings are all there, or neither of the first two is.
  unfoldable pub check_mail : Bytes → List Bytes → Bytes → Loaded Unit
  unfolding is_empty
  check_mail host to sender =
      if not (is_empty host) || not (is_empty to)
      then if is_empty host
        then rejected (bytes "OWLWATCH_SMTP_HOST")
        else if is_empty to
        then rejected (bytes "OWLWATCH_ALERT_TO")
        else if is_empty sender
        then rejected (bytes "OWLWATCH_SMTP_FROM")
        else loaded tt
      else loaded tt

  unfoldable pub load_alert_config : Loaded (Alerts.Config F)
  load_alert_config = do
    let host = getenv (bytes "OWLWATCH_SMTP_HOST")
    let sender = getenv (bytes "OWLWATCH_SMTP_FROM")
    let to = fields (split 44 (getenv (bytes "OWLWATCH_ALERT_TO")))
    _ ← check_mail host to sender
    port ← env_int (bytes "OWLWATCH_SMTP_PORT") 587 1 65535
    cpu ← env_float (bytes "OWLWATCH_ALERT_CPU_PCT") (of_nat 90) (of_nat 0) (of_nat 100)
    mem ← env_float (bytes "OWLWATCH_ALERT_MEM_PCT") (of_nat 90) (of_nat 0) (of_nat 100)
    disk ← env_float (bytes "OWLWATCH_ALERT_DISK_PCT") (of_nat 92) (of_nat 0) (of_nat 100)
    temp ← env_float (bytes "OWLWATCH_ALERT_GPU_TEMP_C") (of_nat 90) (of_nat 0) (of_nat 150)
    hold_for ← env_duration (bytes "OWLWATCH_ALERT_FOR") (5 * minute)
    cooldown ← env_duration (bytes "OWLWATCH_ALERT_COOLDOWN") (30 * minute)
    loaded (record {
      smtp_host = host;
      smtp_port = port;
      smtp_user = getenv (bytes "OWLWATCH_SMTP_USER");
      smtp_pass = getenv (bytes "OWLWATCH_SMTP_PASS");
      from_address = sender;
      to = to;
      cpu_pct = cpu;
      mem_pct = mem;
      disk_pct = disk;
      gpu_temp_c = temp;
      hold_for = hold_for;
      cooldown = cooldown;
    })

  unfoldable pub load_listen : Loaded Bytes
  load_listen =
      let v = getenv (bytes "OWLWATCH_LISTEN") in
      if same v []
      then loaded (bytes "127.0.0.1")
      else if is_ip v
      then loaded v
      else rejected (bytes "OWLWATCH_LISTEN")

  unfoldable pub load_db_path : Bytes
  load_db_path =
      let v = getenv (bytes "OWLWATCH_DB") in if same v [] then bytes "./data/owlwatch.db" else v

  unfoldable pub load_peers : Bytes → Loaded (List Peer)
  unfolding parse_peers
  load_peers token = elim (parse_peers parse_url (getenv (bytes "OWLWATCH_PEERS")) token) [
    | failed e ↦ rejected (bytes "OWLWATCH_PEERS")
    | ok peers ↦ loaded peers
  ]

  -- The tests on the two intervals, once both are read.
  unfoldable pub check_intervals : ℕ → ℕ → Loaded Unit
  check_intervals sample persist = do
    _ ← reject_if (ltb sample 250000000 || ltb minute sample) (bytes "OWLWATCH_SAMPLE_INTERVAL")
    reject_if (ltb persist sample || ltb (60 * minute) persist) (bytes "OWLWATCH_PERSIST_INTERVAL")

  unfoldable pub load_config : Loaded (AppConfig F)
  load_config = do
    listen ← load_listen
    port ← env_int (bytes "OWLWATCH_PORT") 8080 1 65535
    sample ← env_duration (bytes "OWLWATCH_SAMPLE_INTERVAL") (2 * second)
    persist ← env_duration (bytes "OWLWATCH_PERSIST_INTERVAL") (10 * second)
    _ ← check_intervals sample persist
    days ← env_int (bytes "OWLWATCH_RETENTION_DAYS") 30 1 3650
    let token = getenv (bytes "OWLWATCH_TOKEN")
    _ ← reject_if (not (same token []) && ltb (length token) 16) (bytes "OWLWATCH_TOKEN")
    peers ← load_peers token
    clients ← env_int (bytes "OWLWATCH_MAX_SSE_CLIENTS") 128 1 10000
    history ← env_int (bytes "OWLWATCH_MAX_HISTORY_REQUESTS") 16 1 1000
    alerts ← load_alert_config
    loaded (record {
      listen_address = listen;
      port = port;
      db_path = load_db_path;
      sample_interval = sample;
      persist_interval = persist;
      retention_days = days;
      rootfs = getenv (bytes "OWLWATCH_ROOTFS");
      allowed_hosts = fields (split 44 (getenv (bytes "OWLWATCH_ALLOWED_HOSTS")));
      peers = peers;
      token = token;
      max_sse_clients = clients;
      max_history = history;
      alerts = alerts;
    })
