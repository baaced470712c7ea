-- ===== src/Main/Config/Examples.antt =====
-- cmd/owlwatch/main.go at two environments: one that sets the port, the token and a peer, and one
-- with a mail server but no recipient. The parsers read only what is set there.
use owlwatch.Prelude.{
  ℕ, ◌*◌, ◌≡◌, refl, arith, false, List, [], ◌∷◌, none, some, ltb, leb, if◌then◌else◌, Bytes, bytes,
  same, lookup, pos,
}
use mathlib.Core.Option.{get_or}
use owlwatch.Alerts.{Floats, is_empty}
use owlwatch.Peers.Config.{Url}
use owlwatch.Peers.Config
use owlwatch.Main.Config.{
  loaded, rejected, System, AppConfig, ◌>>=◌, load_config, load_alert_config, load_listen,
  load_db_path, load_peers, env_int, env_float, env_duration, check_intervals, check_mail,
  reject_if, fields, in_range, positive, float_in_range, second, minute,
}
use owlwatch.Main.Config.Bounds.{InRange, IsFloat, load_config-InRange}
use owlwatch.Main.Config.Mail.{FromEnvironment, IsPartial, load_config-IsPartial}

abbrev numbers : Floats ℕ
numbers = record { less = ltb; at_most = leb; zero_value = 0 }

-- The environment that a list of variables gives.
abbrev system : List (Bytes × Bytes) → System ℕ
system env = record {
  getenv = λ key. get_or (lookup key env) [];
  is_ip = λ _. false;
  atoi = λ v. if same v (bytes "9000") then some (pos 9000) else none;
  parse_float = λ _. none;
  parse_duration = λ v. if same v (bytes "1m") then some (pos minute) else none;
  parse_url = λ raw. some (record {
    text = raw;
    scheme = bytes "http";
    has_user = false;
    host = raw;
    opaque_part = [];
    path = [];
    raw_query = [];
    fragment = [];
  });
  of_nat = λ n. n;
}

abbrev sets_port : List (Bytes × Bytes)
sets_port =
    (bytes "OWLWATCH_PORT", bytes "9000")
    ∷ (bytes "OWLWATCH_PERSIST_INTERVAL", bytes "1m")
    ∷ (bytes "OWLWATCH_ALLOWED_HOSTS", bytes "den, ,nas")
    ∷ []

abbrev config : AppConfig ℕ
config = record {
  listen_address = bytes "127.0.0.1";
  port = 9000;
  db_path = bytes "./data/owlwatch.db";
  sample_interval = 2 * second;
  persist_interval = minute;
  retention_days = 30;
  rootfs = [];
  allowed_hosts = bytes "den" ∷ bytes "nas" ∷ [];
  peers = [];
  token = [];
  max_sse_clients = 128;
  max_history = 16;
  alerts = record {
    smtp_host = [];
    smtp_port = 587;
    smtp_user = [];
    smtp_pass = [];
    from_address = [];
    to = [];
    cpu_pct = 90;
    mem_pct = 90;
    disk_pct = 92;
    gpu_temp_c = 90;
    hold_for = 5 * minute;
    cooldown = 30 * minute;
  };
}

config-loaded : load_config numbers (system sets_port) ≡ loaded config
unfolding load_config load_alert_config load_listen load_db_path load_peers env_int env_float
    env_duration check_intervals check_mail reject_if fields in_range positive float_in_range ◌>>=◌
    lookup same is_empty Config.parse_peers Config.trim_space Config.trim_left Config.is_space
    Config.split Config.push_byte
config-loaded = refl

-- No ℕ is a NaN.
abbrev numbers-IsFloat : IsFloat numbers (system sets_port)
numbers-IsFloat = record {
  nan = λ _. false;
  ordered = λ m n h1 h2. refl;
  whole = λ n h. refl;
  total = λ a b h1 h2 h. ground arith;
}

load_config-InRange_example : InRange numbers (system sets_port) numbers-IsFloat config
load_config-InRange_example =
    load_config-InRange numbers (system sets_port) config numbers-IsFloat config-loaded

abbrev sets_server : List (Bytes × Bytes)
sets_server = (bytes "OWLWATCH_SMTP_HOST", bytes "mail") ∷ []

server-IsPartial : FromEnvironment numbers (system sets_server) IsPartial
unfolding FromEnvironment IsPartial lookup same is_empty fields Config.trim_space Config.trim_left
    Config.is_space Config.split Config.push_byte
server-IsPartial = refl

load_config-IsPartial_example :
    (key : Bytes) × (load_config numbers (system sets_server) ≡ rejected key)
load_config-IsPartial_example = load_config-IsPartial numbers (system sets_server) server-IsPartial

-- A sender alone is accepted, and leaves alerting off.
abbrev sets_sender : List (Bytes × Bytes)
sets_sender = (bytes "OWLWATCH_SMTP_FROM", bytes "owl@den") ∷ []

sender_alone :
    load_alert_config numbers (system sets_sender)
    ≡ loaded (record config.alerts { from_address = bytes "owl@den" })
unfolding load_alert_config env_int env_float env_duration check_mail reject_if fields in_range
    positive float_in_range ◌>>=◌ lookup same is_empty Config.trim_space Config.trim_left
    Config.is_space Config.split Config.push_byte
sender_alone = refl
