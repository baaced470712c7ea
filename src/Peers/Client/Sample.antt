-- ===== src/Peers/Client/Sample.antt =====
-- Test data: a hub with two peers and what one of them sends.
use owlwatch.Prelude.{ℕ, false, [], ◌∷◌, bytes}
use owlwatch.Metrics.{Snapshot, HostInfo}
use owlwatch.Peers.{Peer}
use owlwatch.Peers.Client.{Client, Hello, new_client}

abbrev pub snapshot_at : ℕ → ℕ → Snapshot ℕ
snapshot_at ts usage = record {
  ts = ts;
  cpu = record {
    usage_pct = usage;
    per_core = [];
    load1 = 0;
    load5 = 0;
    load15 = 0;
    top_processes = [];
  };
  mem = record {
    total = 8;
    used = 2;
    available = 6;
    used_pct = 25;
    swap_total = 0;
    swap_used = 0;
    top_processes = [];
  };
  disks = [];
  gpus = [];
}

abbrev pub zero : Snapshot ℕ
zero = snapshot_at 0 0

abbrev pub den : Peer
den = record {
  id = bytes "den";
  name = bytes "Den";
  url = bytes "http://den:8080";
  token = bytes "k";
}

abbrev pub attic : Peer
attic = record { id = bytes "attic"; name = bytes "attic"; url = bytes "http://attic"; token = [] }

abbrev pub some_host : HostInfo
some_host = record {
  hostname = bytes "den";
  os = bytes "linux";
  platform = [];
  kernel_version = [];
  arch = [];
  cpu_model = [];
  cpu_cores = 4;
  mem_total = 8;
  boot_time = 1700000000;
  has_gpu = false;
  gpu_names = [];
  version = bytes "dev";
}

abbrev pub greeting : Hello ℕ
greeting = record {
  host = some_host;
  recent = snapshot_at 1000 10 ∷ snapshot_at 3000 20 ∷ [];
  interval_ms = 2000;
}

abbrev pub hub : Client ℕ
hub = new_client zero (den ∷ attic ∷ [])
