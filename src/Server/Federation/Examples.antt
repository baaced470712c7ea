-- ===== src/Server/Federation/Examples.antt =====
-- internal/server/federation.go at a fleet with one peer, which has not been reached at first.
use owlwatch.Prelude.{
  ℕ, ◌≡◌, ◌↔◌, ◌⊎◌, refl, arith, Bool, true, false, List, [], ◌∷◌, take, Option, none, some, Bytes,
  bytes, same, lookup, Member, cut_prefix, if◌then◌else◌,
}
use owlwatch.Metrics.{ServerSummary}
use owlwatch.Peers.{Peer}
use owlwatch.Peers.Client.Sample.{snapshot_at, some_host, den}
use owlwatch.Peers.Requests.{Exchange, response, Sent, reboot}
use owlwatch.Ring.{recent_cpu_of}
use owlwatch.Server.Middleware.{
  Request, Slots, serve, Config, is_api_path, chain, with_host_check, host_allowed, with_token_auth,
  token_matches, with_request_limits, class_of,
}
use owlwatch.Server.Middleware.Access.{Presents}
use owlwatch.Server.Federation.{
  Local, View, local_summary, peers_of, all_servers, peer_summary, find_summary,
}
use owlwatch.Server.Federation.Streams.{Wake, event, tick, closed, live_messages}
use owlwatch.Server.Federation.Hello.{Ordered, live_messages-Ordered}
use owlwatch.Server.Federation.Fleet.{Unaliased, SameMachine, all_servers_lem}
use owlwatch.Server.Federation.Routes.{json, error, status_of, require_token, handle_server_reboot}
use owlwatch.Server.Federation.Reboot.{
  requests, handle_reboot_once, restart_request, handle_server_reboot_iff,
}
use owlwatch.Server.Federation.Actions.{require_token-chain}

abbrev unseen : ServerSummary ℕ
unseen = record {
  id = bytes "den";
  name = bytes "Den";
  is_local = false;
  online = false;
  last_seen = 0;
  interval_ms = 0;
  host = none;
  latest = none;
  recent_cpu = [];
}

abbrev seen : ServerSummary ℕ
seen = record unseen { online = true; host = some some_host; latest = some (snapshot_at 1000 10) }

abbrev fleet_of : ServerSummary ℕ → Option (View ℕ)
fleet_of sum = some (record { fleet = sum ∷ []; recent = λ id. snapshot_at 1000 10 ∷ [] })

abbrev this_server : Local ℕ
this_server = record {
  host = record some_host { hostname = bytes "hub" };
  interval_ms = 2000;
  recent = [];
  latest = none;
}

abbrev this_summary : ServerSummary ℕ
this_summary = record {
  id = bytes "local";
  name = bytes "hub";
  is_local = true;
  online = true;
  last_seen = 0;
  interval_ms = 2000;
  host = some (record some_host { hostname = bytes "hub" });
  latest = none;
  recent_cpu = [];
}

this_server-summary : local_summary this_server ≡ some this_summary
unfolding local_summary recent_cpu_of
this_server-summary = refl

abbrev wakes : List (Wake ℕ)
wakes =
    tick
    ∷ event (record { id = bytes "den"; snapshot = none; online = some true; last_seen = 0 })
        (fleet_of seen)
    ∷ event
        (record {
          id = bytes "den";
          snapshot = some (snapshot_at 3000 20);
          online = none;
          last_seen = 3000;
        })
        (fleet_of seen)
    ∷ closed
    ∷ []

live_messages_example : Ordered false (take 4 (live_messages (fleet_of unseen) (bytes "den") wakes))
live_messages_example = live_messages-Ordered (fleet_of unseen) (bytes "den") wakes 4

all_servers_example :
    (Unaliased this_server.host (peers_of (fleet_of seen))
      × (all_servers this_server (fleet_of seen) (fleet_of seen)
          ≡ some (this_summary ∷ peers_of (fleet_of seen))))
    ⊎ ((same_machine : ServerSummary ℕ) × Member same_machine (peers_of (fleet_of seen))
        × SameMachine this_server.host same_machine
        × (all_servers this_server (fleet_of seen) (fleet_of seen)
            ≡ some (peers_of (fleet_of seen))))
unfolding peers_of
all_servers_example =
    all_servers_lem this_server (fleet_of seen) (fleet_of seen) this_summary this_server-summary
      ((λ e. absurd cc), tt)

handle_reboot_example : (requests true 3 (false, 0)).1 ≡ 1
handle_reboot_example = handle_reboot_once 3 (omega arith)

-- A peer that accepts an authorized restart.
abbrev http : Sent → Exchange Bytes
http sent =
    if same sent.authorization (bytes "Bearer k") then response 202 none else response 401 none

fleet_of-den : peer_summary (fleet_of seen) (bytes "den") ≡ some seen
unfolding peer_summary find_summary same
fleet_of-den = refl

den_not_local : same (bytes "den") (bytes "local") ≡ false
unfolding same
den_not_local = refl

abbrev one_peer : List (Bytes × Peer)
one_peer = (bytes "den", den) ∷ []

one_peer-den : lookup (bytes "den") one_peer ≡ some den
unfolding lookup same
one_peer-den = refl

handle_server_reboot_example :
    (status_of (
        handle_server_reboot
          (json 202 tt)
          (fleet_of seen)
          (bytes "den")
          (reboot (λ p. p) http (bytes "den") one_peer))
      ≡ 202)
    ↔ ((b : Option Bytes) × (http (restart_request den) ≡ response 202 b))
handle_server_reboot_example =
    handle_server_reboot_iff (λ p. p) http (json 202 tt) (fleet_of seen) (bytes "den") seen one_peer
      den den_not_local fleet_of-den one_peer-den

-- A server with a token, and a request to restart it.
abbrev any_host : Bytes → Option Bytes
any_host s = none

abbrev literal : Bytes → Bool
literal s = true

abbrev settings : Config
settings = record {
  allowed_hosts = [];
  token = bytes "k";
  limits = record { max_sse = 1; max_history = 1 };
}

abbrev restart : Request
restart = record {
  host = bytes "10.0.0.2";
  path = bytes "/api/reboot";
  authorization = bytes "Bearer k";
}

abbrev free : Slots
free = record { sse_slots = 0; history_slots = 0; disk_slots = 0 }

restart-api : is_api_path restart.path ≡ true
unfolding is_api_path same cut_prefix
restart-api = refl

restart-served : chain any_host literal settings restart free ≡ (serve none, free)
unfolding chain with_host_check host_allowed with_token_auth is_api_path token_matches
    with_request_limits class_of same cut_prefix
restart-served = refl

require_token_example :
    Presents restart (bytes "k")
    ⊎ ((bytes "k" ≡ [])
        × (require_token (bytes "k") (json 202 tt)
            ≡ error 403 (bytes "this action requires OWLWATCH_TOKEN to be set on the server")))
require_token_example =
    require_token-chain any_host literal settings restart free free none (json 202 tt) restart-api
      restart-served
