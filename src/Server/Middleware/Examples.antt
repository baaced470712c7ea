-- ===== src/Server/Middleware/Examples.antt =====
-- internal/server/middleware.go at a server with a token and two history slots.
use owlwatch.Prelude.{
  ◌≡◌, ◌⊎◌, Bool, true, false, List, [], ◌∷◌, Option, none, some, Bytes, bytes, same, if◌then◌else◌,
}
use owlwatch.Server.Middleware.{
  Request, Slots, answer, history, Config, host_allowed, chain, with_request_limits, with_defaults,
}
use owlwatch.Server.Middleware.Access.{IsAuthorized, chain_lem}
use owlwatch.Server.Middleware.Capacity.{Event, arrive, leave, run, idle, Exact, run-idle}

-- Ports and literals of one machine.
abbrev split_host_port : Bytes → Option Bytes
split_host_port s = if same s (bytes "10.0.0.2:8080") then some (bytes "10.0.0.2") else none

abbrev parse_ip : Bytes → Bool
parse_ip s = same s (bytes "10.0.0.2")

abbrev guarded : Config
guarded = record {
  allowed_hosts = bytes "nas" ∷ [];
  token = bytes "t0k";
  limits = record { max_sse = 0; max_history = 2 };
}

abbrev history_request : Request
history_request = record {
  host = bytes "10.0.0.2:8080";
  path = bytes "/api/history";
  authorization = bytes "Bearer t0k";
}

abbrev one_used : Slots
one_used = record { sse_slots = 3; history_slots = 1; disk_slots = 0 }

chain_example :
    ((host_allowed split_host_port parse_ip history_request.host guarded.allowed_hosts ≡ false)
      × (chain split_host_port parse_ip guarded history_request one_used ≡ (answer 421, one_used)))
    ⊎ ((host_allowed split_host_port parse_ip history_request.host guarded.allowed_hosts ≡ true)
        × (((IsAuthorized guarded.token history_request → ⊥)
              × (chain split_host_port parse_ip guarded history_request one_used
                  ≡ (answer 401, one_used)))
            ⊎ (IsAuthorized guarded.token history_request
                × (chain split_host_port parse_ip guarded history_request one_used
                    ≡ with_request_limits
                        (with_defaults guarded.limits)
                        history_request
                        one_used))))
chain_example = chain_lem split_host_port parse_ip guarded history_request one_used

abbrev three_requests : List Event
three_requests =
    arrive history_request
    ∷ arrive history_request
    ∷ arrive history_request
    ∷ leave 0
    ∷ arrive history_request
    ∷ []

run-idle_example :
    Exact
      (with_defaults guarded.limits)
      history
      (run split_host_port parse_ip guarded idle three_requests).slots
      (run split_host_port parse_ip guarded idle three_requests).in_flight
run-idle_example = run-idle split_host_port parse_ip guarded three_requests history
