-- ===== src/Server/Federation/Routes.antt =====
-- internal/server/federation.go, server.go, actions.go, reboot.go and alerts.go: the JSON handlers.
-- The request's id, range and path are arguments, like what the collector, the store, the mailer and
-- the hub's client answer.
use owlwatch.Prelude.{
  ℕ, ◌+◌, ◌-◌, ◌*◌, Bool, true, false, not, ◌&&◌, [], ◌++◌, Option, none, some, ltb, if◌then◌else◌,
  Bytes, bytes, same,
}
use owlwatch.Metrics.{HostInfo}
use owlwatch.Peers.Requests.{
  Result, ok, failed, unknown_peer, peer_unavailable, refused, bad_request,
}
use owlwatch.Server.Federation.{View, peer_summary}

-- An answer: a status and a JSON value, or a status and the text of its error.
pub data Reply (A : Type 0) : Type 0 where
  json : ℕ → A → Reply A
  error : ℕ → Bytes → Reply A

unfoldable pub status_of : {A : Type 0} → Reply A → ℕ
status_of (json s a) = s
status_of (error s text) = s

abbrev pub unknown_server : Bytes
unknown_server = bytes "unknown server"

abbrev pub peer_unreachable : Bytes
peer_unreachable = bytes "peer unreachable"

-- `requireToken`
unfoldable pub require_token : {A : Type 0} → Bytes → Reply A → Reply A
require_token token next =
    if same token []
    then error 403 (bytes "this action requires OWLWATCH_TOKEN to be set on the server")
    else next

-- `handleActions`: whether a restart and a test email are available.
unfoldable pub handle_actions : Bytes → Bool → Bool → Reply (Bool × Bool)
handle_actions token has_reboot has_alerts =
    json 200 (not (same token []) && has_reboot, not (same token []) && has_alerts)

-- `handleReboot`. The state is whether sync.Once has run, and the number of restarts begun.
unfoldable pub handle_reboot : Bool → Bool × ℕ → Reply Unit × (Bool × ℕ)
handle_reboot false s = (error 503 (bytes "server reboot is unavailable"), s)
handle_reboot true (once, n) = (json 202 tt, (true, if once then n else n + 1))

-- `handleAlertsTest`; the mailer's result is `none` for success, else the text of its error.
unfoldable pub handle_alerts_test : Bool → Option Bytes → Reply Unit
handle_alerts_test false result = error 409 (bytes "email alerts are not configured on this server")
handle_alerts_test true none = json 200 tt
handle_alerts_test true (some e) = error 502 (bytes "sending the test email failed: " ++ e)

-- `handleHealthz`: the status, from the time of the last sample, the clock and the sample interval,
-- in milliseconds.
unfoldable pub handle_healthz : Option ℕ → ℕ → ℕ → ℕ
handle_healthz none now interval = 503
handle_healthz (some ts) now interval = if ltb (5 * interval) (now - ts) then 503 else 200

-- The errors of a collector's disk scan.
pub data ScanError : Type 0 where
  invalid_disk_path : Bytes → ScanError
  disk_unavailable : Bytes → ScanError
  scan_failed : ScanError

pub data Scan (A : Type 0) : Type 0 where
  scanned : A → Scan A
  not_scanned : ScanError → Scan A

unfoldable pub handle_disk_usage : {A : Type 0} → Scan A → Reply A
handle_disk_usage (scanned usage) = json 200 usage
handle_disk_usage (not_scanned (invalid_disk_path text)) = error 400 text
handle_disk_usage (not_scanned (disk_unavailable text)) = error 404 text
handle_disk_usage (not_scanned scan_failed) = error 500 (bytes "disk usage scan failed")

-- `store.Ranges` by its keys.
unfoldable pub range_known : Bytes → Bool
range_known key =
    if same key (bytes "1h")
    then true
    else if same key (bytes "6h")
    then true
    else if same key (bytes "24h")
    then true
    else if same key (bytes "7d")
    then true
    else same key (bytes "30d")

-- `quote` is the verb %q.
unfoldable pub unknown_range : (Bytes → Bytes) → Bytes → Bytes
unknown_range quote key =
    bytes "unknown range " ++ (quote key ++ bytes " (want 1h, 6h, 24h, 7d or 30d)")

-- `handleHistory`; the query's result is `none` for its error. A nil slice is the empty one.
unfoldable pub handle_history :
    {A : Type 0} → (Bytes → Bytes) → Bytes → Option A → Reply (Bytes × A)
unfolding range_known unknown_range
handle_history quote key result =
    if range_known key
    then elim result [
      | none ↦ error 500 (bytes "history query failed")
      | some points ↦ json 200 (key, points)
    ]
    else error 400 (unknown_range quote key)

-- What the proxied requests answer for the errors of the hub's client.
unfoldable pub proxied : {A : Type 0} → Result A → Reply A
proxied (ok a) = json 200 a
proxied (failed unknown_peer) = error 404 unknown_server
proxied (failed peer_unavailable) = error 502 peer_unreachable
proxied (failed (refused reason)) = error 502 peer_unreachable
proxied (failed bad_request) = error 502 peer_unreachable

unfoldable pub with_range : {A : Type 0} → Bytes → Reply A → Reply (Bytes × A)
with_range key (json s a) = json s (key, a)
with_range key (error s text) = error s text

unfoldable pub rebooted : Result Unit → Reply Unit
rebooted (ok u) = json 202 tt
rebooted (failed unknown_peer) = error 404 unknown_server
rebooted (failed (refused reason)) = error 502 (bytes "peer refused the restart: " ++ reason)
rebooted (failed peer_unavailable) = error 502 peer_unreachable
rebooted (failed bad_request) = error 502 (bytes "peer reboot failed")

module _ {F : Type 0} where
  unfoldable pub handle_server_host : HostInfo → Option (View F) → Bytes → Reply HostInfo
  handle_server_host host v id =
      if same id (bytes "local") then json 200 host else elim (peer_summary v id) [
        | none ↦ error 404 unknown_server
        | some sum ↦ elim sum.host [ none ↦ error 502 peer_unreachable | some h ↦ json 200 h ]
      ]

  unfoldable pub handle_server_history :
      {A : Type 0}
      → (Bytes → Bytes)
      → Reply (Bytes × A)
      → Option (View F)
      → Bytes
      → Bytes
      → Result A
      → Reply (Bytes × A)
  unfolding range_known unknown_range proxied with_range
  handle_server_history quote own v id key result =
      if same id (bytes "local") then own else elim (peer_summary v id) [
        | none ↦ error 404 unknown_server
        | some _ ↦
            if range_known key
            then with_range key (proxied result)
            else error 400 (unknown_range quote key)
      ]

  unfoldable pub handle_server_disk_usage :
      {A : Type 0} → Reply A → Option (View F) → Bytes → Result A → Reply A
  unfolding proxied
  handle_server_disk_usage own v id result =
      if same id (bytes "local")
      then own
      else elim (peer_summary v id) [ none ↦ error 404 unknown_server | some _ ↦ proxied result ]

  -- The request to the peer is an argument that is used only when the peer is known.
  unfoldable pub handle_server_reboot :
      Reply Unit → Option (View F) → Bytes → Result Unit → Reply Unit
  unfolding rebooted
  handle_server_reboot own v id result =
      if same id (bytes "local")
      then own
      else elim (peer_summary v id) [ none ↦ error 404 unknown_server | some _ ↦ rebooted result ]
