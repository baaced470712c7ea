-- ===== src/Lib.antt =====
-- owlwatch is a machine monitor: a collector samples the machine, a store keeps the history, an HTTP
-- server streams the samples to a browser, and a hub (internal/peers) follows other owlwatch servers
-- and shows the whole fleet. This library models the parts below in explicit state passing and proves
-- what makes them correct.
--
-- Prelude: shared helpers; Go strings are lists of bytes, and `none` in the panic monad of
--   Prelude/Loops is a run-time panic. Maps are association lists.
-- Metrics: the records of internal/metrics/types.go and internal/metrics/federation.go. float64 is a
--   type that the definitions take as an argument, with its comparisons where they are used.
-- Ring: the snapshot ring of internal/peers/client.go (peerState's push, seedRing, snapshots,
--   recentCPU) and recentCPU of internal/server/federation.go.
-- Fanout: Subscribe, its cancel func, shutdown and broadcastLocked of internal/peers/client.go, with
--   the channels seen by both ends.
-- Peers: Peer of internal/peers/peers.go. Peers/Config: ParsePeers and parseBaseURL of that file.
--   Peers/Client: Client of internal/peers/client.go with
--   setOnline, applyHello, applySnapshot, Servers, Recent, HostInfo and IntervalMs. Every function
--   runs under the mutex, so an interleaving of goroutines is a list of steps (Peers/Client/Fleet).
--   Peers/Stream: readEvents and dispatch of internal/peers/sse.go. Peers/Requests: History,
--   DiskUsage, Reboot, the backoff of runPeer and rateLogger of internal/peers/client.go.
-- Server/Sse: internal/server/sse.go, whose bytes Peers/Stream reads back (Peers/Stream/RoundTrip
--   and Mirror).
--   Server/Middleware: the host check, the token check, the request limits and their chain, of
--   internal/server/middleware.go and server.go. Server/Recovery: the status recorder, the log line,
--   the security headers and the recovery of panics of the same files; a handler is the list of its
--   writes and how it ends. Server/Federation: the fleet of
--   internal/server/federation.go, its streams (Streams), and the JSON handlers (Routes) of that file,
--   server.go, actions.go, reboot.go and alerts.go. The fleet that a handler sees at one moment is a
--   View, what Peers/Client answers then; allServers asks twice, and has two. A failure to marshal an
--   event, which the code logs and skips, is not modelled.
-- Alerts: internal/alerts/alerts.go; Alerts/Evaluate is one pass over a snapshot with its email.
-- Collector/Feed: New, publish, Latest, Recent and the subscribers of internal/collector/collector.go, on
--   Ring and Fanout. Collector/Partitions: filterPartitions of that file. Collector/Disks: sampleDisks
--   and diskUsages, whose reads of a mount are an argument; a round has one time, that of its start, and
--   how long its reads take is not modelled.
-- Collector/Processes: internal/collector/processes.go. Collector/Gpu: internal/collector/gpu.go.
--   Collector/Breakdown: internal/collector/disk_usage.go, from the request and the cache to the scan, whose
--   workers run one after another here, and whose file system is a tree (Scan, Items).
-- Store: Insert and Prune of internal/store/store.go over a database that is an argument, whose statement
--   to delete rows has the table and the comparison of the code's SQL; Store/Query:
--   QueryContext and mergeDisks, from the rows of their statements to the points.
-- Main/Config: loadConfig, loadAlertConfig, envInt, envFloat and envDuration of cmd/owlwatch/main.go.
--   Main/Persist: persistLoop, as a run over the events of its select.
-- Init: cmd/owlwatch-init/main.go over a kernel that is an argument.
--
-- Arguments of the model: JSON encoding and decoding, the HTTP exchange with a peer, the SMTP
-- delivery, the database, the calls of the kernel, gopsutil, the environment, net.SplitHostPort, net.ParseIP, url.Parse, url.QueryEscape, random draws, the
-- formats of numbers and times, and the clock, which each step is given. Times, sizes and counts are natural numbers.
--
-- Loops are structural recursion on the list of what wakes them, so no definition has fuel. The bounds
-- are the program's: a ring of 150 snapshots, a cache of 256 results, a scan of 2000000 entries, a subscriber buffer of 16, 60 points of a series, events
-- of 128 KiB.
--
-- Not modelled: sampleCPU, sampleMem and gatherHostInfo of internal/collector/collector.go,
-- Open of internal/store/store.go, internal/alerts/mailer.go, main, run and runHealthcheck of
-- cmd/owlwatch/main.go, the routing of net/http, Flush and Unwrap of the recorder of
-- internal/server/middleware.go, and the stall watchdog of internal/peers/sse.go; web is not Go code.
pub mod Prelude
pub mod Ring
pub mod Fanout
pub mod Metrics
pub mod Peers
pub mod Alerts
pub mod Collector
pub mod Store
pub mod Main
pub mod Init
pub mod Server
