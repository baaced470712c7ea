-- ===== src/Collector.antt =====
-- internal/collector: the feed of snapshots, the partitions that are reported, and the reading of their
-- usage.
pub mod Feed
pub mod Partitions
pub mod Disks
pub mod Processes
pub mod Gpu
pub mod Breakdown
