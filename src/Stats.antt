-- ===== src/Stats.antt =====
-- internal/pubsub/connstats.go: the read-stream counters and timestamps that survive reconnects.
pub mod Defs
pub mod Counters
pub mod Activity
pub mod Tests
pub mod Cursors
