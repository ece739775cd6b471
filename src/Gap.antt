-- ===== src/Gap.antt =====
-- internal/pubsub/gap_notifications.go: when an application is told that a read stream has a gap
-- and that the gap is over.
pub mod Tracker
pub mod Trace
pub mod Edges
pub mod Evidence
pub mod Durations
pub mod Tests
