-- ===== src/Diagnostics.antt =====
-- internal/pubsub/read_stream_diagnostics.go: what the periodic status log says of each stream.
pub mod Defs
pub mod Status
pub mod States
pub mod Deltas
pub mod Tests
