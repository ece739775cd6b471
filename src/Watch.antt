-- ===== src/Watch.antt =====
-- internal/pubsub/sdk_processing_diagnostics.go: warnings about a callback that does not return.
pub mod Defs
pub mod Warnings
pub mod Tests
