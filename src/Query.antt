-- ===== src/Query.antt =====
-- api.go: HTTP requests to a device through the cloud's API proxy.
pub mod Types
pub mod Upload
pub mod Defs
pub mod Parts
pub mod Polling
pub mod Bodies
pub mod Fallback
pub mod Headers
pub mod Tests
