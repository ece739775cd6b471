-- ===== src/Interleaved.antt =====
-- app.go: the goroutines that share the maps of the application, one access at a time.
pub mod Store
pub mod Threads
pub mod Isolation
pub mod Drain
pub mod Alone
pub mod Races
pub mod Tests
