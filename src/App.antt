-- ===== src/App.antt =====
-- app.go, appinstance.go, tenant.go and device.go: the application object of the SDK.
pub mod Text
pub mod Config
pub mod Validation
pub mod Tenants
pub mod Linking
pub mod Messages
pub mod Registry
pub mod Callbacks
pub mod Delivery
pub mod Links
pub mod Notices
pub mod Delivered
pub mod Credentials
pub mod Start
pub mod Retry
pub mod Backoff
pub mod Connected
pub mod Heard
pub mod Slow
pub mod Returned
pub mod Instances
pub mod Children
pub mod Tests
pub mod StartTests
pub mod HeardTests
