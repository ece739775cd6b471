-- ===== src/Pubsub.antt =====
-- internal/pubsub/connection.go, subscribe.go, message.go, publish.go and reconnect.go: the
-- connection to the broker.
pub mod Conn
pub mod Consume
pub mod Publish
pub mod Acks
pub mod Reconnect
pub mod Table
pub mod Cursor
pub mod Resume
pub mod Lifecycle
pub mod Once
pub mod Traffic
pub mod Routing
pub mod Owners
pub mod Channels
pub mod Subscriber
pub mod Detections
pub mod Recovery
pub mod Crew
pub mod Closing
pub mod Held
pub mod Tests
pub mod RunTests
