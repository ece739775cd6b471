-- ===== src/HandlerMap.antt =====
-- internal/pubsub/handlermap.go: the handlers of the requests that wait for a response, in two
-- generations. A handler is any value; the map only stores it, returns it, or calls it with an
-- error response when it expires. The operations are those of one goroutine in Defs, and the parts
-- of two goroutines' operations, between which the lock is released, in Sections.
pub mod Defs
pub mod Lifetime
pub mod Answers
pub mod Sections
pub mod Rotations
pub mod Tests
