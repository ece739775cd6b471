-- ===== src/Rpc.antt =====
-- internal/rpc/rpc.go: the JSON-RPC messages that the client exchanges with the broker.
--
-- The JSON library and the generator of unique ids are not part of the repository. `Json` names the
-- encodings that the code calls, and an id is an argument. A raw JSON text is a `String`.
pub mod Messages
pub mod RoundTrip
pub mod Tests
