-- ===== src/Lib.antt =====
-- The Go SDK of the pxGrid Cloud: a shallow embedding of its client, with its correctness theorems.
--
-- An application (app.go) links tenants and keeps their devices (tenant.go, device.go). For each
-- region it holds a connection to the message broker (internal/pubsub), on which it subscribes to
-- one read stream. A connection sends JSON-RPC messages (internal/rpc) and keeps the handlers of
-- the responses in a map that expires them. A consumer asks for messages and a subscriber calls
-- the application; when the broker or the subscriber stalls, the connection is closed and made
-- anew with the same subscriptions. Around this stand statistics, a status log that classifies
-- each stream, a watchdog for slow callbacks, and a tracker that tells the application of gaps.
-- Queries to a device go through the cloud's API proxy (api.go).
--
-- Files, with the source of each:
--   HandlerMap       internal/pubsub/handlermap.go: get_and_delete, set_handler, expire_check,
--                    and in Sections the parts of two goroutines that use the map at once
--   Gap              internal/pubsub/gap_notifications.go: detect, subscription_started,
--                    connection_ready, broker_response
--   Stats            internal/pubsub/connstats.go: record_*, begin_ and end_stream_lifecycle
--   Diagnostics      internal/pubsub/read_stream_diagnostics.go: diagnostic_delta,
--                    classify_stream, log_read_stream_status, status_logger
--   Watch            internal/pubsub/sdk_processing_diagnostics.go: warning_due, run_watchdog
--   Rpc              internal/rpc/rpc.go: the messages and their constructors
--   Pubsub/Conn      internal/pubsub/connection.go, message.go and subscribe.go: connect,
--                    subscribe, unsubscribe, close_notify
--   Pubsub/Traffic   internal/pubsub/connection.go and message.go: the turns of writer, reader and
--                    processor over the channels and the handler map
--   Pubsub/Crew      internal/pubsub/connection.go and subscribe.go: the ends of the goroutines,
--                    the handlers in which they wait, the wait of close_notify
--   Pubsub/Consume   internal/pubsub/subscribe.go: consumer, dispatch_consume_result
--   Pubsub/Subscriber internal/pubsub/subscribe.go: subscriber, confirmed_consume_gap
--   Pubsub/Publish   internal/pubsub/publish.go: publish, publish_async, the handler of responses
--   Pubsub/Reconnect internal/pubsub/reconnect.go: error_handler_pass
--   Pubsub/Lifecycle internal/pubsub/reconnect.go: new_connection, connect, disconnect
--   App/Config       app.go and appinstance.go: validate_config, new_app_config
--   App/Start        app.go: new_app, pubsub_connect, close_connections, report_error
--   App/Retry        app.go: start_pubsub_connect
--   App/Credentials  app.go and util.go: the keys of requests, zero_byte_array
--   App/Notices      app.go: the channel of gap notifications and its dispatcher
--   App/Slow         app.go: the watchdog of the device message handler
--   App/Tenants      tenant.go and device.go: the requests for devices
--   App/Linking      app.go: link_tenant, unlink_tenant, set_tenant, load_tenants_devices
--   App/Instances    appinstance.go: instances that are created, linked, set and deleted
--   App/Messages     app.go: read_stream_handler, control_msg_handler, data_msg_handler
--   Interleaved      app.go: the message handlers, unlink_tenant, set_tenant and
--                    load_tenants_devices once more, as goroutines over shared maps
--   Log              log/log.go: the default logger
--   Query            api.go: query, with its uploads and its polls, fallback_query and the closer
--   Examples/Files   examples/*/main.go: loadConfig and store
--   Examples/Consumer, Echo, Instance and Diagnosis
--                    examples/basic-consumer, echo-query, multi-instance and
--                    read-stream-diagnostics: main
--   Examples/Devices, Simulator and Publisher
--                    examples/read-stream-diagnostics/main.go: deviceRegistry, callbackSimulator,
--                    runPublisher
-- Base has the shared types and lemmas. The other modules of a component hold its theorems, and
-- those whose names end in Tests the tests and instances.
--
-- Conventions. A function of the source keeps its name in this library's spelling; a method takes
-- its receiver last and returns it changed. An instant is a number of nanoseconds since Go's zero
-- time, and what `time.Now()` returns is an argument. A counter is an `int64` pattern below 2 ^ 64.
-- A Go map is an association list, whose order is one order in which a range loop may visit it. A
-- method that holds a lock is atomic, so concurrent use is a sequence of calls; where a lock is
-- released between, the parts are the steps (HandlerMap/Sections). The files of the examples
-- and their YAML texts are an interface with two laws. What the network, the
-- JSON library or the application answers is an argument of the operation that asks. Errors are
-- values with the texts that the code gives them; arguments of a format may be left out.
--
-- Fuel and loops. The upload loop of a query runs on fuel, one more than the number of bytes,
-- which the theorems on it show to be enough. Loops over messages, polls, ticks and rounds recur
-- on the sequence of what they meet, of any length.
--
-- Goroutines. Where their order matters it is written out: Pubsub/Traffic and App/Notices run any
-- list of turns, Pubsub/Crew is a step relation of which any run is considered, and Interleaved
-- lets any goroutines take steps of one map access, request or callback in the order of any
-- schedule. The channels have the sizes of the source, 64 and 16.
--
-- Not modelled: the text of log lines, the HTTP clients and the websocket, the functions that only
-- return a field or pass a call on, and the moment at which a wait for a goroutine ends outside of
-- Pubsub/Crew. Of the examples, the handlers that only print, the wait for a signal and the copy of
-- a query's answer are left out. The test server is no part of the client.
pub mod Base
pub mod Rpc
pub mod HandlerMap
pub mod Gap
pub mod Stats
pub mod Watch
pub mod Diagnostics
pub mod App
pub mod Query
pub mod Pubsub
pub mod Log
pub mod Interleaved
pub mod Examples
