-- ===== src/Pubsub/Lifecycle.antt =====
-- `Connection` from its making to its end (reconnect.go: NewConnection, Connect, Disconnect,
-- IsDisconnected).
--
-- The lock makes `Connect` and `Disconnect` one after the other; a `Disconnect` that comes during a
-- `Connect` cancels its context and then waits for it.
use cloud_sdk_go.Base.{
  ℕ, String, Bool, true, false, Option, none, some, [], pos, Failure, message, Result, ok, err,
  ◌>>=◌,
}
use cloud_sdk_go.Stats.Defs.{new_conn_stats}
use cloud_sdk_go.Gap.Tracker.{GapTracker}
use cloud_sdk_go.Pubsub.Conn.{
  Config, Conn, Dial, default_if_zero, new_internal_connection, connect, disconnect,
  is_disconnected,
}
use cloud_sdk_go.Pubsub.Reconnect.{Connection}

-- `serving` says that the error handler and the status logger run, which is when `ctxCancel` and
-- `statusLoggerDone` are set.
pub record Service : Type 0 where
  pub connection : Connection
  pub serving : Bool

unfoldable pub new_connection : Config → Option GapTracker → Result Service
new_connection config gaps =
    let c : Config = record config {
      status_log_interval = default_if_zero (pos 60000000000) config.status_log_interval;
    } in
    new_internal_connection c new_conn_stats gaps >>= λ conn. ok (record {
      connection = record { config = c; conn = conn; reconnecting = false; subscriptions = [] };
      serving = false;
    })

abbrev pub with_conn : Conn → Service → Service
with_conn conn s = record s { connection = record s.connection { conn = conn } }

-- What a connection meets while it opens, and the error of the attempt's context after that.
pub record Attempt : Type 0 where
  pub dial : Dial
  pub deleted : String → Result (Unit {0})
  pub cancelled : Option Failure

-- The end of `Connect`, with the inner connection as its `connect` leaves it.
unfoldable pub finish_connect :
    Attempt → Conn × Result (Unit {0}) → Service → Service × Option Failure
unfolding disconnect
finish_connect a (conn, err e) s = (with_conn conn s, some e)
finish_connect a (conn, ok _) s = elim a.cancelled [
  | some e ↦ (with_conn (disconnect a.deleted (message "closed") conn) s, some e)
  | none ↦ (record (with_conn conn s) { serving = true }, none)
]

unfoldable pub connect_service : ℕ → Attempt → Service → Service × Option Failure
unfolding finish_connect connect
connect_service now a s = finish_connect a (connect now a.dial a.deleted s.connection.conn) s

unfoldable pub disconnect_service : (String → Result (Unit {0})) → Service → Service
unfolding disconnect
disconnect_service deleted s =
    record (with_conn (disconnect deleted (message "closed") s.connection.conn) s) {
      serving = false;
    }

unfoldable pub service_is_disconnected : Service → Bool
unfolding is_disconnected
service_is_disconnected s = is_disconnected s.connection.conn
