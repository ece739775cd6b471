-- ===== src/Pubsub/Reconnect.antt =====
-- `Connection`: the connection that outlives a consume timeout (reconnect.go).
use cloud_sdk_go.Base.{
  ℕ, String, Bool, false, not, Option, none, some, List, [], ◌∷◌, ◌++◌, Dict, insert, erase,
  if◌then◌else◌, Failure, message, Result, ok, err,
}
use cloud_sdk_go.Stats.Defs.{record_reconnect}
use cloud_sdk_go.Gap.Tracker.{GapEvent, unless_nil, connection_ready}
use cloud_sdk_go.Pubsub.Conn.{
  Config, Conn, Dial, new_internal_connection, connect, subscribe, unsubscribe, is_disconnected,
}

-- The handlers of the subscriptions are functions of the application, and go with the stream.
pub record SubscriptionParams : Type 0 where
  pub stream : String
  pub subscription_id : String

pub record Connection : Type 0 where
  pub config : Config
  pub conn : Conn
  pub reconnecting : Bool
  pub subscriptions : Dict SubscriptionParams

-- The connection with the tracker told that a stream is ready, and the tracker's events.
abbrev pub ready : ℕ → String → Conn → Conn × List GapEvent
ready now stream c =
    let (gaps, events) = unless_nil (connection_ready now stream) c.gaps in
    (record c { gaps = gaps }, events)

unfoldable pub subscribe_stream :
    ℕ → String → Result String → Connection → Connection × List GapEvent × Option Failure
unfolding subscribe
subscribe_stream now stream created c =
    let (conn, result) = subscribe now stream "" created c.conn in
    elim result [
      | err e ↦ (record c { conn = conn }, [], some e)
      | ok id ↦
          let (told, events) = ready now stream conn in
          (
            record c {
              conn = told;
              subscriptions =
                  insert stream (record { stream = stream; subscription_id = id }) c.subscriptions;
            },
            events,
            none,
          )
    ]

unfoldable pub unsubscribe_stream :
    (String → Result (Unit {0})) → String → Connection → Connection × Option Failure
unsubscribe_stream deleted stream c =
    let (conn, result) = unsubscribe deleted stream c.conn in
    elim result [
      | err e ↦ (record c { conn = conn }, some e)
      | ok _ ↦ (record c { conn = conn; subscriptions = erase stream c.subscriptions }, none)
    ]

unfoldable pub subscription_snapshot : Dict SubscriptionParams → List SubscriptionParams
subscription_snapshot [] = []
subscription_snapshot ((stream, sub) ∷ rest) = sub ∷ subscription_snapshot rest

-- The loop that subscribes again with the ids that the broker gave: it ends at a failure. With an
-- id no subscription is created, so there is nothing for the broker to answer.
unfoldable pub resubscribe : ℕ → List SubscriptionParams → Conn → Conn × Option Failure
resubscribe now [] c = (c, none)
resubscribe now (sub ∷ subs) c =
    let (c', result) = subscribe now sub.stream sub.subscription_id (err (message "unused")) c in
    let rest = resubscribe now subs c' in elim result [ err e ↦ (c', some e) | ok _ ↦ rest ]

unfoldable pub tell_ready : ℕ → List SubscriptionParams → Conn → Conn × List GapEvent
tell_ready now [] c = (c, [])
tell_ready now (sub ∷ subs) c =
    let (c', events) = ready now sub.stream c in
    let (c'', more) = tell_ready now subs c' in (c'', events ++ more)

-- One pass of `errorHandler` when the inner connection has ended with `e`: it goes on with a
-- connection that is ready, or ends with an error that may be nil.
pub data Pass : Type 0 where
  goes_on : Connection → List GapEvent → Pass
  ends : Connection → Option Failure → Pass

abbrev settle : ℕ → List SubscriptionParams → Connection → Conn → Pass
settle now subs c conn =
    let counted : Conn = record conn { stats = record_reconnect conn.stats } in
    let (told, events) = tell_ready now subs counted in
    goes_on (record c { conn = told; reconnecting = false }) events

unfoldable pub resume : ℕ → Connection → Conn × Result (Unit {0}) → Pass
unfolding resubscribe tell_ready subscription_snapshot
resume now c (conn, err e) = ends (record c { conn = conn; reconnecting = false }) (some e)
resume now c (conn, ok _) =
    let subs = subscription_snapshot c.subscriptions in
    let (left, failure) = resubscribe now subs conn in
    elim failure [
      | some e ↦ ends (record c { conn = left; reconnecting = false }) (some e)
      | none ↦ settle now subs c left
    ]

unfoldable pub error_handler_pass :
    ℕ → Dial → (String → Result (Unit {0})) → Option Failure → Connection → Pass
unfolding resume
error_handler_pass now dial deleted e c =
    if not c.conn.consume_timeout
    then ends c e
    else elim (new_internal_connection c.config c.conn.stats c.conn.gaps) [
      | err x ↦ ends (record c { reconnecting = false }) (some x)
      | ok conn ↦ resume now c (connect now dial deleted conn)
    ]

-- `diagnosticConnectionState`
unfoldable pub diagnostic_connection_state : Connection → Bool × Bool
diagnostic_connection_state c = (is_disconnected c.conn, c.reconnecting)
