-- ===== src/Pubsub/Conn.antt =====
-- `internalConnection`: its queue, its subscriptions and its end (connection.go, subscribe.go,
-- message.go).
--
-- What other parties answer is an argument: the token provider, the REST calls, the dial. The
-- subscriptions' goroutines are not modelled here; the waits for them have no result.
use cloud_sdk_go.Base.{
  ℕ, ◌+◌, String, Bool, true, false, not, ◌||◌, ◌&&◌, Option, none, some, List, [], ◌∷◌, ◌++◌,
  length, ltb, leb, ◌==◌, Dict, lookup, insert, erase, ℤ, pos, pos_part, neg_part, is_empty,
  if◌then◌else◌, Failure, message, because, Result, ok, err, ◌>>=◌, ◌>>◌, fail_if, context,
}
use cloud_sdk_go.Rpc.Messages.{Json, Request, Response, control_result}
use cloud_sdk_go.Stats.Defs.{
  ConnStats, begin_stream_lifecycle, end_stream_lifecycle, record_connected,
}
use cloud_sdk_go.Gap.Tracker.{GapTracker, unless_nil, subscription_started}
use cloud_sdk_go.Query.Types.{HttpReply, failed, replied}

-- Which providers of credentials a configuration has.
pub record Config : Type 0 where
  pub group_id : String
  pub domain : String
  pub has_api_key_provider : Bool
  pub has_auth_token_provider : Bool
  pub poll_interval : ℤ
  pub status_log_interval : ℤ

pub record Subscription : Type 0 where
  pub id : String
  pub stream : String

-- `error` is what the channel `Error` has been given: nothing yet, or its end with an error or nil.
pub record Conn : Type 0 where
  pub config : Config
  pub auth_key : String
  pub has_ws : Bool
  pub closed : Bool
  pub consume_timeout : Bool
  pub subs : Dict Subscription
  pub writer_queue : List Request
  pub error : Option (Option Failure)
  pub stats : ConnStats
  pub gaps : Option GapTracker

abbrev pub default_if_zero : ℤ → ℤ → ℤ
default_if_zero default d = if pos_part d + neg_part d == 0 then default else d

unfoldable pub new_internal_connection : Config → ConnStats → Option GapTracker → Result Conn
new_internal_connection config stats gaps = do
  fail_if (is_empty config.group_id) (message "Config must contain GroupID")
  fail_if (is_empty config.domain) (message "Config must contain Domain")
  fail_if (not config.has_api_key_provider && not config.has_auth_token_provider)
      (message "Config must contain either APIKeyProvider or AuthTokenProvider")
  ok (record {
    config = record config {
      poll_interval = default_if_zero (pos 1000000000) config.poll_interval;
      status_log_interval = default_if_zero (pos 60000000000) config.status_log_interval;
    };
    auth_key = if config.has_api_key_provider then "X-Api-Key" else "X-Auth-Token";
    has_ws = false;
    closed = false;
    consume_timeout = false;
    subs = [];
    writer_queue = [];
    error = none;
    stats = stats;
    gaps = gaps;
  })

-- `sendMessage`: the queue holds 64 messages, and a full one refuses.
unfoldable pub send_message : Request → Conn → Conn × Option Failure
send_message req c =
    if ltb (length c.writer_queue) 64
    then (record c { writer_queue = c.writer_queue ++ (req ∷ []) }, none)
    else (c, some (message "writer is busy"))

-- `sendControlMessage`: one response is awaited, and `none` is the end of the wait.
unfoldable pub send_control_message :
    Json → Request → Option Response → Conn → Conn × Result (Unit {0})
unfolding send_message
send_control_message json req response c =
    let (c', failure) = send_message req c in
    (
      c',
      elim failure [
        | some e ↦ err (because "failed to send request" e)
        | none ↦ elim response [
          | none ↦ err (message "sending request: timed out")
          | some resp ↦
              context "received unexpected response" (control_result json resp) >>= λ _. ok tt
        ]
      ],
    )

-- The status and the id of the reply are tested after the token and the transport.
unfoldable pub create_subscription : Result String → HttpReply String → Result String
create_subscription (err e) reply = err e
create_subscription (ok token) (failed e) = err (because "failed to create subscription" e)
create_subscription (ok token) (replied status id) =
    if ltb status 200 || leb 300 status
    then err (message "received unexpected response while creating the subscription")
    else if is_empty id
    then err (message "received empty subscriptions ID")
    else ok id

unfoldable pub delete_subscription : Result String → HttpReply (Unit {0}) → Result (Unit {0})
delete_subscription (err e) reply = err (because "failed to obtain auth header for deletion" e)
delete_subscription (ok token) (failed e) = err (because "failed to delete subscription" e)
delete_subscription (ok token) (replied status _) =
    if ltb status 200 && leb 300 status
    then err (message "failed to delete subscription")
    else ok tt

-- The id that is given, or the one that the broker creates.
abbrev choose_id : String → Result String → Result String
choose_id subscription_id created =
    if is_empty subscription_id
    then context "failed to create subscription" created
    else ok subscription_id

unfoldable pub add_subscription : ℕ → String → String → Conn → Conn
add_subscription now stream id c = record c {
  subs = insert stream (record { id = id; stream = stream }) c.subs;
  stats = begin_stream_lifecycle now stream c.stats;
  gaps = (unless_nil (subscription_started stream) c.gaps).0;
}

-- `created` is what `createSubscription` would return.
unfoldable pub subscribe : ℕ → String → String → Result String → Conn → Conn × Result String
unfolding add_subscription
subscribe now stream subscription_id created c = elim (lookup stream c.subs) [
  | some _ ↦ (c, err (message "subscription for stream already exists"))
  | none ↦ elim (choose_id subscription_id created) [
    | err e ↦ (c, err e)
    | ok id ↦ (add_subscription now stream id c, ok id)
  ]
]

abbrev pub remove_subscription : Bool → String → Conn → Conn
remove_subscription delete_sub stream c = record c {
  subs = erase stream c.subs;
  stats = if delete_sub then end_stream_lifecycle stream c.stats else c.stats;
}

-- The deletion at the broker, if it is asked for.
abbrev try_delete : Bool → Result (Unit {0}) → Result (Unit {0})
try_delete false deleted = ok tt
try_delete true deleted = context "failed to unsubscribe from stream" deleted

-- `deleted` is what `deleteSubscription` returns for an id.
unfoldable pub unsubscribe_without_lock :
    (String → Result (Unit {0})) → String → Bool → Conn → Conn × Result (Unit {0})
unsubscribe_without_lock deleted stream delete_sub c = elim (lookup stream c.subs) [
  | none ↦ (c, err (message "subscription for stream doesn't exist"))
  | some sub ↦ elim (try_delete delete_sub (deleted sub.id)) [
    | err e ↦ (c, err e)
    | ok _ ↦ (remove_subscription delete_sub stream c, ok tt)
  ]
]

unfoldable pub unsubscribe : (String → Result (Unit {0})) → String → Conn → Conn × Result (Unit {0})
unfolding unsubscribe_without_lock
unsubscribe deleted stream c = unsubscribe_without_lock deleted stream true c

unfoldable pub mark_consume_timeout : Conn → Conn
mark_consume_timeout c = record c { consume_timeout = true }

-- The loop of `closeNotify` over the table as it was before the loop; errors are logged.
unfoldable pub unsubscribe_all :
    (String → Result (Unit {0})) → Bool → Dict Subscription → Conn → Conn
unsubscribe_all deleted delete_sub [] c = c
unsubscribe_all deleted delete_sub ((stream, sub) ∷ rest) c =
    unsubscribe_all deleted delete_sub rest (unsubscribe_without_lock deleted stream delete_sub c).0

-- Runs once: a second call finds the connection closed.
unfoldable pub close_notify : (String → Result (Unit {0})) → Option Failure → Conn → Conn
unfolding unsubscribe_all
close_notify deleted e c =
    if c.closed
    then c
    else let shut : Conn = record c { closed = true } in
      let left = unsubscribe_all deleted (not c.consume_timeout) c.subs shut in
      record left { error = some e }

-- `disconnect`: after the close message the websocket is closed, and the reader, whose next read
-- fails with `e`, ends the connection.
unfoldable pub disconnect : (String → Result (Unit {0})) → Failure → Conn → Conn
unfolding close_notify
disconnect deleted e c = if not c.has_ws || c.closed then c else close_notify deleted (some e) c

-- What the connection meets while it opens; `opened` is what `sendOpenMessage` returns.
pub record Dial : Type 0 where
  pub token : Result String
  pub dialled : Result (Unit {0})
  pub opened : Result (Unit {0})

-- `connect`. The three goroutines run from here on; a failed open message closes the connection.
unfoldable pub connect : ℕ → Dial → (String → Result (Unit {0})) → Conn → Conn × Result (Unit {0})
unfolding close_notify
connect now d deleted c =
    if c.has_ws
    then (c, err (message "already connected"))
    else elim (context "failed to get auth token" d.token >>= λ _.
        context "failed to connect" d.dialled) [
          | err e ↦ (c, err e)
          | ok _ ↦
              let open_conn : Conn = record c {
                has_ws = true;
                stats = record_connected now c.stats;
              } in
              elim d.opened [
                | ok _ ↦ (open_conn, ok tt)
                | err e ↦ (
                  close_notify deleted (some e) open_conn,
                  err (because "failed to send open message" e),
                )
              ]
        ]

unfoldable pub is_disconnected : Conn → Bool
is_disconnected c = c.closed
