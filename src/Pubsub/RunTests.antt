-- ===== src/Pubsub/RunTests.antt =====
-- Runs of the goroutines as instances of their theorems.
use cloud_sdk_go.Base.{
  ◌≡◌, refl, pos, ◌+◌, String, true, false, none, some, List, [], ◌∷◌, ok, err, message, because,
  arith, lookup, insert,
}
use cloud_sdk_go.Rpc.Tests.{request, json}
use cloud_sdk_go.Rpc.Messages.{
  new_publish_request, no_error, Response, ConsumeResult, new_response_from_bytes,
}
use cloud_sdk_go.HandlerMap.Defs.{new_handler_map}
use cloud_sdk_go.HandlerMap.Answers.{pending}
use cloud_sdk_go.Pubsub.Traffic.{Turn, submits, writes, reads, processes, new_traffic, traffic}
use cloud_sdk_go.Pubsub.Routing.{called, refused, queued, submitted, traffic-answers}
use cloud_sdk_go.Pubsub.Channels.{IsOrderly, traffic-IsOrderly}
use cloud_sdk_go.Stats.Defs.{new_conn_stats}
use cloud_sdk_go.Gap.Tracker.{is_active}
use cloud_sdk_go.Pubsub.Conn.{Conn, send_message, new_internal_connection, close_notify}
use cloud_sdk_go.Pubsub.Reconnect.{Connection, error_handler_pass}
use cloud_sdk_go.Pubsub.Resume.{Restores}
use cloud_sdk_go.Pubsub.Recovery.{stall-Restores}
use cloud_sdk_go.Pubsub.Consume.{Round, answered, timed_out, consumer}
use cloud_sdk_go.Pubsub.Subscriber.{subscriber}
use cloud_sdk_go.Pubsub.Detections.{Sees, detections, ends_in_gap, subscriber-Sees}
use cloud_sdk_go.Pubsub.Lifecycle.{Service, Attempt, connect_service}
use cloud_sdk_go.Pubsub.Once.{Op, connects, disconnects, breaks, connected}
use cloud_sdk_go.Pubsub.Publish.{to_published, send_publish_message, publish}
use cloud_sdk_go.Pubsub.Acks.{publish_lem}
use cloud_sdk_go.Pubsub.Crew.{Crew, started, Run, here, next, work, writer_ends, reader_ends}
use cloud_sdk_go.Pubsub.Closing.{open_failure-waits}

-- A request is written and its response read and processed.
abbrev turns : List (Turn String)
turns =
    submits (record { request = record request { id = "r1" }; handler = some "f" })
    ∷ writes 1 1 none
    ∷ reads (ok "response")
    ∷ processes 2 2
    ∷ []

answered_once : called "r1" (traffic (json "yes") turns (new_traffic 0 100)).1 ≡ 1
unfolding traffic new_handler_map new_response_from_bytes lookup insert
answered_once = refl

traffic-answers_example :
    let (t, acts) = traffic (json "yes") turns (new_traffic 0 100) in
    called "r1" acts + refused "r1" acts + queued "r1" t.writer_queue + pending "r1" t.handlers
    ≡ submitted "r1" turns
traffic-answers_example = traffic-answers (json "yes") 0 100 "r1" turns (omega arith)

-- The handler "f" is that of the request "r1".
abbrev request_of : String → String
request_of h = "r1"

traffic-IsOrderly_example :
    IsOrderly request_of (json "yes") (traffic (json "yes") turns (new_traffic 0 100))
traffic-IsOrderly_example =
    traffic-IsOrderly request_of (json "yes") 0 100 turns (refl, (tt, (tt, (tt, tt))))

-- `disconnect` has closed the websocket and the reader has noticed.
abbrev parting : Crew
parting = record started { socket_up = false; reader = false; closing = true }

abbrev parted : Crew
parted = record parting { writer = false }

abbrev departure : Run parting parted
departure = next here (work (writer_ends refl refl refl refl))

-- The websocket fails while the processor waits in a handler: the reader ends.
abbrev held : Crew
held = record started { socket_up = false; processor_held = true }

abbrev unread : Crew
unread = record held { reader = false; closing = true }

abbrev failure : Run held unread
failure = next here (work (reader_ends refl refl refl))

abbrev unopened : Crew
unopened = record started { closing = true }

abbrev stuck : Crew
stuck = record unopened { writer = false }

abbrev half : Run unopened stuck
half = next here (work (writer_ends refl refl refl refl))

open_failure-waits_example :
    (stuck.finished ≡ false) × (stuck.reader ≡ true) × (stuck.socket_up ≡ true)
open_failure-waits_example = open_failure-waits started stuck half refl refl refl refl refl

-- The broker answers once and then no more.
abbrev watched : Conn
watched = record {
  config = record {
    group_id = "g";
    domain = "us";
    has_api_key_provider = true;
    has_auth_token_provider = false;
    poll_interval = pos 1;
    status_log_interval = pos 1;
  };
  auth_key = "X-Api-Key";
  has_ws = true;
  closed = false;
  consume_timeout = false;
  subs = [];
  writer_queue = [];
  error = none;
  stats = new_conn_stats;
  gaps = some (record { streams = []; reconnect_count = 0 });
}

abbrev nothing_new : ConsumeResult
nothing_new = record { consume_context = "c1"; subscription_id = "s1"; messages = [] }

abbrev rounds : List Round
rounds = answered true (ok nothing_new) true ∷ timed_out ∷ []

no_gap_yet : is_active (lookup "a" []) ≡ false
unfolding lookup
no_gap_yet = refl

subscriber-Sees_example :
    Sees "a" false
      (ends_in_gap (consumer "a" "" rounds).1)
      (subscriber ok "a" (λ n. n) 20 21 rounds watched)
subscriber-Sees_example =
    subscriber-Sees ok "a" (record { streams = []; reconnect_count = 0 }) (λ n. n) 20 21 rounds
      watched no_gap_yet refl

-- A connection that is opened, breaks, and cannot be opened again.
abbrev attempt : Attempt
attempt = record {
  dial = record { token = ok "key"; dialled = ok tt; opened = ok tt };
  deleted = λ id. ok tt;
  cancelled = none;
}

abbrev unconnected : Service
unconnected = record {
  connection = record {
    config = watched.config;
    conn = record watched { has_ws = false };
    reconnecting = false;
    subscriptions = [];
  };
  serving = false;
}

abbrev ops : List Op
ops =
    connects 5 attempt
    ∷ breaks (λ id. ok tt) none
    ∷ connects 9 attempt
    ∷ disconnects (λ id. ok tt)
    ∷ []

opened_once : (connected ops unconnected).1 ≡ 1
unfolding connect_service
opened_once = refl

-- The connection with the subscription that it makes anew.
abbrev stalling : Connection
stalling = record {
  config = watched.config;
  conn = watched;
  reconnecting = false;
  subscriptions = ("a", record { stream = "a"; subscription_id = "s1" }) ∷ [];
}

abbrev fresh : Conn
fresh = record watched { has_ws = false }

made_fresh : new_internal_connection watched.config new_conn_stats watched.gaps ≡ ok fresh
unfolding new_internal_connection
made_fresh = refl

stalls : ends_in_gap (consumer "a" "" rounds).1 ≡ true
unfolding consumer
stalls = refl

stall-Restores_example :
    let (c, effects) = subscriber ok "a" (λ n. n) 20 21 rounds stalling.conn in
    let shut : Connection = record stalling { conn = close_notify (λ id. ok tt) none c } in
    (detections effects ≡ 1)
    × (close_notify (λ id. ok tt) none c ≡ close_notify (λ id. err (message "down")) none c)
    × Restores shut (error_handler_pass 30 attempt.dial (λ id. ok tt) none shut)
unfolding lookup
stall-Restores_example =
    stall-Restores ok "a" (record { streams = []; reconnect_count = 0 }) (λ n. n) 20 21 30 rounds
      stalling none (λ id. ok tt) (λ id. err (message "down")) attempt.dial fresh "key" refl
      no_gap_yet stalls (refl, refl, refl, tt) made_fresh refl refl refl

abbrev acknowledged : Response
acknowledged = record { version = "2.0"; id = "u1"; result = "published"; error = no_error }

published_sent : (send_publish_message (json "yes") "u1" "u2" "a" [] "cGF5" watched).1 ≡ ok "u1"
unfolding send_publish_message new_publish_request send_message
published_sent = refl

publish_lem_example :
    ((publish
        (json "yes")
        "u1"
        "u2"
        "a"
        []
        "cGF5"
        (acknowledged ∷ [])
        (acknowledged ∷ [])
        watched).1
      ≡ ok (to_published (json "yes") acknowledged))
    × ((publish (json "yes") "u1" "u2" "a" [] "cGF5" (acknowledged ∷ []) [] watched).1
        ≡ err (because "timed out waiting for publish response" (message "u1")))
publish_lem_example =
    publish_lem (json "yes") "u1" "u2" "a" [] "cGF5" "u1" watched (acknowledged ∷ []) acknowledged
      [] published_sent
