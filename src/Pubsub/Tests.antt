-- ===== src/Pubsub/Tests.antt =====
-- Instances of the theorems on the connection, and tests.
use cloud_sdk_go.Base.{
  ◌≡◌, refl, String, true, false, none, some, List, [], ◌∷◌, lookup, message, Result, ok, err, pos,
}
use cloud_sdk_go.Rpc.Messages.{ConsumeMessage, ConsumeResult}
use cloud_sdk_go.Stats.Defs.{new_conn_stats}
use cloud_sdk_go.Gap.Tracker.{broker_response_timeout}
use cloud_sdk_go.Pubsub.Conn.{
  Config, Conn, Subscription, subscribe, unsubscribe_without_lock, unsubscribe_all, close_notify,
}
use cloud_sdk_go.Pubsub.Consume.{gap, Round, answered, timed_out, consumer}
use cloud_sdk_go.Pubsub.Cursor.{Acknowledges, consumer-Acknowledges}

abbrev config : Config
config = record {
  group_id = "g";
  domain = "us";
  has_api_key_provider = true;
  has_auth_token_provider = false;
  poll_interval = pos 1;
  status_log_interval = pos 1;
}

abbrev on_a : Subscription
on_a = record { id = "s1"; stream = "a" }

abbrev conn : Conn
conn = record {
  config = config;
  auth_key = "X-Api-Key";
  has_ws = true;
  closed = false;
  consume_timeout = false;
  subs = ("a", on_a) ∷ [];
  writer_queue = [];
  error = none;
  stats = new_conn_stats;
  gaps = none;
}

abbrev down : String → Result (Unit {0})
down id = err (message "down")

-- A subscription that cannot be deleted stays in the table.
kept : lookup "a" (close_notify down none conn).subs ≡ some on_a
unfolding close_notify unsubscribe_all unsubscribe_without_lock lookup
kept = refl

created_b : (subscribe 5 "b" "" (ok "s2") conn).1 ≡ ok "s2"
unfolding subscribe lookup
created_b = refl

abbrev new_id : String
new_id = "s2"

abbrev created : Result String
created = ok "s2"

abbrev on_b : Subscription
on_b = record { id = "s2"; stream = "b" }

refused_a :
    (subscribe 5 "a" "" (ok "s2") conn).1 ≡ err (message "subscription for stream already exists")
unfolding subscribe lookup
refused_a = refl

abbrev sent : ConsumeMessage
sent = record { msg_id = "m1"; payload = "p"; headers = [] }

abbrev first_result : ConsumeResult
first_result = record {
  consume_context = "c1";
  subscription_id = "s1";
  messages = ("a", sent ∷ []) ∷ ("z", sent ∷ sent ∷ []) ∷ [];
}

abbrev rounds : List Round
rounds = answered true (ok first_result) true ∷ timed_out ∷ []

ends_with_gap : (consumer "a" "" rounds).1 ≡ some (gap broker_response_timeout)
unfolding consumer
ends_with_gap = refl

consumer-Acknowledges_example : Acknowledges "" (consumer "a" "" rounds).0
consumer-Acknowledges_example = consumer-Acknowledges "a" "" rounds
