-- ===== src/Stats/Defs.antt =====
-- `connStats` and its methods (internal/pubsub/connstats.go).
--
-- An instant is a number of nanoseconds since Go's zero time, and `now` is what `time.Now()`
-- returns in the method. Counters are `int64` and wrap. The lock makes each method atomic.
use cloud_sdk_go.Base.{
  ℕ, String, Bool, true, false, ◌||◌, ◌&&◌, not, Option, none, some, [], ◌∷◌, Dict, lookup, insert,
  ℤ, pos, sub_ℕ, add64, inc64, ltb, ◌==◌, str_eq, is_empty, if◌then◌else◌,
}

pub record StreamStats : Type 0 where
  pub active : Bool
  pub subscribed_at : ℕ
  pub last_broker_response_at : ℕ
  pub last_message_at : ℕ
  pub last_cursor_change_at : ℕ
  pub last_sdk_processing_at : ℕ
  pub broker_responses : ℕ
  pub broker_messages : ℕ
  pub dispatch_starts : ℕ
  pub sdk_processing_starts : ℕ
  pub sdk_processing_ends : ℕ
  pub cursor_changes : ℕ
  pub last_consume_ctx : String
  pub sdk_processing_active : Bool
  pub sdk_processing_msg_id : String
  pub sdk_processing_topic : String

-- `streamStatsSnapshot` is a copy of `streamStats`.
abbrev pub StreamStatsSnapshot : Type 0
StreamStatsSnapshot = StreamStats

pub record ConnStatsSnapshot : Type 0 where
  pub connected_since : ℕ
  pub reconnect_count : ℕ
  pub streams : Dict StreamStatsSnapshot

pub record ConnStats : Type 0 where
  pub connected_since : ℕ
  pub reconnect_count : ℕ
  pub streams : Dict StreamStats

-- The zero value of the struct.
abbrev pub zero_stats : StreamStats
zero_stats = record {
  active = false;
  subscribed_at = 0;
  last_broker_response_at = 0;
  last_message_at = 0;
  last_cursor_change_at = 0;
  last_sdk_processing_at = 0;
  broker_responses = 0;
  broker_messages = 0;
  dispatch_starts = 0;
  sdk_processing_starts = 0;
  sdk_processing_ends = 0;
  cursor_changes = 0;
  last_consume_ctx = "";
  sdk_processing_active = false;
  sdk_processing_msg_id = "";
  sdk_processing_topic = "";
}

unfoldable pub new_conn_stats : ConnStats
new_conn_stats = record { connected_since = 0; reconnect_count = 0; streams = [] }

-- The value that a stream has or gets.
abbrev pub or_zero : Option StreamStats → StreamStats
or_zero none = zero_stats
or_zero (some st) = st

-- `getOrCreateStreamLocked`, followed by the update that its caller makes of the stream.
unfoldable pub update_stream : String → (StreamStats → StreamStats) → ConnStats → ConnStats
update_stream stream f s = record s {
  streams = insert stream (f (or_zero (lookup stream s.streams))) s.streams;
}

unfoldable pub record_connected : ℕ → ConnStats → ConnStats
record_connected now s = record s { connected_since = now }

unfoldable pub record_reconnect : ConnStats → ConnStats
record_reconnect s = record s { reconnect_count = inc64 s.reconnect_count }

-- The two conditional updates of a broker response.
abbrev pub note_messages : ℕ → ℕ → StreamStats → StreamStats
note_messages now message_count st =
    if ltb 0 message_count
    then record st {
      broker_messages = add64 st.broker_messages message_count;
      last_message_at = now;
    }
    else st

abbrev pub note_cursor : ℕ → String → StreamStats → StreamStats
note_cursor now consume_ctx st =
    if not (is_empty consume_ctx) && not (str_eq consume_ctx st.last_consume_ctx)
    then record st { cursor_changes = inc64 st.cursor_changes; last_cursor_change_at = now }
    else st

abbrev pub on_broker_response : ℕ → String → ℕ → StreamStats → StreamStats
on_broker_response now consume_ctx message_count st =
    let counted : StreamStats = record st {
      broker_responses = inc64 st.broker_responses;
      last_broker_response_at = now;
    } in
    let noted = note_cursor now consume_ctx (note_messages now message_count counted) in
    record noted { last_consume_ctx = consume_ctx }

unfoldable pub record_broker_response : ℕ → String → String → ℕ → ConnStats → ConnStats
unfolding update_stream
record_broker_response now stream consume_ctx message_count s =
    update_stream stream (on_broker_response now consume_ctx message_count) s

unfoldable pub record_dispatch : String → ConnStats → ConnStats
unfolding update_stream
record_dispatch stream s =
    update_stream stream (λ st. record st { dispatch_starts = inc64 st.dispatch_starts }) s

unfoldable pub record_sdk_processing_start : ℕ → String → String → String → ConnStats → ConnStats
unfolding update_stream
record_sdk_processing_start now stream msg_id topic s =
    update_stream stream
      (λ st. record st {
        sdk_processing_starts = inc64 st.sdk_processing_starts;
        sdk_processing_active = true;
        last_sdk_processing_at = now;
        sdk_processing_msg_id = msg_id;
        sdk_processing_topic = topic;
      })
      s

unfoldable pub record_sdk_processing_complete : String → ConnStats → ConnStats
unfolding update_stream
record_sdk_processing_complete stream s =
    update_stream stream
      (λ st. record st {
        sdk_processing_ends = inc64 st.sdk_processing_ends;
        sdk_processing_active = false;
      })
      s

unfoldable pub begin_stream_lifecycle : ℕ → String → ConnStats → ConnStats
unfolding update_stream
begin_stream_lifecycle now stream s =
    update_stream stream
      (λ st. record st {
        active = true;
        subscribed_at = now;
        last_broker_response_at = now;
        last_message_at = now;
        last_cursor_change_at = now;
        last_sdk_processing_at = now;
        last_consume_ctx = "";
        sdk_processing_active = false;
        sdk_processing_msg_id = "";
        sdk_processing_topic = "";
      })
      s

unfoldable pub end_stream_lifecycle : String → ConnStats → ConnStats
end_stream_lifecycle stream s = elim (lookup stream s.streams) [
  | none ↦ s
  | some st ↦ record s {
    streams = insert stream (record st { active = false; sdk_processing_active = false }) s.streams;
  }
]

unfoldable pub reconnect_snapshot : ConnStats → ℕ
reconnect_snapshot s = s.reconnect_count

unfoldable pub since_last_message : ℕ → String → ConnStats → ℤ
since_last_message now stream s = elim (lookup stream s.streams) [
  | none ↦ pos 0
  | some st ↦ if not st.active then pos 0 else sub_ℕ now st.last_message_at
]

unfoldable pub since_last_broker_response : ℕ → String → ConnStats → ℤ
since_last_broker_response now stream s = elim (lookup stream s.streams) [
  | none ↦ pos 0
  | some st ↦
      if not st.active || (st.last_broker_response_at == 0)
      then pos 0
      else sub_ℕ now st.last_broker_response_at
]

unfoldable pub copy_streams : Dict StreamStats → Dict StreamStatsSnapshot
copy_streams [] = []
copy_streams ((stream, st) ∷ rest) = (stream, st) ∷ copy_streams rest

unfoldable pub snapshot : ConnStats → ConnStatsSnapshot
unfolding copy_streams
snapshot s = record {
  connected_since = s.connected_since;
  reconnect_count = s.reconnect_count;
  streams = copy_streams s.streams;
}
