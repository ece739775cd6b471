-- ===== src/Stats/Activity.antt =====
-- The flags of a stream against the history of calls.
use cloud_sdk_go.Base.{
  ◌≡◌, refl, String, Bool, true, false, List, [], ◌∷◌, arith, lookup, lookup-insert, eq_iff, str_eq,
  if◌then◌else◌,
}
use cloud_sdk_go.Stats.Defs.{
  StreamStats, ConnStats, new_conn_stats, record_connected, record_reconnect,
  record_broker_response, record_dispatch, record_sdk_processing_start,
  record_sdk_processing_complete, begin_stream_lifecycle, end_stream_lifecycle,
}
use cloud_sdk_go.Stats.Counters.{
  Op, connected, reconnected, responded, dispatched, processing, processed, begins, ends, apply,
  apply_all, stream_in,
}

-- What the diagnostics should say of a stream: whether it is subscribed, and the message whose
-- callback runs, with the time at which it began.
pub record Status : Type 0 where
  pub subscribed : Bool
  pub busy : Bool

abbrev pub idle : Status
idle = record { subscribed = false; busy = false }

abbrev when_is : String → String → Status → Status → Status
when_is j stream changed p = if str_eq j stream then changed else p

-- The status that a history of calls describes.
abbrev pub advance : String → Op → Status → Status
advance s (processing now j id topic) p = when_is j s (record p { busy = true }) p
advance s (processed j) p = when_is j s (record p { busy = false }) p
advance s (begins now j) p = when_is j s (record { subscribed = true; busy = false }) p
advance s (ends j) p = when_is j s idle p
advance s _ p = p

unfoldable pub history : String → List Op → Status → Status
history s [] p = p
history s (op ∷ ops) p = history s ops (advance s op p)

abbrev pub status_of : StreamStats → Status
status_of st = record { subscribed = st.active; busy = st.sdk_processing_active }

apply-status :
    (op : Op) (stream : String) (s : ConnStats)
    → status_of (stream_in stream (apply op s)) ≡ advance stream op (status_of (stream_in stream s))
unfolding apply record_connected record_reconnect record_broker_response record_dispatch
    record_sdk_processing_start record_sdk_processing_complete begin_stream_lifecycle
    end_stream_lifecycle
apply-status (responded now j ctx n) stream s = grind (arith, eq_iff j stream, lookup-insert)
apply-status (dispatched j) stream s = grind (arith, eq_iff j stream, lookup-insert)
apply-status (processing now j id topic) stream s = grind (arith, eq_iff j stream, lookup-insert)
apply-status (processed j) stream s = grind (arith, eq_iff j stream, lookup-insert)
apply-status (begins now j) stream s = grind (arith, eq_iff j stream, lookup-insert)
apply-status (ends j) stream s = grind (arith, eq_iff j stream, lookup-insert)
apply-status (connected now) stream s = refl
apply-status reconnected stream s = refl

run-status :
    (ops : List Op) (stream : String) (s : ConnStats)
    → status_of (stream_in stream (apply_all ops s))
      ≡ history stream ops (status_of (stream_in stream s))
unfolding apply_all history
run-status [] stream s = refl
run-status (op ∷ ops) stream s =
    rw (← apply-status op stream s) (run-status ops stream (apply op s))

-- After any calls on new statistics, a stream is marked active exactly when a lifecycle of it has
-- begun and not ended since, and its SDK processing is marked as running exactly when a start of
-- it is not followed by its completion or by the beginning or end of a lifecycle.
pub flags_follow_history :
    (ops : List Op) (stream : String)
    → status_of (stream_in stream (apply_all ops new_conn_stats)) ≡ history stream ops idle
unfolding new_conn_stats lookup
flags_follow_history ops stream = run-status ops stream new_conn_stats
