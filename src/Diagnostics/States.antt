-- ===== src/Diagnostics/States.antt =====
-- What each diagnostic state means.
use cloud_sdk_go.Base.{
  ℕ, ◌+◌, ◌≤◌, ◌<◌, ◌≡◌, ◌≢◌, ◌↔◌, ◌⊎◌, subst, Bool, true, false, arith, ℤ, pos, negsuc, String,
  List,
}
use cloud_sdk_go.Stats.Defs.{StreamStatsSnapshot, ConnStats}
use cloud_sdk_go.Stats.Counters.{Op, apply_all, stream_in, totals}
use cloud_sdk_go.Diagnostics.Deltas.{NoOverflow, moves_in, diagnostic_delta-Reports}
use cloud_sdk_go.Diagnostics.Defs.{
  StreamState, awaiting_activity, healthy_delivery, broker_quiet, sdk_processing_blocked,
  disconnected, reconnecting, StreamStatsDelta, diagnostic_delta, elapsed_since, classify_stream,
}

-- At `now` a positive limit is over since an instant that was set.
abbrev pub IsOver : ℤ → ℕ → ℕ → Type 0
IsOver (pos limit) now since = (0 < limit) × (since ≢ 0) × (since + limit ≤ now)
IsOver (negsuc n) now since = false ≡ true

-- The state by what happened: the responses, the messages and the moves of the cursor.
module _ (now : ℕ) (is_disconnected is_reconnecting : Bool) (current : StreamStatsSnapshot)
    (responses messages moves : ℕ) (threshold : ℤ) where
  -- A callback has been running for a positive threshold.
  abbrev pub Blocked : Type 0
  Blocked =
      (current.sdk_processing_active ≡ true) × IsOver threshold now current.last_sdk_processing_at

  -- Messages came, or the cursor moved.
  abbrev pub Delivered : Type 0
  Delivered = (0 < messages) ⊎ (0 < moves)

  -- The reason for a state: each state also excludes the reasons of those before it.
  abbrev pub Explains : StreamState → Type 0
  Explains sdk_processing_blocked = Blocked
  Explains reconnecting = (¬ Blocked) × (is_reconnecting ≡ true)
  Explains disconnected = (¬ Blocked) × (is_reconnecting ≡ false) × (is_disconnected ≡ true)
  Explains healthy_delivery =
      (¬ Blocked) × (is_reconnecting ≡ false) × (is_disconnected ≡ false) × Delivered
  Explains broker_quiet =
      (¬ Blocked)
      × (is_reconnecting ≡ false)
      × (is_disconnected ≡ false)
      × (¬ Delivered)
      × (0 < responses)
  Explains awaiting_activity =
      (¬ Blocked)
      × (is_reconnecting ≡ false)
      × (is_disconnected ≡ false)
      × (¬ Delivered)
      × (responses ≡ 0)

-- The deltas are positive as `int64` values, or 0, and those of what happened.
record IsSmall (d : StreamStatsDelta) (r m c : ℕ) : Type 0 where
  responses : d.broker_responses ≡ r
  messages : d.broker_messages ≡ m
  cursors : d.cursor_changes ≡ c
  few_responses : r < 9223372036854775808
  few_messages : m < 9223372036854775808
  few_moves : c < 9223372036854775808

classify_stream-Explains :
    (now : ℕ) (is_disconnected is_reconnecting : Bool) (current : StreamStatsSnapshot)
    (delta : StreamStatsDelta) (r m c : ℕ) (threshold : ℤ)
    → IsSmall delta r m c
    → Explains now is_disconnected is_reconnecting current r m c threshold
        (classify_stream now is_disconnected is_reconnecting current delta threshold)
unfolding classify_stream elapsed_since
classify_stream-Explains now dc rc current delta r m c (pos limit) small = ground arith
classify_stream-Explains now dc rc current delta r m c (negsuc n) small = ground arith

Explains-classify_stream :
    (now : ℕ) (is_disconnected is_reconnecting : Bool) (current : StreamStatsSnapshot)
    (delta : StreamStatsDelta) (r m c : ℕ) (threshold : ℤ) (state : StreamState)
    → IsSmall delta r m c
    → Explains now is_disconnected is_reconnecting current r m c threshold state
    → classify_stream now is_disconnected is_reconnecting current delta threshold ≡ state
unfolding classify_stream elapsed_since
Explains-classify_stream now dc rc current delta r m c (negsuc n) sdk_processing_blocked small e =
    ground arith
Explains-classify_stream now dc rc current delta r m c (negsuc n) _ small e = ground arith
Explains-classify_stream now dc rc current delta r m c (pos limit) sdk_processing_blocked small e =
    ground arith
Explains-classify_stream now dc rc current delta r m c (pos limit) _ small e = ground arith

-- At a status log, a stream is classified with a state exactly when the state's reason holds of
-- what was recorded for it since the log before, as long as no counter passes the largest `int64`:
-- a callback that has been running for a positive threshold comes before reconnecting, that before
-- disconnected, that before delivery (a message came or the cursor moved), and that before a quiet
-- broker, which responded all the same.
pub classify_stream_iff :
    (now : ℕ) (is_disconnected is_reconnecting : Bool) (ops : List Op) (stream : String)
    (s : ConnStats) (threshold : ℤ) (state : StreamState)
    → NoOverflow (stream_in stream s) (totals stream ops) (moves_in stream ops s)
    → let previous = stream_in stream s in
      let current = stream_in stream (apply_all ops s) in
      let delta = diagnostic_delta current previous in
      let t = totals stream ops in
      (classify_stream now is_disconnected is_reconnecting current delta threshold ≡ state)
      ↔ Explains now is_disconnected is_reconnecting current t.responses t.messages
          (moves_in stream ops s)
          threshold
          state
classify_stream_iff now dc rc ops stream s threshold state n =
    let current = stream_in stream (apply_all ops s) in
    let delta = diagnostic_delta current (stream_in stream s) in
    let t = totals stream ops in
    let moves = moves_in stream ops s in
    let d = diagnostic_delta-Reports ops stream s n in
    let small : IsSmall delta t.responses t.messages moves = record {
      responses = d.responses;
      messages = d.messages;
      cursors = d.cursors;
      few_responses = omega (arith, n.responses);
      few_messages = omega (arith, n.messages);
      few_moves = omega (arith, n.cursors);
    } in
    (
      λ e. subst (Explains now dc rc current t.responses t.messages moves threshold) e (
          classify_stream-Explains now dc rc current delta t.responses t.messages moves threshold
            small),
      Explains-classify_stream now dc rc current delta t.responses t.messages moves threshold state
          small,
    )
