-- ===== src/Stats/Counters.antt =====
-- The counters against the history of calls.
use cloud_sdk_go.Base.{
  ℕ, ◌+◌, ◌<◌, ◌≡◌, String, List, [], ◌∷◌, arith, lookup, lookup-insert, eq_iff, str_eq,
  if◌then◌else◌, add64,
}
use cloud_sdk_go.Stats.Defs.{
  StreamStats, ConnStats, zero_stats, or_zero, new_conn_stats, record_connected, record_reconnect,
  record_broker_response, record_dispatch, record_sdk_processing_start,
  record_sdk_processing_complete, begin_stream_lifecycle, end_stream_lifecycle,
}

-- A call of a method that changes the statistics, with what `time.Now()` returns in it.
pub data Op : Type 0 where
  connected : (now : ℕ) → Op
  reconnected : Op
  responded : (now : ℕ) → (stream consume_ctx : String) → (messages : ℕ) → Op
  dispatched : (stream : String) → Op
  processing : (now : ℕ) → (stream msg_id topic : String) → Op
  processed : (stream : String) → Op
  begins : (now : ℕ) → (stream : String) → Op
  ends : (stream : String) → Op

unfoldable pub apply : Op → ConnStats → ConnStats
apply (connected now) s = record_connected now s
apply reconnected s = record_reconnect s
apply (responded now stream ctx n) s = record_broker_response now stream ctx n s
apply (dispatched stream) s = record_dispatch stream s
apply (processing now stream id topic) s = record_sdk_processing_start now stream id topic s
apply (processed stream) s = record_sdk_processing_complete stream s
apply (begins now stream) s = begin_stream_lifecycle now stream s
apply (ends stream) s = end_stream_lifecycle stream s

unfoldable pub apply_all : List Op → ConnStats → ConnStats
apply_all [] s = s
apply_all (op ∷ ops) s = apply_all ops (apply op s)

-- The statistics of a stream, zero if it has none.
abbrev pub stream_in : String → ConnStats → StreamStats
stream_in stream s = or_zero (lookup stream s.streams)

-- What one call contributes to the counters of a stream.
pub record Totals : Type 0 where
  pub responses : ℕ
  pub messages : ℕ
  pub dispatches : ℕ
  pub starts : ℕ
  pub completions : ℕ

abbrev pub no_totals : Totals
no_totals = record { responses = 0; messages = 0; dispatches = 0; starts = 0; completions = 0 }

abbrev pub only : String → String → Totals → Totals
only stream j t = if str_eq j stream then t else no_totals

abbrev pub contribution : String → Op → Totals
contribution s (responded now j ctx n) = only s j (record no_totals { responses = 1; messages = n })
contribution s (dispatched j) = only s j (record no_totals { dispatches = 1 })
contribution s (processing now j id topic) = only s j (record no_totals { starts = 1 })
contribution s (processed j) = only s j (record no_totals { completions = 1 })
contribution s _ = no_totals

abbrev pub plus : Totals → Totals → Totals
plus a b = record {
  responses = a.responses + b.responses;
  messages = a.messages + b.messages;
  dispatches = a.dispatches + b.dispatches;
  starts = a.starts + b.starts;
  completions = a.completions + b.completions;
}

-- What a stream has seen in a history of calls.
unfoldable pub totals : String → List Op → Totals
totals s [] = no_totals
totals s (op ∷ ops) = plus (contribution s op) (totals s ops)

-- The counters `after` are those `before`, raised by `t` in `int64` arithmetic.
pub record Raised (before : StreamStats) (t : Totals) (after : StreamStats) : Type 0 where
  pub responses : after.broker_responses ≡ add64 before.broker_responses t.responses
  pub messages : after.broker_messages ≡ add64 before.broker_messages t.messages
  pub dispatches : after.dispatch_starts ≡ add64 before.dispatch_starts t.dispatches
  pub starts : after.sdk_processing_starts ≡ add64 before.sdk_processing_starts t.starts
  pub completions : after.sdk_processing_ends ≡ add64 before.sdk_processing_ends t.completions

-- All counters are `int64` patterns.
pub record InRange (st : StreamStats) : Type 0 where
  pub responses : st.broker_responses < 18446744073709551616
  pub messages : st.broker_messages < 18446744073709551616
  pub dispatches : st.dispatch_starts < 18446744073709551616
  pub starts : st.sdk_processing_starts < 18446744073709551616
  pub completions : st.sdk_processing_ends < 18446744073709551616

apply-Raised :
    (op : Op) (stream : String) (s : ConnStats)
    → InRange (stream_in stream s)
    → Raised (stream_in stream s) (contribution stream op) (stream_in stream (apply op s))
unfolding apply record_connected record_reconnect record_broker_response record_dispatch
    record_sdk_processing_start record_sdk_processing_complete begin_stream_lifecycle
    end_stream_lifecycle
apply-Raised (responded now j ctx n) stream s r = grind (arith, eq_iff j stream, lookup-insert)
apply-Raised (dispatched j) stream s r = grind (arith, eq_iff j stream, lookup-insert)
apply-Raised (processing now j id topic) stream s r = grind (arith, eq_iff j stream, lookup-insert)
apply-Raised (processed j) stream s r = grind (arith, eq_iff j stream, lookup-insert)
apply-Raised (begins now j) stream s r = grind (arith, eq_iff j stream, lookup-insert)
apply-Raised (ends j) stream s r = grind (arith, eq_iff j stream, lookup-insert)
apply-Raised (connected now) stream s r = grind arith
apply-Raised reconnected stream s r = grind arith

Raised-InRange : (a b : StreamStats) (t : Totals) → Raised a t b → InRange b
Raised-InRange a b t r = omega arith

run-Raised :
    (ops : List Op) (stream : String) (s : ConnStats)
    → InRange (stream_in stream s)
    → Raised (stream_in stream s) (totals stream ops) (stream_in stream (apply_all ops s))
unfolding apply_all totals
run-Raised [] stream s r = omega arith
run-Raised (op ∷ ops) stream s r =
    let one = apply-Raised op stream s r in
    let many = run-Raised ops stream (apply op s) (
      Raised-InRange (stream_in stream s) (stream_in stream (apply op s)) (contribution stream op)
        one) in
    omega arith

-- After any calls on new statistics, each counter of a stream is the number of events of its kind
-- that were recorded for that stream, in `int64` arithmetic: no call for another stream, no
-- reconnect and no beginning or end of a lifecycle resets or changes it.
pub counters_count :
    (ops : List Op) (stream : String)
    → Raised zero_stats (totals stream ops) (stream_in stream (apply_all ops new_conn_stats))
unfolding new_conn_stats lookup
counters_count ops stream = run-Raised ops stream new_conn_stats (omega arith)

-- From any statistics with counters in range, calls raise each counter of a stream by the number
-- of events of its kind that they record for it.
pub counters_rise :
    (ops : List Op) (stream : String) (s : ConnStats)
    → InRange (stream_in stream s)
    → Raised (stream_in stream s) (totals stream ops) (stream_in stream (apply_all ops s))
counters_rise = run-Raised
