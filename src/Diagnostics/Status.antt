-- ===== src/Diagnostics/Status.antt =====
-- The status log of a connection (internal/pubsub/read_stream_diagnostics.go).
use cloud_sdk_go.Base.{
  ℕ, String, Bool, not, Option, List, [], ◌∷◌, ◌++◌, Dict, lookup, insert, ℤ, pos, leb_ℤ,
  if◌then◌else◌,
}
use cloud_sdk_go.Stats.Defs.{StreamStatsSnapshot, ConnStatsSnapshot, or_zero}
use cloud_sdk_go.Diagnostics.Defs.{
  Decoders, decode_consume_offset, StreamState, StreamStatsDelta, diagnostic_delta, elapsed_since,
  classify_stream, diagnostic_state_changed,
}

-- A line of the log: a stream's summary or its change of state.
pub data Line : Type 0 where
  summary :
      (stream subscription_id : String)
      → StreamState
      → StreamStatsDelta
      → (current : StreamStatsSnapshot) → (processing_for : ℤ) → (cursor : Option (ℕ × ℕ)) → Line
  changed :
      (stream subscription_id : String)
      → (previous : Option StreamState) → (state : StreamState) → StreamStatsDelta
      → (cursor : Option (ℕ × ℕ)) → Line
  status : (disconnected : Bool) → (connected_for : ℤ) → (reconnects : ℕ) → Line

-- What one run of the log reads: the clock, the connection's state, the statistics, and the
-- stream and the id of each subscription.
pub record Reading : Type 0 where
  pub now : ℕ
  pub disconnected : Bool
  pub reconnecting : Bool
  pub snapshot : ConnStatsSnapshot
  pub subscriptions : List (String × String)

module _ (d : Decoders) (threshold : ℤ) where
  -- One round of the loop: the lines and the states that are known after it.
  unfoldable pub log_stream :
      Reading
      → Dict StreamStatsSnapshot
      → String × String
      → Dict StreamState
      → List Line × Dict StreamState
  unfolding diagnostic_delta elapsed_since classify_stream decode_consume_offset
      diagnostic_state_changed
  log_stream r previous (stream, id) states =
      let current = or_zero (lookup stream r.snapshot.streams) in
      if not current.active
      then ([], states)
      else let delta = diagnostic_delta current (or_zero (lookup stream previous)) in
        let state = classify_stream r.now r.disconnected r.reconnecting current delta threshold in
        let cursor = decode_consume_offset d current.last_consume_ctx stream in
        let prior = lookup stream states in
        let busy_for =
          if current.sdk_processing_active
          then elapsed_since r.now current.last_sdk_processing_at
          else pos 0 in
        (
          summary stream id state delta current busy_for cursor
              ∷ (if diagnostic_state_changed prior state
                  then changed stream id prior state delta cursor ∷ []
                  else []),
          insert stream state states,
        )

  unfoldable pub log_streams :
      Reading
      → Dict StreamStatsSnapshot
      → List (String × String)
      → Dict StreamState
      → List Line × Dict StreamState
  log_streams r previous [] states = (
    status r.disconnected (elapsed_since r.now r.snapshot.connected_since)
          r.snapshot.reconnect_count
        ∷ [],
    states,
  )
  log_streams r previous (sub ∷ subs) states =
      let (lines, states') = log_stream r previous sub states in
      let (more, states'') = log_streams r previous subs states' in (lines ++ more, states'')

  -- `previousStates` is changed in place, so it is a result beside the new `previous`.
  unfoldable pub log_read_stream_status :
      Reading
      → Dict StreamStatsSnapshot
      → Dict StreamState
      → List Line × Dict StreamStatsSnapshot × Dict StreamState
  unfolding log_streams
  log_read_stream_status r previous states =
      let (lines, states') = log_streams r previous r.subscriptions states in
      (lines, r.snapshot.streams, states')

  -- `statusLogger`: a run at each tick, and the last one when the context is done.
  unfoldable pub status_logger :
      List Reading → Dict StreamStatsSnapshot → Dict StreamState → List Line
  unfolding log_read_stream_status
  status_logger [] previous states = []
  status_logger (r ∷ rs) previous states =
      let (lines, previous', states') = log_read_stream_status r previous states in
      lines ++ status_logger rs previous' states'

-- The interval of the ticks, with its default of a minute.
unfoldable pub status_interval : ℤ → ℤ
status_interval interval = if leb_ℤ interval (pos 0) then pos 60000000000 else interval
