-- ===== src/Diagnostics/Tests.antt =====
-- Instances of the theorems on the diagnostics.
use cloud_sdk_go.Base.{◌≡◌, refl, ◌↔◌, false, List, [], ◌∷◌, arith, pos, lookup}
use cloud_sdk_go.Stats.Defs.{zero_stats, new_conn_stats}
use cloud_sdk_go.Stats.Counters.{
  Op, responded, dispatched, reconnected, apply_all, stream_in, totals,
}
use cloud_sdk_go.Stats.Cursors.{cursor_moves}
use cloud_sdk_go.Diagnostics.Defs.{
  StreamStatsDelta, broker_quiet, healthy_delivery, diagnostic_delta, classify_stream,
}
use cloud_sdk_go.Diagnostics.States.{Explains, classify_stream_iff}
use cloud_sdk_go.Diagnostics.Deltas.{NoOverflow, Reports, moves_in, diagnostic_delta-Reports}

abbrev quiet : StreamStatsDelta
quiet = record {
  broker_responses = 3;
  broker_messages = 0;
  dispatch_starts = 0;
  sdk_processing_starts = 0;
  sdk_processing_ends = 0;
  cursor_changes = 0;
}

quiet_state : classify_stream 100 false false zero_stats quiet (pos 10) ≡ broker_quiet
unfolding classify_stream
quiet_state = refl

-- The cursor moves twice.
abbrev calls : List Op
calls =
    responded 20 "a" "c1" 2
    ∷ reconnected
    ∷ dispatched "a"
    ∷ responded 30 "a" "c1" 0
    ∷ responded 40 "a" "c2" 0
    ∷ []

calls_move : moves_in "a" calls new_conn_stats ≡ 2
unfolding new_conn_stats lookup cursor_moves
calls_move = refl

calls_fit :
    NoOverflow (stream_in "a" new_conn_stats) (totals "a" calls) (moves_in "a" calls new_conn_stats)
unfolding new_conn_stats totals lookup cursor_moves
calls_fit = record {
  responses = omega arith;
  messages = omega arith;
  dispatches = omega arith;
  starts = omega arith;
  completions = omega arith;
  cursors = omega arith;
}

classify_stream_iff_example :
    let current = stream_in "a" (apply_all calls new_conn_stats) in
    let delta = diagnostic_delta current (stream_in "a" new_conn_stats) in
    let t = totals "a" calls in
    (classify_stream 100 false false current delta (pos 10) ≡ healthy_delivery)
    ↔ Explains 100 false false current t.responses t.messages
        (moves_in "a" calls new_conn_stats)
        (pos 10)
        healthy_delivery
classify_stream_iff_example =
    classify_stream_iff 100 false false calls "a" new_conn_stats (pos 10) healthy_delivery calls_fit

diagnostic_delta-Reports_example :
    Reports
      (diagnostic_delta
        (stream_in "a" (apply_all calls new_conn_stats))
        (stream_in "a" new_conn_stats))
      (totals "a" calls)
      (moves_in "a" calls new_conn_stats)
diagnostic_delta-Reports_example = diagnostic_delta-Reports calls "a" new_conn_stats calls_fit
