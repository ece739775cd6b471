-- ===== src/Diagnostics/Deltas.antt =====
-- The deltas of a status log against what happened since the log before.
use cloud_sdk_go.Base.{ℕ, ◌+◌, ◌<◌, ◌≡◌, String, List, arith, add64}
use cloud_sdk_go.Stats.Defs.{StreamStats, ConnStats}
use cloud_sdk_go.Stats.Counters.{Op, apply_all, stream_in, Totals, totals, Raised, counters_rise}
use cloud_sdk_go.Stats.Cursors.{cursor_moves, cursor_rises}
use cloud_sdk_go.Diagnostics.Defs.{StreamStatsDelta, diagnostic_delta}

-- The moves of a stream's cursor in a history of calls that begins with these statistics.
abbrev pub moves_in : String → List Op → ConnStats → ℕ
moves_in stream ops s = cursor_moves stream (stream_in stream s).last_consume_ctx ops

-- The counters stay positive as `int64` values.
pub record NoOverflow (before : StreamStats) (t : Totals) (moves : ℕ) : Type 0 where
  pub responses : before.broker_responses + t.responses < 9223372036854775808
  pub messages : before.broker_messages + t.messages < 9223372036854775808
  pub dispatches : before.dispatch_starts + t.dispatches < 9223372036854775808
  pub starts : before.sdk_processing_starts + t.starts < 9223372036854775808
  pub completions : before.sdk_processing_ends + t.completions < 9223372036854775808
  pub cursors : before.cursor_changes + moves < 9223372036854775808

-- The deltas are the events themselves.
pub record Reports (d : StreamStatsDelta) (t : Totals) (moves : ℕ) : Type 0 where
  pub responses : d.broker_responses ≡ t.responses
  pub messages : d.broker_messages ≡ t.messages
  pub dispatches : d.dispatch_starts ≡ t.dispatches
  pub starts : d.sdk_processing_starts ≡ t.starts
  pub completions : d.sdk_processing_ends ≡ t.completions
  pub cursors : d.cursor_changes ≡ moves

delta-Reports :
    (before after : StreamStats) (t : Totals) (moves : ℕ)
    → NoOverflow before t moves
    → Raised before t after
    → after.cursor_changes ≡ add64 before.cursor_changes moves
    → Reports (diagnostic_delta after before) t moves
unfolding diagnostic_delta
delta-Reports before after t moves n r c = ground arith

-- Between two status logs, each delta of a stream is the number of events of its kind that were
-- recorded for that stream in between: the broker's responses and messages, the dispatches, the
-- beginnings and the ends of processing, and the responses whose cursor is not empty and differs
-- from the one before. Reconnects and lifecycles may fall between, as long as no counter passes the
-- largest `int64`.
pub diagnostic_delta-Reports :
    (ops : List Op) (stream : String) (s : ConnStats)
    → NoOverflow (stream_in stream s) (totals stream ops) (moves_in stream ops s)
    → Reports
        (diagnostic_delta (stream_in stream (apply_all ops s)) (stream_in stream s))
        (totals stream ops)
        (moves_in stream ops s)
diagnostic_delta-Reports ops stream s n =
    delta-Reports (stream_in stream s) (stream_in stream (apply_all ops s)) (totals stream ops)
      (moves_in stream ops s) n (counters_rise ops stream s (omega arith))
      (cursor_rises ops stream s (omega arith))
