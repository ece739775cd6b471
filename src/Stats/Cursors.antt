-- ===== src/Stats/Cursors.antt =====
-- The moves of a stream's cursor against the history of calls.
use cloud_sdk_go.Base.{
  ℕ, ◌+◌, ◌<◌, ◌≡◌, String, List, [], ◌∷◌, arith, lookup-insert, eq_iff, str_eq, is_empty,
  if◌then◌else◌, add64,
}
use cloud_sdk_go.Stats.Defs.{
  ConnStats, record_connected, record_reconnect, record_broker_response, record_dispatch,
  record_sdk_processing_start, record_sdk_processing_complete, begin_stream_lifecycle,
  end_stream_lifecycle,
}
use cloud_sdk_go.Stats.Counters.{
  Op, connected, reconnected, responded, dispatched, processing, processed, begins, ends, apply,
  apply_all, stream_in,
}

-- The cursor of a stream after a call: that of its latest response since its lifecycle began.
abbrev pub cursor_after : String → String → Op → String
cursor_after s last (responded now j ctx n) = if str_eq j s then ctx else last
cursor_after s last (begins now j) = if str_eq j s then "" else last
cursor_after s last _ = last

-- A response of the stream whose cursor is not empty and not the one before.
abbrev pub moved : String → String → Op → ℕ
moved s last (responded now j ctx n) =
    if str_eq j s then (if is_empty ctx then 0 else if str_eq ctx last then 0 else 1) else 0
moved s last _ = 0

-- How often the cursor of a stream moves in a history that begins with the cursor `last`.
unfoldable pub cursor_moves : String → String → List Op → ℕ
cursor_moves s last [] = 0
cursor_moves s last (op ∷ ops) = moved s last op + cursor_moves s (cursor_after s last op) ops

step_cursor :
    (op : Op) (stream : String) (s : ConnStats)
    → (stream_in stream s).cursor_changes < 18446744073709551616
    → let st = stream_in stream s in
      let st' = stream_in stream (apply op s) in
      (st'.cursor_changes ≡ add64 st.cursor_changes (moved stream st.last_consume_ctx op))
      × (st'.last_consume_ctx ≡ cursor_after stream st.last_consume_ctx op)
unfolding apply record_connected record_reconnect record_broker_response record_dispatch
    record_sdk_processing_start record_sdk_processing_complete begin_stream_lifecycle
    end_stream_lifecycle
step_cursor (responded now j ctx n) stream s r = grind (arith, eq_iff j stream, lookup-insert)
step_cursor (dispatched j) stream s r = grind (arith, eq_iff j stream, lookup-insert)
step_cursor (processing now j id topic) stream s r = grind (arith, eq_iff j stream, lookup-insert)
step_cursor (processed j) stream s r = grind (arith, eq_iff j stream, lookup-insert)
step_cursor (begins now j) stream s r = grind (arith, eq_iff j stream, lookup-insert)
step_cursor (ends j) stream s r = grind (arith, eq_iff j stream, lookup-insert)
step_cursor (connected now) stream s r = grind arith
step_cursor reconnected stream s r = grind arith

-- In any history the counter rises by the moves, in `int64` arithmetic.
pub cursor_rises :
    (ops : List Op) (stream : String) (s : ConnStats)
    → (stream_in stream s).cursor_changes < 18446744073709551616
    → (stream_in stream (apply_all ops s)).cursor_changes
      ≡ add64
          (stream_in stream s).cursor_changes
          (cursor_moves stream (stream_in stream s).last_consume_ctx ops)
unfolding apply_all cursor_moves
cursor_rises [] stream s r = omega arith
cursor_rises (op ∷ ops) stream s r =
    let one = step_cursor op stream s r in
    let many = cursor_rises ops stream (apply op s) (omega (arith, one.0)) in
    let more = rw one.1 at many in omega (arith, one.0, more)
