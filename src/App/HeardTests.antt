-- ===== src/App/HeardTests.antt =====
-- An instance of the theorem on what the gap handler hears.
use cloud_sdk_go.Base.{◌≡◌, refl, Bool, true, some, List, [], ◌∷◌, ◌++◌, map, pos, lookup, insert}
use cloud_sdk_go.Gap.Tracker.{
  broker_response_timeout, GapEvent, GapTracker, mark_ready, recovery_event, detect,
  connection_ready, broker_response,
}
use cloud_sdk_go.Gap.Trace
use cloud_sdk_go.Gap.Trace.{Op, readies, responds, step}
use cloud_sdk_go.Gap.Edges.{active_in}
use cloud_sdk_go.App.Notices.{
  public_event, Move, detects, takes, run, move, enqueue_read_stream_gap_event,
  dispatch_read_stream_gap_event, invoke_read_stream_gap_handler,
}
use cloud_sdk_go.App.Delivered.{offered, calls, losses}
use cloud_sdk_go.App.Heard.{of_region, heard, handler_hears-Alternates}

abbrev fresh : GapTracker
fresh = record { streams = []; reconnect_count = 0 }

abbrev ops : List Op
ops =
    Trace.detects 100 "us" "a" broker_response_timeout (pos 30)
    ∷ readies 130 "a"
    ∷ responds 150 "a"
    ∷ []

-- The tracker of another region is in a gap of the same stream, and does not recover.
abbrev other_ops : List Op
other_ops = Trace.detects 110 "eu" "a" broker_response_timeout (pos 40) ∷ []

-- The events of the other region come first, and each event is taken at once.
abbrev one_by_one : List GapEvent → List Move
one_by_one [] = []
one_by_one (e ∷ es) = detects e ∷ takes true ∷ one_by_one es

abbrev moves : List Move
moves = one_by_one (Trace.run other_ops fresh).1 ++ one_by_one (Trace.run ops fresh).1

handed_over : of_region "us" (offered moves) ≡ map public_event (Trace.run ops fresh).1
unfolding run move enqueue_read_stream_gap_event dispatch_read_stream_gap_event
    invoke_read_stream_gap_handler Trace.run step detect connection_ready broker_response lookup
    insert mark_ready recovery_event
handed_over = refl

none_dropped :
    of_region "us" (losses (run moves (record { events = []; dispatching = true })).1) ≡ []
unfolding run move enqueue_read_stream_gap_event dispatch_read_stream_gap_event
    invoke_read_stream_gap_handler Trace.run step detect connection_ready broker_response lookup
    insert mark_ready recovery_event
none_dropped = refl

handler_hears-Alternates_example :
    (b : Bool) × (heard "a"
        (some (active_in "a" fresh))
        (of_region "us" (calls (run moves (record { events = []; dispatching = true })).1))
      ≡ some b)
handler_hears-Alternates_example =
    handler_hears-Alternates "us" ops fresh moves "a" handed_over none_dropped
