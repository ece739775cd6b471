-- ===== src/App/Notices.antt =====
-- The channel between the gap trackers and the application's handler (app.go:
-- configureReadStreamGapNotifications, enqueueReadStreamGapEvent, dispatchReadStreamGapEvents,
-- invokeReadStreamGapHandler, readStreamGapTracker).
--
-- The trackers run in the goroutines of the connections and the handler in the dispatcher's: a run
-- is any order of their moves. What the handler does is the application's, and it may panic.
use cloud_sdk_go.Base.{
  ℕ, String, Bool, true, false, Option, none, some, List, [], ◌∷◌, ◌++◌, ℤ, length, ltb, get_elem?,
  if◌then◌else◌,
}
use cloud_sdk_go.Gap.Tracker.{GapState, GapReason, GapEvent, GapTracker, new_gap_tracker}
use cloud_sdk_go.App.Config.{Config}

pub record ReadStreamGapEvent : Type 0 where
  pub state : GapState
  pub reason : GapReason
  pub region : String
  pub stream : String
  pub duration : ℤ
  pub reconnect_count : ℕ
  pub occurred_at : ℕ

-- The conversion at the head of `enqueueReadStreamGapEvent`.
unfoldable pub public_event : GapEvent → ReadStreamGapEvent
public_event e = record {
  state = e.state;
  reason = e.reason;
  region = e.region;
  stream = e.stream;
  duration = e.duration;
  reconnect_count = e.reconnect_count;
  occurred_at = e.occurred_at;
}

abbrev pub read_stream_gap_event_buffer : ℕ
read_stream_gap_event_buffer = 16

-- The channel, and whether the dispatcher runs.
pub record Notices : Type 0 where
  pub events : List ReadStreamGapEvent
  pub dispatching : Bool

-- What becomes of an event: the handler is called and returns, or panics, which is recovered and
-- logged; or it is dropped with a log line.
pub data Act : Type 0 where
  handled panicked dropped : ReadStreamGapEvent → Act

pub data Move : Type 0 where
  detects : GapEvent → Move
  takes : (handler_panics : Bool) → Move
  ends : Move

-- One tracker for each region, if there is a handler.
abbrev pub one_for_each : Bool → List String → List (Option GapTracker)
one_for_each has_handler [] = []
one_for_each has_handler (fqdn ∷ fqdns) =
    new_gap_tracker has_handler ∷ one_for_each has_handler fqdns

-- Without a handler there is no channel and no tracker.
unfoldable pub configure_read_stream_gap_notifications :
    Config → Option Notices × List (Option GapTracker)
configure_read_stream_gap_notifications config =
    if config.handlers.read_stream_gap
    then (
      some (record { events = []; dispatching = true }),
      one_for_each true config.regional_fqdns,
    )
    else (none, [])

unfoldable pub read_stream_gap_tracker : ℕ → List (Option GapTracker) → Option GapTracker
read_stream_gap_tracker index trackers = elim (get_elem? trackers index) [
  | none ↦ none
  | some tracker ↦ tracker
]

unfoldable pub enqueue_read_stream_gap_event : GapEvent → Notices → Notices × List Act
unfolding public_event
enqueue_read_stream_gap_event event n =
    if ltb (length n.events) read_stream_gap_event_buffer
    then (record n { events = n.events ++ (public_event event ∷ []) }, [])
    else (n, dropped (public_event event) ∷ [])

unfoldable pub invoke_read_stream_gap_handler : Bool → ReadStreamGapEvent → Act
invoke_read_stream_gap_handler handler_panics event =
    if handler_panics then panicked event else handled event

-- One round of the dispatcher that takes an event, if it runs and there is one.
unfoldable pub dispatch_read_stream_gap_event :
    Bool → List ReadStreamGapEvent → Notices → Notices × List Act
unfolding invoke_read_stream_gap_handler
dispatch_read_stream_gap_event handler_panics [] n = (n, [])
dispatch_read_stream_gap_event handler_panics (event ∷ events) n =
    if n.dispatching
    then (record n { events = events }, invoke_read_stream_gap_handler handler_panics event ∷ [])
    else (n, [])

unfoldable pub move : Move → Notices → Notices × List Act
unfolding enqueue_read_stream_gap_event dispatch_read_stream_gap_event
move (detects event) n = enqueue_read_stream_gap_event event n
move (takes handler_panics) n = dispatch_read_stream_gap_event handler_panics n.events n
move ends n = (record n { dispatching = false }, [])

unfoldable pub run : List Move → Notices → Notices × List Act
unfolding move
run [] n = (n, [])
run (m ∷ ms) n = let (n', acts) = move m n in let (n'', more) = run ms n' in (n'', acts ++ more)
