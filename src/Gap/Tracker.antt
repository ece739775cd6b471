-- ===== src/Gap/Tracker.antt =====
-- `ReadStreamGapTracker` and its methods (internal/pubsub/gap_notifications.go).
--
-- An instant is a number of nanoseconds since Go's zero time, and `now` is what `time.Now()`
-- returns. An observed duration is an `int64`, so it is shorter than the time from Go's zero time
-- to the present, and `now - d` is exact. A method returns the events that it hands to the
-- handler; the lock makes each method atomic.
use cloud_sdk_go.Base.{
  ℕ, ◌-◌, String, Bool, true, false, ◌||◌, not, Option, none, some, List, [], ◌∷◌, Dict, lookup,
  insert, ℤ, pos, sub_ℕ, clamp, inc64, if◌then◌else◌,
}

pub data GapState : Type 0 where
  detected recovered : GapState

-- `unset` is the zero value, the empty text.
pub data GapReason : Type 0 where
  unset broker_response_timeout processing_backpressure : GapReason

pub record GapEvent : Type 0 where
  pub state : GapState
  pub reason : GapReason
  pub region : String
  pub stream : String
  pub duration : ℤ
  pub reconnect_count : ℕ
  pub occurred_at : ℕ

pub record Lifecycle : Type 0 where
  pub active : Bool
  pub region : String
  pub reason : GapReason
  pub started_at : ℕ
  pub connection_ready : Bool
  pub broker_response_after_gap : Bool
  pub reconnect_count : ℕ

pub record GapTracker : Type 0 where
  pub streams : Dict Lifecycle
  pub reconnect_count : ℕ

-- `nil` without a handler.
unfoldable pub new_gap_tracker : Bool → Option GapTracker
new_gap_tracker has_handler =
    if has_handler then some (record { streams = []; reconnect_count = 0 }) else none

-- A method of a tracker that may be `nil`.
abbrev pub unless_nil :
    (GapTracker → GapTracker × List GapEvent)
    → Option GapTracker
    → Option GapTracker × List GapEvent
unless_nil f none = (none, [])
unless_nil f (some t) = let (t', events) = f t in (some t', events)

abbrev pub is_active : Option Lifecycle → Bool
is_active none = false
is_active (some l) = l.active

unfoldable pub detect :
    ℕ → String → String → GapReason → ℤ → GapTracker → GapTracker × List GapEvent
detect now region stream reason observed t =
    if is_active (lookup stream t.streams) then (t, []) else (
      record t {
        streams =
            insert stream
              (record {
                active = true;
                region = region;
                reason = reason;
                started_at = now - clamp observed;
                connection_ready = false;
                broker_response_after_gap = false;
                reconnect_count = 0;
              })
              t.streams;
      },
      record {
        state = detected;
        reason = reason;
        region = region;
        stream = stream;
        duration = pos (clamp observed);
        reconnect_count = t.reconnect_count;
        occurred_at = now;
      }
          ∷ [],
    )

unfoldable pub subscription_started : String → GapTracker → GapTracker × List GapEvent
subscription_started stream t = elim (lookup stream t.streams) [
  | none ↦ (t, [])
  | some l ↦ if not l.active then (t, []) else (
    record t {
      streams =
          insert stream (record l { connection_ready = false; broker_response_after_gap = false })
            t.streams;
    },
    [],
  )
]

-- `recoveryEventLocked`: the lifecycle that it leaves, and the event if there is one.
unfoldable pub recovery_event : ℕ → String → Lifecycle → Lifecycle × List GapEvent
recovery_event now stream l =
    if not l.connection_ready || not l.broker_response_after_gap then (l, []) else (
      record l { active = false },
      record {
        state = recovered;
        reason = l.reason;
        region = l.region;
        stream = stream;
        duration = sub_ℕ now l.started_at;
        reconnect_count = l.reconnect_count;
        occurred_at = now;
      }
          ∷ [],
    )

-- The count of reconnects is raised once for each attempt that becomes ready.
unfoldable pub mark_ready : Lifecycle → ℕ → Lifecycle × ℕ
mark_ready l reconnects = if l.connection_ready then (l, reconnects) else (
  record l { reconnect_count = inc64 reconnects; connection_ready = true },
  inc64 reconnects,
)

unfoldable pub connection_ready : ℕ → String → GapTracker → GapTracker × List GapEvent
unfolding mark_ready recovery_event
connection_ready now stream t = elim (lookup stream t.streams) [
  | none ↦ (t, [])
  | some l ↦
      if not l.active
      then (t, [])
      else let (ready, reconnects) = mark_ready l t.reconnect_count in
        let (left, events) = recovery_event now stream ready in
        (record t { streams = insert stream left t.streams; reconnect_count = reconnects }, events)
]

unfoldable pub broker_response : ℕ → String → GapTracker → GapTracker × List GapEvent
unfolding recovery_event
broker_response now stream t = elim (lookup stream t.streams) [
  | none ↦ (t, [])
  | some l ↦
      if not l.active
      then (t, [])
      else let (left, events) =
          recovery_event now stream (record l { broker_response_after_gap = true }) in
        (record t { streams = insert stream left t.streams }, events)
]
