-- ===== src/Gap/Tests.antt =====
-- Tests of the gap tracker, and instances of its theorems.
use cloud_sdk_go.Base.{◌-◌, ◌≡◌, refl, ◌≤◌, some, List, [], ◌∷◌, lookup, insert, map, pos, clamp}
use cloud_sdk_go.Gap.Tracker.{
  GapState, detected, recovered, broker_response_timeout, processing_backpressure, GapEvent,
  GapTracker, mark_ready, recovery_event, detect, subscription_started, connection_ready,
  broker_response,
}
use cloud_sdk_go.Gap.Trace.{Op, detects, starts, readies, responds, step, run, events_of}
use cloud_sdk_go.Gap.Edges.{active_in, follows, follows-run}
use cloud_sdk_go.Gap.Evidence.{recoveries, ready_count, response_count, recovered_needs_evidence}
use cloud_sdk_go.Gap.Durations.{Closes, First, detect-First-Closes}

abbrev fresh : GapTracker
fresh = record { streams = []; reconnect_count = 0 }

abbrev opened : GapTracker
opened = (step (detects 100 "us" "a" broker_response_timeout (pos 30)) fresh).0

-- A gap of "a" that a second detection and a gap of "b" interrupt.
abbrev calls : List Op
calls =
    detects 110 "us" "a" processing_backpressure (pos 5)
    ∷ responds 120 "a"
    ∷ starts "a"
    ∷ detects 125 "us" "b" processing_backpressure (pos 5)
    ∷ readies 130 "a"
    ∷ responds 150 "a"
    ∷ []

abbrev state_of : GapEvent → GapState
state_of e = e.state

calls_states :
    map state_of (run (detects 100 "us" "a" broker_response_timeout (pos 30) ∷ calls) fresh).1
    ≡ detected ∷ detected ∷ recovered ∷ []
unfolding run step detect subscription_started connection_ready broker_response lookup insert
    mark_ready recovery_event
calls_states = refl

follows-run_example :
    follows (some (active_in "a" opened)) (events_of "a" (run calls opened).1)
    ≡ some (active_in "a" (run calls opened).0)
follows-run_example = follows-run calls "a" opened

recovered_needs_evidence_example :
    let spent = recoveries (events_of "a" (run calls (step (starts "a") opened).0).1) in
    (spent ≤ ready_count "a" calls) × (spent ≤ response_count "a" calls)
recovered_needs_evidence_example = recovered_needs_evidence "a" calls opened

detect-First-Closes_example :
    First
      (Closes "us" broker_response_timeout (100 - clamp (pos 30)))
      (events_of "a" (run calls opened).1)
unfolding lookup
detect-First-Closes_example =
    detect-First-Closes 100 "us" "a" broker_response_timeout (pos 30) calls fresh refl
