-- ===== src/Pubsub/Subscriber.antt =====
-- The subscriber around the consumer (subscribe.go: subscriber, confirmedConsumeGap,
-- consumeTimeoutReason).
--
-- A subscriber performs the steps of its consumer and then deals with the consumer's end. The
-- consumer runs beside it; the steps are in the consumer's order, in which the tracker sees them.
-- `clock n` is what `time.Now()` returns in the n-th step. The watchdog beside them is in Watch.
use cloud_sdk_go.Base.{
  ℕ, ◌+◌, String, Option, none, some, List, [], ◌∷◌, ◌++◌, map, Failure, Result,
}
use cloud_sdk_go.Stats.Defs.{record_broker_response, since_last_broker_response}
use cloud_sdk_go.Gap.Tracker.{GapReason, GapTracker, GapEvent, unless_nil, detect, broker_response}
use cloud_sdk_go.Pubsub.Conn.{Conn, mark_consume_timeout}
use cloud_sdk_go.Pubsub.Consume.{
  End, stopped, gap, broken, Step, requests, records, hands_over, Round, consumer, Callback,
  dispatch_consume_result,
}

-- What a subscriber causes: events for the tracker's handler, calls of its callback with a message
-- or with an error, and the start of a goroutine that disconnects.
pub data Effect : Type 0 where
  notifies : GapEvent → Effect
  calls : Callback → Effect
  reports : Failure → Effect
  disconnects : Effect

-- A call of the tracker, if there is one.
abbrev pub with_tracker : (GapTracker → GapTracker × List GapEvent) → Conn → Conn × List Effect
with_tracker f c =
    let (gaps, events) = unless_nil f c.gaps in (record c { gaps = gaps }, map notifies events)

-- The detection that `confirmedConsumeGap` and the end of `subscriber` have in common.
unfoldable pub detect_gap : ℕ → String → GapReason → Conn → Conn × List Effect
unfolding detect
detect_gap now stream reason c =
    with_tracker
      (detect now c.config.domain stream reason (since_last_broker_response now stream c.stats)) c

unfoldable pub confirmed_consume_gap : ℕ → String → GapReason → Conn → Conn × List Effect × End
unfolding detect_gap
confirmed_consume_gap now stream reason c =
    let (c', effects) = detect_gap now stream reason c in (c', effects, gap reason)

-- What follows the loop over the results: `now` is the time of the consumer's end and `later` that
-- at which the subscriber learns of it.
unfoldable pub subscriber_end : (now later : ℕ) → String → End → Conn → Conn × List Effect
unfolding confirmed_consume_gap mark_consume_timeout
subscriber_end now later stream stopped c = (c, [])
subscriber_end now later stream (broken e) c = (c, reports e ∷ [])
subscriber_end now later stream (gap reason) c =
    let (found, effects, end) = confirmed_consume_gap now stream reason c in
    let (again, more) = detect_gap later stream reason found in
    (mark_consume_timeout again, effects ++ more ++ (disconnects ∷ []))

-- `none` as the end means that the subscriber runs on.
abbrev pub subscriber_ends : (now later : ℕ) → String → Option End → Conn → Conn × List Effect
subscriber_ends now later stream none c = (c, [])
subscriber_ends now later stream (some end) c = subscriber_end now later stream end c

module _ (decode : String → Result String) (stream : String) where
  -- One step of the consumer, and of the subscriber that it hands a result to.
  unfoldable pub perform : ℕ → Step → Conn → Conn × List Effect
  unfolding dispatch_consume_result broker_response
  perform now (requests ctx) c = (c, [])
  perform now (records ctx messages) c =
      with_tracker (broker_response now stream)
        (record c { stats = record_broker_response now stream ctx messages c.stats })
  perform now (hands_over result) c =
      let (stats, callbacks) = dispatch_consume_result now decode stream result.messages c.stats in
      (record c { stats = stats }, map calls callbacks)

  unfoldable pub perform_all : (ℕ → ℕ) → ℕ → List Step → Conn → Conn × List Effect
  unfolding perform
  perform_all clock n [] c = (c, [])
  perform_all clock n (step ∷ steps) c =
      let (c', effects) = perform (clock n) step c in
      let (c'', more) = perform_all clock (n + 1) steps c' in (c'', effects ++ more)

  unfoldable pub subscriber : (ℕ → ℕ) → (now later : ℕ) → List Round → Conn → Conn × List Effect
  unfolding perform_all consumer subscriber_end
  subscriber clock now later rounds c =
      let (steps, end) = consumer stream "" rounds in
      let (c', effects) = perform_all clock 0 steps c in
      let (c'', more) = subscriber_ends now later stream end c' in (c'', effects ++ more)
