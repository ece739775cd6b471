-- ===== src/App/Slow.antt =====
-- The watchdog of the application's message handler (app.go: invokeDeviceMessageHandler,
-- invokeDeviceMessageHandlerWithPolicy, startDeviceMessageHandlerWatchdog, stop,
-- watchDeviceMessageHandler).
--
-- Instants and durations are nanoseconds. `time.AfterFunc` and the ticker are Go's: a beat is one
-- of their calls or ticks, the return of the handler, or the stop of the watchdog, which comes after
-- it: between the two the watchdog may still write a line.
use cloud_sdk_go.Base.{ℕ, ◌-◌, Bool, ◌&&◌, List, [], ◌∷◌, ◌++◌, ℤ, pos, ltb_ℤ, leb_ℤ, if◌then◌else◌}

abbrev pub device_message_handler_slow_warn_threshold : ℤ
device_message_handler_slow_warn_threshold = pos 10000000000

abbrev pub device_message_handler_reminder_interval : ℤ
device_message_handler_reminder_interval = pos 15000000000

pub data Beat : Type 0 where
  fires : (now : ℕ) → Beat
  ticks : (now : ℕ) → Beat
  returns : (now : ℕ) → Beat
  stops : Beat

-- A line of the log, with the time since the call. The seconds that it prints are that time's.
pub data Line : Type 0 where
  slow : (elapsed : ℕ) → Line
  still : (elapsed : ℕ) → Line
  returned : (elapsed : ℕ) → Line

-- Where the watchdog is: there is none, its timer runs, it sends reminders, it sends none.
pub data Phase : Type 0 where
  absent armed reminding holding : Phase

unfoldable pub start_device_message_handler_watchdog : ℤ → Phase
start_device_message_handler_watchdog threshold = if leb_ℤ threshold (pos 0) then absent else armed

-- `watchDeviceMessageHandler` before its loop.
unfoldable pub begin_reminders : ℤ → Phase
begin_reminders reminder_interval = if leb_ℤ reminder_interval (pos 0) then holding else reminding

-- The end of `invokeDeviceMessageHandlerWithPolicy`, which has stopped the watchdog.
unfoldable pub handler_returned : ℤ → ℕ → List Line
handler_returned threshold elapsed =
    if ltb_ℤ (pos 0) threshold && leb_ℤ threshold (pos elapsed) then returned elapsed ∷ [] else []

module _ (threshold reminder_interval : ℤ) (started : ℕ) where
  -- One call or tick of the timers.
  unfoldable pub beat_line : Phase → Beat → Phase × List Line
  unfolding begin_reminders
  beat_line armed (fires now) = (begin_reminders reminder_interval, slow (now - started) ∷ [])
  beat_line reminding (ticks now) = (reminding, still (now - started) ∷ [])
  beat_line phase beat = (phase, [])

  -- Between the return of the handler and the stop.
  unfoldable pub close_watch : ℕ → Phase → List Beat → List Line
  unfolding beat_line handler_returned
  close_watch elapsed phase [] = []
  close_watch elapsed phase (stops ∷ beats) = handler_returned threshold elapsed
  close_watch elapsed phase (beat ∷ beats) =
      let (phase', lines) = beat_line phase beat in lines ++ close_watch elapsed phase' beats

  unfoldable pub watch : Phase → List Beat → List Line
  unfolding close_watch
  watch phase [] = []
  watch phase (returns now ∷ beats) = close_watch (now - started) phase beats
  watch phase (beat ∷ beats) =
      let (phase', lines) = beat_line phase beat in lines ++ watch phase' beats

  -- Without a handler there is nothing to call.
  unfoldable pub invoke_device_message_handler_with_policy : Bool → List Beat → List Line
  unfolding watch start_device_message_handler_watchdog
  invoke_device_message_handler_with_policy has_handler beats =
      let lines = watch (start_device_message_handler_watchdog threshold) beats in
      if has_handler then lines else []
