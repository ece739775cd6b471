-- ===== src/Watch/Defs.antt =====
-- `sdkProcessingWatch` and its watchdog (internal/pubsub/sdk_processing_diagnostics.go).
--
-- Instants are nanoseconds since Go's zero time, so 0 is the zero time; a threshold or an interval
-- may be negative. The lock makes each method atomic.
use cloud_sdk_go.Base.{
  ℕ, String, Bool, ◌||◌, ◌&&◌, not, Option, none, some, List, [], ◌∷◌, ◌++◌, ℤ, pos, sub_ℕ, ltb_ℤ,
  leb_ℤ, ◌==◌, if◌then◌else◌,
}

pub record Watch : Type 0 where
  pub start : ℕ
  pub last_warning : ℕ
  pub msg_id : String
  pub topic : String

-- A warning that is due.
pub record Warning : Type 0 where
  pub elapsed : ℤ
  pub msg_id : String
  pub topic : String
  pub initial : Bool

unfoldable pub begin_watch : ℕ → String → String → Watch → Watch
begin_watch now msg_id topic w = record {
  start = now;
  last_warning = 0;
  msg_id = msg_id;
  topic = topic;
}

unfoldable pub end_watch : Watch → Watch
end_watch w = record w { start = 0; last_warning = 0 }

-- `none` is the result that is not due.
unfoldable pub warning_due : ℕ → ℤ → ℤ → Watch → Watch × Option Warning
warning_due now threshold reminder_interval w =
    if (w.start == 0) || leb_ℤ threshold (pos 0)
    then (w, none)
    else let elapsed = sub_ℕ now w.start in
      let initial = w.last_warning == 0 in
      if ltb_ℤ elapsed threshold
      then (w, none)
      else if not initial
          && (leb_ℤ reminder_interval (pos 0) || ltb_ℤ (sub_ℕ now w.last_warning) reminder_interval)
      then (w, none)
      else (
        record w { last_warning = now },
        some (record { elapsed = elapsed; msg_id = w.msg_id; topic = w.topic; initial = initial }),
      )

-- `time.Second`
abbrev pub second : ℤ
second = pos 1000000000

abbrev shorten : ℤ → ℤ → ℤ
shorten limit interval = if ltb_ℤ (pos 0) limit && ltb_ℤ limit interval then limit else interval

-- How often the watchdog looks.
unfoldable pub check_interval : ℤ → ℤ → ℤ
check_interval threshold reminder_interval =
    let interval = shorten reminder_interval (shorten threshold second) in
    if leb_ℤ interval (pos 0) then second else interval

-- What happens to the watch: the subscriber begins and ends a callback, the watchdog ticks.
pub data Event : Type 0 where
  begins : (now : ℕ) → (msg_id topic : String) → Event
  ends : Event
  ticks : (now : ℕ) → Event

abbrev option_list : Option Warning → List Warning
option_list none = []
option_list (some w) = w ∷ []

-- `runSDKProcessingWatchdog` beside the subscriber: the warnings logged, in order.
unfoldable pub run_watchdog : ℤ → ℤ → List Event → Watch → Watch × List Warning
unfolding begin_watch end_watch warning_due
run_watchdog threshold reminder [] w = (w, [])
run_watchdog threshold reminder (begins now id topic ∷ es) w =
    run_watchdog threshold reminder es (begin_watch now id topic w)
run_watchdog threshold reminder (ends ∷ es) w = run_watchdog threshold reminder es (end_watch w)
run_watchdog threshold reminder (ticks now ∷ es) w =
    let (w', due) = warning_due now threshold reminder w in
    let (w'', later) = run_watchdog threshold reminder es w' in (w'', option_list due ++ later)
