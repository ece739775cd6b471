-- ===== src/App/Retry.antt =====
-- The loop that connects the application again and again (app.go: startPubsubConnect).
--
-- A round is what happens between two attempts. That the loop loads the devices of the tenants
-- after an attempt that works is in App/Linking, as `load_tenants_devices`.
use cloud_sdk_go.Base.{
  ℕ, ◌+◌, ◌*◌, String, Bool, true, false, Option, none, some, List, [], ◌∷◌, ltb, if◌then◌else◌,
  Failure, Result,
}
use cloud_sdk_go.App.Start.{App, Region, Answers, report_error, close_connections, pubsub_connect}

abbrev pub max_backoff_factor : ℕ
max_backoff_factor = 3

abbrev pub reconnect_backoff : ℕ
reconnect_backoff = 30000000000

abbrev pub reconnect_delay : ℕ
reconnect_delay = 30000000000

-- What the select over the connections' error channels and the context receives: a connection's
-- end, whose error may be nil, or the end of the context.
pub data Received : Type 0 where
  connection_ends : Option Failure → Received
  context_done : Received

-- `wait_over` says that the pause ends before the context does; `reads_error` that the application
-- has read its channel of errors in the meantime.
pub record Round : Type 0 where
  pub now : ℕ
  pub answers : String → Answers
  pub received : Received
  pub deleted : String → Result (Unit {0})
  pub reads_error : Bool
  pub wait_over : Bool

-- A pause: after what attempt it comes, how long it is, and what the connections are like in it.
pub record Pause : Type 0 where
  pub after_success : Bool
  pub duration : ℕ
  pub regions : List Region
  pub errors : List Failure

abbrev pub drain : Bool → App → App
drain false app = app
drain true app = record app { error = [] }

unfoldable pub report_any : Option Failure → App → App
unfolding report_error
report_any none app = app
report_any (some e) app = report_error e app

-- An attempt and what follows it up to the pause: the application, and whether the attempt worked,
-- or the end of the loop.
unfoldable pub finish_round : Round → App → Option Failure → App × Option Bool
unfolding report_any close_connections
finish_round r app (some e) = (close_connections r.deleted (report_any (some e) app), some false)
finish_round r app none = elim r.received [
  | context_done ↦ (app, none)
  | connection_ends e ↦ (close_connections r.deleted (report_any e app), some true)
]

abbrev pub next_factor : ℕ → ℕ
next_factor factor = if ltb factor max_backoff_factor then factor + 1 else factor

abbrev pub pause : Bool → ℕ → App → Pause
pause worked factor app = record {
  after_success = worked;
  duration = reconnect_delay + reconnect_backoff * factor;
  regions = app.regions;
  errors = app.error;
}

module _ (path_escape : String → String) where
  unfoldable pub start_round : Round → App → App × Option Bool
  unfolding finish_round pubsub_connect
  start_round r app =
      let (app', events, failure) =
        pubsub_connect path_escape r.now r.answers (drain r.reads_error app) in
      finish_round r app' failure

  -- The pauses of the loop, with the backoff factor as it is before the round.
  unfoldable pub start_pubsub_connect : ℕ → List Round → App → App × List Pause
  unfolding start_round
  start_pubsub_connect factor [] app = (app, [])
  start_pubsub_connect factor (r ∷ rs) app =
      let (app', end) = start_round r app in
      elim end [
        | none ↦ (app', [])
        | some worked ↦
            let f = if worked then 0 else factor in
            let (last, more) = start_pubsub_connect (next_factor f) rs app' in
            (
              if r.wait_over then last else app',
              pause worked f app' ∷ (if r.wait_over then more else []),
            )
      ]
