-- ===== src/App/Start.antt =====
-- The application object and its connections (app.go: New, Close, close, reportError,
-- pubsubConnect, startPubsubConnect).
--
-- `url.PathEscape` is not part of the repository: it is a parameter. The HTTP client that `New`
-- builds is resty's. What the broker answers during an attempt is an argument of it.
use cloud_sdk_go.Base.{
  ℕ, ◌+◌, String, Bool, true, false, Option, none, some, List, [], ◌∷◌, ◌++◌, map, pos, length, ltb,
  if◌then◌else◌, Failure, message, because, Result, ok, err, ◌>>=◌, context,
}
use cloud_sdk_go.Gap.Tracker.{GapTracker, GapEvent}
use cloud_sdk_go.Pubsub.Conn.{Config}
use cloud_sdk_go.Pubsub.Reconnect.{subscribe_stream}
use cloud_sdk_go.Pubsub.Lifecycle.{
  Service, Attempt, new_connection, connect_service, disconnect_service,
}
use cloud_sdk_go.App.Config
use cloud_sdk_go.App.Notices.{
  Notices, configure_read_stream_gap_notifications, read_stream_gap_tracker,
}

-- One index of the slices `config.RegionalFQDNs`, `conn` and `readStreamGapTrackers`, which have
-- the same length. `tracker` is as before the connection was made.
pub record Region : Type 0 where
  pub fqdn : String
  pub tracker : Option GapTracker
  pub connection : Option Service

-- `error` is what the channel `Error` holds; `stopped` says that the context is done.
pub record App : Type 0 where
  pub config : Config.Config
  pub regions : List Region
  pub error : List Failure
  pub log_each_message : Bool
  pub notices : Option Notices
  pub stopped : Bool

abbrev new_regions : List (Option GapTracker) → ℕ → List String → List Region
new_regions trackers i [] = []
new_regions trackers i (fqdn ∷ fqdns) =
    record { fqdn = fqdn; tracker = read_stream_gap_tracker i trackers; connection = none }
    ∷ new_regions trackers (i + 1) fqdns

-- `xid` is the fresh id that is used where no group is given.
unfoldable pub new_app : String → Config.Config → Result App
unfolding configure_read_stream_gap_notifications
new_app xid config = context "invalid configuration" (Config.validate_config xid config) >>= λ c.
    let (notices, trackers) = configure_read_stream_gap_notifications c in
    ok (record {
      config = c;
      regions = new_regions trackers 0 c.regional_fqdns;
      error = [];
      log_each_message = c.log_each_message;
      notices = notices;
      stopped = false;
    })

-- An error that finds the channel full is logged only.
unfoldable pub report_error : Failure → App → App
report_error e app =
    if ltb (length app.error) 1 then record app { error = app.error ++ (e ∷ []) } else app

abbrev pub close_region : (String → Result (Unit {0})) → Region → Region
close_region deleted r = elim r.connection [
  | none ↦ r
  | some s ↦ record r { connection = some (disconnect_service deleted s) }
]

-- `close`
unfoldable pub close_connections : (String → Result (Unit {0})) → App → App
close_connections deleted app = record app { regions = map (close_region deleted) app.regions }

-- `Close`
unfoldable pub close_app : (String → Result (Unit {0})) → App → App
unfolding close_connections
close_app deleted app = close_connections deleted (record app { stopped = true })

-- The tracker is shared by the connections of its region.
abbrev pub current_tracker : Region → Option GapTracker
current_tracker r = elim r.connection [ none ↦ r.tracker | some s ↦ s.connection.conn.gaps ]

module _ (path_escape : String → String) where
  abbrev pub pubsub_config : Config.Config → String → Config
  pubsub_config config fqdn = record {
    group_id = config.group_id;
    domain = path_escape fqdn;
    has_api_key_provider = true;
    has_auth_token_provider = false;
    poll_interval = pos 0;
    status_log_interval = config.status_log_interval;
  }

  -- The first loop of `pubsubConnect`, which ends at the first failure.
  unfoldable pub create_connections : Config.Config → List Region → List Region × Option Failure
  unfolding new_connection
  create_connections config [] = ([], none)
  create_connections config (r ∷ rs) =
      let (rest, failure) = create_connections config rs in
      elim (new_connection (pubsub_config config r.fqdn) (current_tracker r)) [
        | err e ↦ (r ∷ rs, some (because "failed to create pubsub connection" e))
        | ok s ↦ (record r { connection = some s } ∷ rest, failure)
      ]

-- What is answered for a region while the application connects.
pub record Answers : Type 0 where
  pub attempt : Attempt
  pub created : Result String

-- The subscription of a connection for the stream of the application.
unfoldable pub subscribe_service :
    ℕ → String → Result String → Service → Service × List GapEvent × Option Failure
unfolding subscribe_stream
subscribe_service now stream created s =
    let (c, events, failure) = subscribe_stream now stream created s.connection in
    (
      record s { connection = c },
      events,
      elim failure [ none ↦ none | some e ↦ some (because "failed to subscribe" e) ],
    )

-- One round of the second loop of `pubsubConnect`.
unfoldable pub connect_region :
    ℕ → String → Answers → Service → Service × List GapEvent × Option Failure
unfolding connect_service subscribe_service
connect_region now stream a s =
    let (s', failure) = connect_service now a.attempt s in
    elim failure [
      | some e ↦ (s', [], some (because "failed to connect pubsub connection" e))
      | none ↦ subscribe_service now stream a.created s'
    ]

-- The second loop, which ends at the first failure; the first has made every connection.
unfoldable pub connect_regions :
    ℕ → String → (String → Answers) → List Region → List Region × List GapEvent × Option Failure
unfolding connect_region
connect_regions now stream answers [] = ([], [], none)
connect_regions now stream answers (r ∷ rs) =
    let (rest, more, failure) = connect_regions now stream answers rs in
    elim r.connection [
      | none ↦ (r ∷ rs, [], some (message "nil connection"))
      | some s ↦
          let (s', events, e) = connect_region now stream (answers r.fqdn) s in
          let r' : Region = record r { connection = some s' } in
          elim e [
            | some e ↦ (r' ∷ rs, events, some e)
            | none ↦ (r' ∷ rest, events ++ more, failure)
          ]
    ]

module _ (path_escape : String → String) where
  -- With the events of the trackers.
  unfoldable pub pubsub_connect :
      ℕ → (String → Answers) → App → App × List GapEvent × Option Failure
  unfolding create_connections connect_regions
  pubsub_connect now answers app =
      let (made, failure) = create_connections path_escape app.config app.regions in
      elim failure [
        | some e ↦ (record app { regions = made }, [], some e)
        | none ↦
            let (regions, events, e) = connect_regions now app.config.read_stream_id answers made in
            (record app { regions = regions }, events, e)
      ]
