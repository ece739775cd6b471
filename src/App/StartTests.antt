-- ===== src/App/StartTests.antt =====
-- The start of the application and its gap notices at work, as instances of their theorems.
use cloud_sdk_go.Base.{
  ◌≡◌, refl, ◌≤◌, ◌⊎◌, String, true, false, none, some, List, [], ◌∷◌, ◌++◌, length, lookup, All,
  arith, message, ok, err, pos,
}
use cloud_sdk_go.Gap.Tracker.{
  GapTracker, new_gap_tracker, GapEvent, detected, recovered, broker_response_timeout,
}
use cloud_sdk_go.Pubsub.Conn.{new_internal_connection}
use cloud_sdk_go.App.Tests.{config, clean_config, validated, x1_trimmed, d1_visible}
use cloud_sdk_go.App.Text.{trim_space}
use cloud_sdk_go.App.Tenants.{success}
use cloud_sdk_go.App.Slow.{
  Beat, fires, ticks, returns, stops, armed, begin_reminders, beat_line, watch,
}
use cloud_sdk_go.App.Returned.{warned, reported, until_return, warned-reported}
use cloud_sdk_go.App.Instances.{CreateAppInstanceResponse, create_app_instance}
use cloud_sdk_go.App.Children.{create_app_instance-adopts}
use cloud_sdk_go.App.Notices.{
  Notices, read_stream_gap_tracker, configure_read_stream_gap_notifications, Move, detects, takes,
  ends, run,
}
use cloud_sdk_go.App.Delivered.{Merges, calls, losses, offered, run-delivers}
use cloud_sdk_go.App.Start.{App, Region, Answers, new_app, pubsub_connect}
use cloud_sdk_go.App.Retry.{Round, connection_ends, context_done, start_pubsub_connect}
use cloud_sdk_go.App.Backoff.{IsSchedule, pauses-IsSchedule}
use cloud_sdk_go.App.Connected.{IsUp, pubsub_connect-IsUp}

abbrev loss : GapEvent
loss = record {
  state = detected;
  reason = broker_response_timeout;
  region = "us";
  stream = "r";
  duration = pos 15;
  reconnect_count = 0;
  occurred_at = 20;
}

abbrev no_gaps : GapTracker
no_gaps = record { streams = []; reconnect_count = 0 }

abbrev empty_channel : Notices
empty_channel = record { events = []; dispatching = true }

-- The handler panics at the first event, and the second waits for it.
abbrev moves : List Move
moves =
    detects loss
    ∷ takes true
    ∷ detects (record loss { state = recovered })
    ∷ ends
    ∷ takes false
    ∷ []

run-delivers_example :
    let (n, acts) = run moves empty_channel in
    Merges (calls acts ++ n.events) (losses acts) (offered moves)
    × ((losses acts ≡ []) ⊎ (16 ≤ length (calls acts ++ n.events)))
    × (length n.events ≤ 16)
run-delivers_example = run-delivers moves

abbrev same : String → String
same s = s

abbrev us : Region
us = record { fqdn = "us"; tracker = none; connection = none }

abbrev app : App
app = record {
  config = clean_config;
  regions = us ∷ record us { fqdn = "eu" } ∷ [];
  error = [];
  log_each_message = false;
  notices = none;
  stopped = false;
}

abbrev reachable : String → Answers
reachable fqdn = record {
  attempt = record {
    dial = record { token = ok "key"; dialled = ok tt; opened = ok tt };
    deleted = λ id. ok tt;
    cancelled = none;
  };
  created = ok "s1";
}

abbrev unreachable : String → Answers
unreachable fqdn = record (reachable fqdn) {
  attempt = record {
    dial = record { token = ok "key"; dialled = err (message "down"); opened = ok tt };
    deleted = λ id. ok tt;
    cancelled = none;
  };
}

connected : (pubsub_connect same 5 reachable app).2 ≡ none
unfolding pubsub_connect new_internal_connection lookup
connected = refl

pubsub_connect-IsUp_example : All (IsUp "r") (pubsub_connect same 5 reachable app).0.regions
pubsub_connect-IsUp_example = pubsub_connect-IsUp same 5 reachable app connected

abbrev failing : Round
failing = record {
  now = 9;
  answers = unreachable;
  received = context_done;
  deleted = λ id. ok tt;
  reads_error = false;
  wait_over = true;
}

abbrev rounds : List Round
rounds =
    failing
    ∷ failing
    ∷ record failing { answers = reachable; received = connection_ends (some (message "lost")) }
    ∷ failing
    ∷ record failing { answers = reachable }
    ∷ []

pauses-IsSchedule_example : IsSchedule 0 (start_pubsub_connect same 0 rounds app).1
pauses-IsSchedule_example = pauses-IsSchedule same rounds app (omega arith)

-- The ticker still ticks between the return and the stop.
abbrev beats : List Beat
beats = fires 12 ∷ ticks 18 ∷ returns 21 ∷ ticks 22 ∷ stops ∷ []

beats-warned : warned (watch (pos 10) (pos 5) 2 armed (until_return beats)) ≡ true
unfolding watch beat_line begin_reminders
beats-warned = refl

warned-reported_example : reported (watch (pos 10) (pos 5) 2 armed beats) ≡ true
warned-reported_example =
    warned-reported 10 (pos 5) 2 armed 2 beats (omega arith)
      (omega arith, omega arith, (omega arith, (omega arith, tt))) beats-warned

-- An application with a gap handler has two trackers and an empty channel.
abbrev parent : App
parent = record app {
  regions =
      record us { tracker = some no_gaps } ∷ record us { fqdn = "eu"; tracker = some no_gaps } ∷ [];
  notices = some empty_channel;
}

made_parent : new_app "x1" config ≡ ok parent
unfolding new_app new_gap_tracker read_stream_gap_tracker configure_read_stream_gap_notifications
made_parent = rw validated refl

abbrev created : CreateAppInstanceResponse
created = record { id = "d1"; api_key = "k1" }

create_app_instance-adopts_example :
    (child : App) × (create_app_instance "x2" (success created) parent ≡ ok child)
    × (child.config.id ≡ trim_space "d1")
    × (child.config.api_key ≡ "k1")
    × (child.config.regional_fqdns ≡ parent.config.regional_fqdns)
    × (child.config.group_id ≡ parent.config.group_id)
    × (child.config.handlers ≡ parent.config.handlers)
create_app_instance-adopts_example =
    create_app_instance-adopts "x1" "x2" config parent created x1_trimmed refl made_parent
      d1_visible
