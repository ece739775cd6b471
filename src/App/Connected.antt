-- ===== src/App/Connected.antt =====
-- What is open when the application has connected.
use cloud_sdk_go.Base.{
  ℕ, ◌≡◌, refl, ◌∙◌, inl, inr, String, true, false, Option, none, some, List, [], ◌∷◌, lookup, All,
  arith, Option-cases, Result-cases, Result, ok,
}
use cloud_sdk_go.Pubsub.Conn.{
  Config, Conn, Subscription, new_internal_connection, connect, subscribe, add_subscription,
}
use cloud_sdk_go.Pubsub.Table.{subscribe-adds}
use cloud_sdk_go.Gap.Tracker.{GapTracker}
use cloud_sdk_go.Pubsub.Reconnect.{subscribe_stream}
use cloud_sdk_go.Pubsub.Lifecycle.{
  Service, Attempt, new_connection, finish_connect, connect_service,
}
use cloud_sdk_go.App.Config
use cloud_sdk_go.App.Start.{
  App, Region, Answers, create_connections, subscribe_service, connect_region, connect_regions,
  pubsub_connect, pubsub_config, current_tracker,
}

-- An open connection that serves the subscription to a stream.
abbrev pub IsServing : String → Service → Type 0
IsServing stream s =
    (s.serving ≡ true)
    × (s.connection.conn.has_ws ≡ true)
    × (s.connection.conn.closed ≡ false)
    × ((sub : Subscription) × (lookup stream s.connection.conn.subs ≡ some sub))

abbrev pub IsUp : String → Region → Type 0
IsUp stream r = (s : Service) × (r.connection ≡ some s) × IsServing stream s

-- A new connection is not closed.
abbrev IsFresh : Region → Type 0
IsFresh r = (s : Service) × (r.connection ≡ some s) × (s.connection.conn.closed ≡ false)

new_connection-closed :
    (config : Config) (gaps : Option GapTracker) (s : Service)
    → new_connection config gaps ≡ ok s
    → s.connection.conn.closed ≡ false
unfolding new_connection new_internal_connection
new_connection-closed config gaps s e = ground arith

connect_service-opens :
    (now : ℕ) (a : Attempt) (s : Service)
    → s.connection.conn.closed ≡ false
    → (connect_service now a s).1 ≡ none
    → let s' = (connect_service now a s).0 in
      (s'.serving ≡ true) × (s'.connection.conn.has_ws ≡ true) × (s'.connection.conn.closed ≡ false)
unfolding connect_service finish_connect connect
connect_service-opens now a s running e = ground arith

subscribe-keeps :
    (now : ℕ) (stream : String) (created : Result String) (c : Conn)
    → let c' = (subscribe now stream "" created c).0 in
      (c'.has_ws ≡ c.has_ws) × (c'.closed ≡ c.closed)
unfolding subscribe add_subscription
subscribe-keeps now stream created c = ground arith

subscribe_service-IsServing :
    (now : ℕ) (stream : String) (created : Result String) (s : Service)
    → s.serving ≡ true
    → s.connection.conn.has_ws ≡ true
    → s.connection.conn.closed ≡ false
    → (subscribe_service now stream created s).2 ≡ none
    → IsServing stream (subscribe_service now stream created s).0
unfolding subscribe_service subscribe_stream
subscribe_service-IsServing now stream created s serving ws running e =
    let after = subscribe now stream "" created s.connection.conn in
    let kept = subscribe-keeps now stream created s.connection.conn in
    elim (Result-cases after.1) [
      | inl (id, subscribed) ↦
          let adds = subscribe-adds now stream "" created s.connection.conn id stream subscribed in
          rw (subscribed, subscribe_service, subscribe_stream)
            (serving, kept.0 ∙ ws, kept.1 ∙ running, (record { id = id; stream = stream }, adds.1))
      | inr (x, failed) ↦ absurd (ground arith)
    ]

connect_region-IsServing :
    (now : ℕ) (stream : String) (a : Answers) (s : Service)
    → s.connection.conn.closed ≡ false
    → (connect_region now stream a s).2 ≡ none
    → IsServing stream (connect_region now stream a s).0
unfolding connect_region
connect_region-IsServing now stream a s running e =
    let after = connect_service now a.attempt s in
    elim (Option-cases after.1) [
      | inr (x, failed) ↦ absurd (ground arith)
      | inl connected ↦
          let up = connect_service-opens now a.attempt s running connected in
          rw (connected, connect_region)
            (subscribe_service-IsServing now stream a.created after.0 up.0 up.1 up.2 (ground arith))
    ]

create_connections-IsFresh :
    (path_escape : String → String) (config : Config.Config) (rs : List Region)
    → (create_connections path_escape config rs).1 ≡ none
    → All IsFresh (create_connections path_escape config rs).0
unfolding create_connections
create_connections-IsFresh path_escape config [] e = tt
create_connections-IsFresh path_escape config (r ∷ rs) e =
    elim (Result-cases
      (new_connection (pubsub_config path_escape config r.fqdn) (current_tracker r))) [
        | inr (x, failed) ↦ absurd (ground arith)
        | inl (s, made) ↦
            rw (made, create_connections)
              (
                (
                  s,
                  refl,
                  new_connection-closed (pubsub_config path_escape config r.fqdn)
                      (current_tracker r) s made,
                ),
                create_connections-IsFresh path_escape config rs (ground arith),
              )
      ]

connect_regions-IsUp :
    (now : ℕ) (stream : String) (answers : String → Answers) (rs : List Region)
    → All IsFresh rs
    → (connect_regions now stream answers rs).2 ≡ none
    → All (IsUp stream) (connect_regions now stream answers rs).0
unfolding connect_regions
connect_regions-IsUp now stream answers [] fresh e = tt
connect_regions-IsUp now stream answers (r ∷ rs) ((s, has_one, running), fresh) e =
    let one = connect_region now stream (answers r.fqdn) s in
    elim (Option-cases one.2) [
      | inr (x, failed) ↦ absurd (ground arith)
      | inl connected ↦
          rw (has_one, connected, connect_regions)
            (
              (
                one.0,
                refl,
                connect_region-IsServing now stream (answers r.fqdn) s running connected,
              ),
              connect_regions-IsUp now stream answers rs fresh (ground arith),
            )
    ]

-- When the application has connected without an error, every region has an open connection that
-- serves the application's read stream.
pub pubsub_connect-IsUp :
    (path_escape : String → String) (now : ℕ) (answers : String → Answers) (app : App)
    → (pubsub_connect path_escape now answers app).2 ≡ none
    → All (IsUp app.config.read_stream_id) (pubsub_connect path_escape now answers app).0.regions
unfolding pubsub_connect
pubsub_connect-IsUp path_escape now answers app e =
    let made = create_connections path_escape app.config app.regions in
    elim (Option-cases made.1) [
      | inr (x, failed) ↦ absurd (ground arith)
      | inl all_made ↦
          rw (all_made, pubsub_connect)
            (connect_regions-IsUp now app.config.read_stream_id answers made.0
              (create_connections-IsFresh path_escape app.config app.regions all_made)
              (ground arith))
    ]
