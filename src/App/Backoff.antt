-- ===== src/App/Backoff.antt =====
-- How long the application waits before it connects again, and what is open meanwhile.
use cloud_sdk_go.Base.{
  ℕ, ◌+◌, ◌*◌, ◌≤◌, ◌≡◌, refl, subst, min, ◌⊎◌, inl, inr, String, Bool, true, false, Option, none,
  some, List, [], ◌∷◌, map, arith, length, length-append, All, Bool-cases, Option-cases,
  if◌then◌else◌, Failure, message, Result,
}
use cloud_sdk_go.Pubsub.Conn.{Conn, close_notify, disconnect}
use cloud_sdk_go.Pubsub.Table.{close-closed}
use cloud_sdk_go.Pubsub.Lifecycle.{Service, disconnect_service}
use cloud_sdk_go.App.Start.{
  App, Region, Answers, report_error, create_connections, close_region, close_connections,
  pubsub_connect,
}
use cloud_sdk_go.App.Retry.{
  Received, connection_ends, context_done, Round, Pause, drain, report_any, finish_round,
  next_factor, pause, start_round, start_pubsub_connect,
}

-- A connection that serves nobody, and that never opened or has closed.
abbrev pub IsDown : Region → Type 0
IsDown r = elim r.connection [
  | none ↦ Unit
  | some s ↦
      (s.serving ≡ false) × ((s.connection.conn.has_ws ≡ false) ⊎ (s.connection.conn.closed ≡ true))
]

disconnect_idle :
    (deleted : String → Result (Unit {0})) (e : Failure) (c : Conn)
    → (c.has_ws ≡ false) ⊎ (c.closed ≡ true)
    → disconnect deleted e c ≡ c
unfolding disconnect
disconnect_idle deleted e c idle = ground arith

disconnect_running :
    (deleted : String → Result (Unit {0})) (e : Failure) (c : Conn)
    → c.has_ws ≡ true
    → c.closed ≡ false
    → disconnect deleted e c ≡ close_notify deleted (some e) c
unfolding disconnect
disconnect_running deleted e c ws running = simp (ws, running) refl

disconnect-closed :
    (deleted : String → Result (Unit {0})) (e : Failure) (c : Conn)
    → let c' = disconnect deleted e c in (c'.has_ws ≡ false) ⊎ (c'.closed ≡ true)
disconnect-closed deleted e c = elim (Bool-cases c.has_ws) [
  | inr no_ws ↦ rw (disconnect_idle deleted e c (inl no_ws)) (inl no_ws)
  | inl ws ↦ elim (Bool-cases c.closed) [
    | inl shut ↦ rw (disconnect_idle deleted e c (inr shut)) (inr shut)
    | inr running ↦
        rw (disconnect_running deleted e c ws running) (inr (close-closed deleted (some e) c))
  ]
]

service-IsDown :
    (fqdn : String) (deleted : String → Result (Unit {0})) (r : Region) (s : Option Service)
    → IsDown (close_region deleted (record r { connection = s }))
unfolding disconnect_service
service-IsDown fqdn deleted r none = tt
service-IsDown fqdn deleted r (some s) =
    (refl, disconnect-closed deleted (message "closed") s.connection.conn)

closed-IsDown :
    (deleted : String → Result (Unit {0})) (rs : List Region)
    → All IsDown (map (close_region deleted) rs)
closed-IsDown deleted [] = tt
closed-IsDown deleted (r ∷ rs) =
    (service-IsDown r.fqdn deleted r r.connection, closed-IsDown deleted rs)

-- An unbounded count of the rounds since the last attempt that worked, or since the start, tells
-- each pause; and in each pause nothing is open and one error at most waits for the application.
abbrev pub IsSchedule : ℕ → List Pause → Type 0
IsSchedule failures [] = Unit
IsSchedule failures (p ∷ ps) =
    let k = if p.after_success then 0 else failures in
    (p.duration ≡ 30000000000 * (1 + min 3 k))
    × All IsDown p.regions
    × (length p.errors ≤ 1)
    × IsSchedule (k + 1) ps

-- The factor before the next round is the count of rounds, up to 3.
factor_follows :
    (worked : Bool) (k : ℕ)
    → min 3 ((if worked then 0 else k) + 1) ≡ next_factor (if worked then 0 else min 3 k)
factor_follows true k = refl
factor_follows false k = ground arith

-- What a round leaves that does not end the loop.
report_any-errors :
    (e : Option Failure) (app : App) → length app.error ≤ 1 → length (report_any e app).error ≤ 1
unfolding report_any report_error
report_any-errors none app b = b
report_any-errors (some e) app b = ground (arith, length-append app.error (e ∷ []))

drain-errors : (b : Bool) (app : App) → length app.error ≤ 1 → length (drain b app).error ≤ 1
drain-errors false app b = b
drain-errors true app b = omega arith

report_any-regions : (e : Option Failure) (app : App) → (report_any e app).regions ≡ app.regions
unfolding report_any report_error
report_any-regions none app = refl
report_any-regions (some e) app = ground arith

-- One error at most waits, and unless the loop has ended nothing is open.
abbrev IsSettled : App × Option Bool → Type 0
IsSettled (app, none) = length app.error ≤ 1
IsSettled (app, some worked) = (length app.error ≤ 1) × All IsDown app.regions

finish_round-IsSettled :
    (r : Round) (x : Received) (app : App) (failure : Option Failure)
    → length app.error ≤ 1
    → IsSettled (finish_round (record r { received = x }) app failure)
unfolding finish_round close_connections
finish_round-IsSettled r x app (some e) b =
    (report_any-errors (some e) app b, closed-IsDown r.deleted (report_any (some e) app).regions)
finish_round-IsSettled r context_done app none b = b
finish_round-IsSettled r (connection_ends e) app none b =
    (report_any-errors e app b, closed-IsDown r.deleted (report_any e app).regions)

settled_pause :
    (after : App × Option Bool) (worked : Bool)
    → IsSettled after
    → after.1 ≡ some worked
    → (length after.0.error ≤ 1) × All IsDown after.0.regions
settled_pause (app, none) worked s e = absurd (ground arith)
settled_pause (app, some w) worked s e = s

module _ (path_escape : String → String) where
  pubsub_connect-error :
      (now : ℕ) (answers : String → Answers) (app : App)
      → (pubsub_connect path_escape now answers app).0.error ≡ app.error
  unfolding pubsub_connect
  pubsub_connect-error now answers app =
      elim (Option-cases (create_connections path_escape app.config app.regions).1) [
        | inl made ↦ rw (made, pubsub_connect) refl
        | inr (e, failed) ↦ rw (failed, pubsub_connect) refl
      ]

  start_round-IsSettled :
      (r : Round) (app : App) → length app.error ≤ 1 → IsSettled (start_round path_escape r app)
  unfolding start_round
  start_round-IsSettled r app b =
      let app' = drain r.reads_error app in
      let after = pubsub_connect path_escape r.now r.answers app' in
      finish_round-IsSettled r r.received after.0 after.2
        (rw (pubsub_connect-error r.now r.answers app') (drain-errors r.reads_error app b))

  -- A pause and those after it, of a round that has not ended the loop.
  IsSchedule-pause :
      (worked : Bool) (k : ℕ) (app : App) (goes_on : Bool) (more : List Pause)
      → (length app.error ≤ 1) × All IsDown app.regions
      → let k' = if worked then 0 else k in
        IsSchedule (k' + 1) more
        → IsSchedule k
            (pause worked (if worked then 0 else min 3 k) app ∷ (if goes_on then more else []))
  IsSchedule-pause true k app true more s rest = (omega arith, s.1, s.0, rest)
  IsSchedule-pause true k app false more s rest = (omega arith, s.1, s.0, tt)
  IsSchedule-pause false k app true more s rest = (omega arith, s.1, s.0, rest)
  IsSchedule-pause false k app false more s rest = (omega arith, s.1, s.0, tt)

  start_pubsub_connect-IsSchedule :
      (k : ℕ) (rs : List Round) (app : App)
      → length app.error ≤ 1
      → IsSchedule k (start_pubsub_connect path_escape (min 3 k) rs app).1
  unfolding start_pubsub_connect
  start_pubsub_connect-IsSchedule k [] app b = tt
  start_pubsub_connect-IsSchedule k (r ∷ rs) app b =
      let after = start_round path_escape r app in
      let s = start_round-IsSettled r app b in
      elim (Option-cases after.1) [
        | inl over ↦ rw (over, start_pubsub_connect) tt
        | inr (worked, on) ↦
            let factor = if worked then 0 else min 3 k in
            let rest = start_pubsub_connect path_escape (next_factor factor) rs after.0 in
            let settled = settled_pause after worked s on in
            rw (on, start_pubsub_connect)
              (IsSchedule-pause worked k after.0 r.wait_over rest.1 settled (
                subst
                  (λ f.
                    IsSchedule ((if worked then 0 else k) + 1)
                      (start_pubsub_connect path_escape f rs after.0).1)
                  (factor_follows worked k)
                  (start_pubsub_connect-IsSchedule ((if worked then 0 else k) + 1) rs after.0
                    settled.0)))
      ]

  -- In any run of the loop from its start, with at most one error waiting: each pause is 30 seconds
  -- longer than the one before, up to 120 seconds, begins at 30 seconds at first and after an
  -- attempt that worked, and while it lasts no connection is open and at most one error waits.
  pub pauses-IsSchedule :
      (rs : List Round) (app : App)
      → length app.error ≤ 1
      → IsSchedule 0 (start_pubsub_connect path_escape 0 rs app).1
  pauses-IsSchedule rs app b = start_pubsub_connect-IsSchedule 0 rs app b
