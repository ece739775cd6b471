-- ===== src/Pubsub/Recovery.antt =====
-- From a stall of a stream to the connection that takes over: the subscriber's end, the closing and
-- the pass of the error handler, one after the other (subscribe.go, connection.go, reconnect.go).
use cloud_sdk_go.Base.{
  ℕ, ◌≡◌, refl, ◌∙◌, inl, inr, String, Bool, true, false, not, Option, some, List, [], ◌∷◌, Dict,
  arith, lookup, Result-cases, Failure, Result, ok,
}
use cloud_sdk_go.Stats.Defs.{ConnStats}
use cloud_sdk_go.Gap.Tracker.{GapTracker, is_active}
use cloud_sdk_go.Pubsub.Conn.{
  Config, Conn, Subscription, Dial, new_internal_connection, unsubscribe_without_lock,
  unsubscribe_all, close_notify,
}
use cloud_sdk_go.Pubsub.Reconnect.{Connection, error_handler_pass}
use cloud_sdk_go.Pubsub.Consume.{Round, consumer}
use cloud_sdk_go.Pubsub.Subscriber.{subscriber}
use cloud_sdk_go.Pubsub.Detections.{detections, ends_in_gap, subscriber-Sees}
use cloud_sdk_go.Pubsub.Resume.{IsTable, Restores, error_handler_pass-Restores}

module _ (deleted : String → Result (Unit {0})) where
  unsubscribe-timeout :
      (stream : String) (b : Bool) (c : Conn)
      → (unsubscribe_without_lock deleted stream b c).0.consume_timeout ≡ c.consume_timeout
  unfolding unsubscribe_without_lock
  unsubscribe-timeout stream b c = ground arith

  unsubscribe_all-timeout :
      (b : Bool) (d : Dict Subscription) (c : Conn)
      → (unsubscribe_all deleted b d c).consume_timeout ≡ c.consume_timeout
  unfolding unsubscribe_all
  unsubscribe_all-timeout b [] c = refl
  unsubscribe_all-timeout b ((j, sub) ∷ rest) c =
      unsubscribe_all-timeout b rest (unsubscribe_without_lock deleted j b c).0
      ∙ unsubscribe-timeout j b c

  close_notify-timeout :
      (e : Option Failure) (c : Conn)
      → (close_notify deleted e c).consume_timeout ≡ c.consume_timeout
  unfolding close_notify
  close_notify-timeout e c =
      ground
        (arith, unsubscribe_all-timeout (not c.consume_timeout) c.subs (record c { closed = true }))

  unsubscribe_all_kept :
      (deleted' : String → Result (Unit {0})) (d : Dict Subscription) (c : Conn)
      → unsubscribe_all deleted false d c ≡ unsubscribe_all deleted' false d c
  unfolding unsubscribe_all unsubscribe_without_lock
  unsubscribe_all_kept deleted' [] c = refl
  unsubscribe_all_kept deleted' ((j, sub) ∷ rest) c =
      unsubscribe_all_kept deleted' rest (unsubscribe_without_lock deleted j false c).0

  -- The closing of a connection that has timed out is the same whatever the broker answers.
  close_notify_kept :
      (deleted' : String → Result (Unit {0})) (e : Option Failure) (c : Conn)
      → c.consume_timeout ≡ true
      → close_notify deleted e c ≡ close_notify deleted' e c
  unfolding close_notify
  close_notify_kept deleted' e c timeout =
      ground (arith, unsubscribe_all_kept deleted' c.subs (record c { closed = true }))

-- Whether a configuration is accepted does not depend on the statistics or the tracker.
accepted_anew :
    (config : Config) (stats stats' : ConnStats) (gaps gaps' : Option GapTracker) (c : Conn)
    → new_internal_connection config stats gaps ≡ ok c
    → (c' : Conn) × (new_internal_connection config stats' gaps' ≡ ok c')
unfolding new_internal_connection
accepted_anew config stats stats' gaps gaps' c e =
    elim (Result-cases (new_internal_connection config stats' gaps')) [
      | inl made ↦ made
      | inr (x, failed) ↦ absurd (ground arith)
    ]

-- When the consumer of a stream ends in a gap, on a connection whose tracker has no open gap of
-- the stream, then the application is told of one gap; the closing that follows leaves the same
-- connection whatever the broker answers to deletions; and if each stream stands once in the table
-- of parameters, with an id, the configuration is accepted, and the new connection can be dialled
-- and opened, the error handler goes on with exactly the subscriptions of the table, under their
-- old ids.
pub stall-Restores :
    (decode : String → Result String) (stream : String) (t : GapTracker) (clock : ℕ → ℕ)
    (now later again : ℕ) (rounds : List Round) (k : Connection) (e : Option Failure)
    (deleted deleted' : String → Result (Unit {0})) (d : Dial) (fresh : Conn) (token : String)
    → k.conn.gaps ≡ some t
    → is_active (lookup stream t.streams) ≡ false
    → ends_in_gap (consumer stream "" rounds).1 ≡ true
    → IsTable k.subscriptions
    → new_internal_connection k.config k.conn.stats k.conn.gaps ≡ ok fresh
    → d.token ≡ ok token
    → d.dialled ≡ ok tt
    → d.opened ≡ ok tt
    → let (c, effects) = subscriber decode stream clock now later rounds k.conn in
      let shut : Connection = record k { conn = close_notify deleted e c } in
      (detections effects ≡ 1)
      × (close_notify deleted e c ≡ close_notify deleted' e c)
      × Restores shut (error_handler_pass again d deleted e shut)
stall-Restores decode stream t clock now later again rounds k e deleted deleted' d fresh token gaps
      quiet stalls table made got dialled opened =
    let c = (subscriber decode stream clock now later rounds k.conn).0 in
    let shut : Connection = record k { conn = close_notify deleted e c } in
    let seen = subscriber-Sees decode stream t clock now later rounds k.conn quiet gaps in
    let timeout : c.consume_timeout ≡ true = ground (arith, seen.marked) in
    let anew =
      accepted_anew k.config k.conn.stats shut.conn.stats k.conn.gaps shut.conn.gaps fresh made in
    (
      ground (arith, seen.told),
      close_notify_kept deleted deleted' e c timeout,
      error_handler_pass-Restores again d deleted e shut anew.0 token table
          (close_notify-timeout deleted e c ∙ timeout) anew.1 got dialled opened,
    )
