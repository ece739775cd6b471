-- ===== src/Pubsub/Once.antt =====
-- How often a connection can be connected.
use cloud_sdk_go.Base.{
  ℕ, ◌+◌, ◌≤◌, ◌≡◌, refl, inl, inr, String, Bool, true, false, not, Dict, Option, none, some, List,
  [], ◌∷◌, arith, Bool-cases, Option-cases, if◌then◌else◌, Failure, message, Result, ok, err, ◌∙◌,
}
use cloud_sdk_go.Pubsub.Conn.{
  Conn, Dial, unsubscribe_without_lock, unsubscribe_all, Subscription, close_notify, disconnect,
  connect,
}
use cloud_sdk_go.Pubsub.Lifecycle.{
  Service, Attempt, with_conn, finish_connect, connect_service, disconnect_service,
}

-- What the application does with a connection, and what the websocket does to it.
pub data Op : Type 0 where
  connects : (now : ℕ) → Attempt → Op
  disconnects : (String → Result (Unit {0})) → Op
  breaks : (String → Result (Unit {0})) → Option Failure → Op

abbrev pub one_if_none : Option Failure → ℕ
one_if_none none = 1
one_if_none (some e) = 0

-- The connection after an operation, and whether it was a `Connect` that worked.
abbrev pub step : Op → Service → Service × ℕ
step (connects now a) s = let (s', failure) = connect_service now a s in (s', one_if_none failure)
step (disconnects deleted) s = (disconnect_service deleted s, 0)
step (breaks deleted e) s = (with_conn (close_notify deleted e s.connection.conn) s, 0)

abbrev pub connected : List Op → Service → Service × ℕ
connected [] s = (s, 0)
connected (op ∷ ops) s = let (s', n) = step op s in let (s'', m) = connected ops s' in (s'', n + m)

module _ (deleted : String → Result (Unit {0})) where
  unsubscribe-has_ws :
      (stream : String) (b : Bool) (c : Conn)
      → (unsubscribe_without_lock deleted stream b c).0.has_ws ≡ c.has_ws
  unfolding unsubscribe_without_lock
  unsubscribe-has_ws stream b c = ground arith

  unsubscribe_all-has_ws :
      (b : Bool) (d : Dict Subscription) (c : Conn)
      → (unsubscribe_all deleted b d c).has_ws ≡ c.has_ws
  unfolding unsubscribe_all
  unsubscribe_all-has_ws b [] c = refl
  unsubscribe_all-has_ws b ((j, sub) ∷ rest) c =
      unsubscribe_all-has_ws b rest (unsubscribe_without_lock deleted j b c).0
      ∙ unsubscribe-has_ws j b c

  close_notify-has_ws :
      (e : Option Failure) (c : Conn) → (close_notify deleted e c).has_ws ≡ c.has_ws
  unfolding close_notify
  close_notify-has_ws e c =
      ground
        (arith, unsubscribe_all-has_ws (not c.consume_timeout) c.subs (record c { closed = true }))

  disconnect-has_ws : (e : Failure) (c : Conn) → (disconnect deleted e c).has_ws ≡ c.has_ws
  unfolding disconnect
  disconnect-has_ws e c = ground (arith, close_notify-has_ws (some e) c)

-- A connection that has its websocket has been connected; another may be.
abbrev left_to_connect : Service → ℕ
left_to_connect s = if s.connection.conn.has_ws then 0 else 1

connect_worked :
    (now : ℕ) (d : Dial) (deleted : String → Result (Unit {0})) (c : Conn) (u : Unit {0})
    → (connect now d deleted c).1 ≡ ok u
    → (c.has_ws ≡ false) × ((connect now d deleted c).0.has_ws ≡ true)
unfolding connect
connect_worked now d deleted c u e = ground arith

connect-keeps :
    (now : ℕ) (d : Dial) (deleted : String → Result (Unit {0})) (c : Conn)
    → c.has_ws ≡ true
    → (connect now d deleted c).0.has_ws ≡ true
unfolding connect
connect-keeps now d deleted c e = ground arith

-- How a `Connect` ends, with the inner connection as its `connect` has left it.
finish_connect-left :
    (a : Attempt) (conn : Conn) (s : Service)
    → let (s', failure) = finish_connect a (conn, ok tt) s in
      (s'.connection.conn.has_ws ≡ conn.has_ws) × (one_if_none failure ≤ 1)
unfolding finish_connect
finish_connect-left a conn s = elim (Option-cases a.cancelled) [
  | inl going ↦ rw (going, finish_connect) (refl, omega arith)
  | inr (e, cancelled) ↦
      rw (cancelled, finish_connect)
        (disconnect-has_ws a.deleted (message "closed") conn, omega arith)
]

finish-left :
    (a : Attempt) (conn : Conn) (result : Result (Unit {0})) (s : Service)
    → ((u : Unit {0}) → result ≡ ok u → (s.connection.conn.has_ws ≡ false) × (conn.has_ws ≡ true))
    → (s.connection.conn.has_ws ≡ true → conn.has_ws ≡ true)
    → let (s', failure) = finish_connect a (conn, result) s in
      one_if_none failure + left_to_connect s' ≤ left_to_connect s
unfolding finish_connect
finish-left a conn (err e) s worked kept = elim (Bool-cases s.connection.conn.has_ws) [
  | inl has ↦ let k = kept has in ground arith
  | inr has_not ↦ ground arith
]
finish-left a conn (ok u) s worked kept =
    let w = worked u refl in let end = finish_connect-left a conn s in ground arith

connect_service-left :
    (now : ℕ) (a : Attempt) (s : Service)
    → let (s', failure) = connect_service now a s in
      one_if_none failure + left_to_connect s' ≤ left_to_connect s
unfolding connect_service
connect_service-left now a s =
    let c = s.connection.conn in
    let after = connect now a.dial a.deleted c in
    finish-left a after.0 after.1 s (λ u e. connect_worked now a.dial a.deleted c u e)
      (λ e. connect-keeps now a.dial a.deleted c e)

step-left :
    (op : Op) (s : Service) → let (s', n) = step op s in n + left_to_connect s' ≤ left_to_connect s
unfolding disconnect_service
step-left (connects now a) s = connect_service-left now a s
step-left (disconnects deleted) s =
    ground (arith, disconnect-has_ws deleted (message "closed") s.connection.conn)
step-left (breaks deleted e) s = ground (arith, close_notify-has_ws deleted e s.connection.conn)

run-left :
    (ops : List Op) (s : Service)
    → let (s', n) = connected ops s in n + left_to_connect s' ≤ left_to_connect s
run-left [] s = omega arith
run-left (op ∷ ops) s = omega (arith, step-left op s, run-left ops (step op s).0)

-- In any sequence of calls of `Connect` and `Disconnect` and of failures of the websocket, `Connect`
-- works at most once, and not at all if the connection has a websocket from before.
pub connected_once :
    (ops : List Op) (s : Service)
    → (connected ops s).1 ≤ (if s.connection.conn.has_ws then 0 else 1)
connected_once ops s = omega (arith, run-left ops s)
