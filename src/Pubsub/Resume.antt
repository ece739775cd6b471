-- ===== src/Pubsub/Resume.antt =====
-- What a reconnect after a consume timeout restores (internal/pubsub/reconnect.go).
use cloud_sdk_go.Base.{
  ℕ, ◌≡◌, refl, sym, subst, ◌∙◌, ap, ◌≢◌, inl, inr, String, true, false, Option, none, some, List,
  [], ◌∷◌, arith, Dict, lookup, lookup-insert, eq_iff, eq_refl, str_eq, is_empty, Bool-cases,
  if◌then◌else◌, Failure, message, Result, ok, err,
}
use cloud_sdk_go.Stats.Defs.{record_connected, record_reconnect}
use cloud_sdk_go.Pubsub.Conn.{
  Conn, Subscription, Dial, new_internal_connection, connect, subscribe, add_subscription,
}
use cloud_sdk_go.Pubsub.Reconnect.{
  SubscriptionParams, Connection, Pass, goes_on, ends, subscription_snapshot, resubscribe,
  tell_ready, resume, error_handler_pass,
}

-- A table of parameters: each stands under its stream, once, with the id that the broker gave.
abbrev pub IsTable : Dict SubscriptionParams → Type 0
IsTable [] = Unit
IsTable ((stream, p) ∷ rest) =
    (p.stream ≡ stream)
    × (is_empty p.subscription_id ≡ false)
    × (lookup stream rest ≡ none)
    × IsTable rest

-- The subscription that parameters stand for, or else one that is there.
abbrev pub restored : Option SubscriptionParams → Option Subscription → Option Subscription
restored none there = there
restored (some p) there = some (record { id = p.subscription_id; stream = p.stream })

-- No stream of the table is subscribed.
abbrev IsFree : Dict SubscriptionParams → Conn → Type 0
IsFree subs c = (s : String) → lookup s subs ≢ none → lookup s c.subs ≡ none

subscribe_again :
    (now : ℕ) (stream id : String) (c : Conn)
    → lookup stream c.subs ≡ none
    → is_empty id ≡ false
    → subscribe now stream id (err (message "unused")) c ≡ (add_subscription now stream id c, ok id)
unfolding subscribe
subscribe_again now stream id c free filled = rw (free, subscribe, filled)

add_subscription-lookup :
    (now : ℕ) (stream id s : String) (c : Conn)
    → lookup s (add_subscription now stream id c).subs
      ≡ (if str_eq stream s then some (record { id = id; stream = stream }) else lookup s c.subs)
unfolding add_subscription
add_subscription-lookup now stream id s c =
    lookup-insert s stream (record { id = id; stream = stream }) c.subs

rest-IsFree :
    (now : ℕ) (stream id : String) (p : SubscriptionParams) (rest : Dict SubscriptionParams)
    (c : Conn)
    → lookup stream rest ≡ none
    → IsFree ((stream, p) ∷ rest) c
    → IsFree rest (add_subscription now stream id c)
unfolding lookup
rest-IsFree now stream id p rest c once free s there = elim (Bool-cases (str_eq stream s)) [
  | inl same ↦ absurd (there (ap (λ k. lookup k rest) (sym ((eq_iff stream s).0 same)) ∙ once))
  | inr other ↦ rw (add_subscription-lookup now stream id s c, other) (free s (rw other there))
]

head_free :
    (stream : String) (p : SubscriptionParams) (rest : Dict SubscriptionParams) (c : Conn)
    → IsFree ((stream, p) ∷ rest) c
    → lookup stream c.subs ≡ none
unfolding lookup
head_free stream p rest c free = free stream (rw (eq_refl stream) (λ e. cc))

restored-add :
    (now : ℕ) (stream s : String) (p : SubscriptionParams) (rest : Dict SubscriptionParams)
    (c : Conn)
    → p.stream ≡ stream
    → lookup stream rest ≡ none
    → restored (lookup s rest) (lookup s (add_subscription now stream p.subscription_id c).subs)
      ≡ restored (lookup s ((stream, p) ∷ rest)) (lookup s c.subs)
unfolding lookup
restored-add now stream s p rest c named once = elim (Bool-cases (str_eq stream s)) [
  | inl same ↦ rw (
    add_subscription-lookup now stream p.subscription_id s c,
    same,
    ← (eq_iff stream s).0 same,
    once,
    named,
  )
  | inr other ↦ rw (add_subscription-lookup now stream p.subscription_id s c, other)
]

-- The rest of the loop after one subscription.
abbrev and_then : ℕ → List SubscriptionParams → Conn × Result String → Conn × Option Failure
and_then now subs (c, err e) = (c, some e)
and_then now subs (c, ok id) = resubscribe now subs c

resubscribe_first :
    (now : ℕ) (stream : String) (p : SubscriptionParams) (rest : Dict SubscriptionParams) (c : Conn)
    → IsTable ((stream, p) ∷ rest)
    → lookup stream c.subs ≡ none
    → resubscribe now (subscription_snapshot ((stream, p) ∷ rest)) c
      ≡ resubscribe now
          (subscription_snapshot rest)
          (add_subscription now stream p.subscription_id c)
unfolding resubscribe subscription_snapshot
resubscribe_first now stream p rest c t free = ap (and_then now (subscription_snapshot rest)) (
    ap (λ k. subscribe now k p.subscription_id (err (message "unused")) c) t.0
    ∙ subscribe_again now stream p.subscription_id c free t.1)

-- The loop succeeds, and subscribes what the table holds.
abbrev Resubscribed : Dict SubscriptionParams → Conn → Conn × Option Failure → Type 0
Resubscribed subs c (c', failure) =
    (failure ≡ none)
    × ((s : String) → lookup s c'.subs ≡ restored (lookup s subs) (lookup s c.subs))

resubscribe_lem :
    (now : ℕ) (subs : Dict SubscriptionParams) (c : Conn)
    → IsTable subs
    → IsFree subs c
    → Resubscribed subs c (resubscribe now (subscription_snapshot subs) c)
unfolding resubscribe subscription_snapshot lookup
resubscribe_lem now [] c t free = (refl, λ s. refl)
resubscribe_lem now ((stream, p) ∷ rest) c t free =
    let ih =
      resubscribe_lem now rest (add_subscription now stream p.subscription_id c) t.3
        (rest-IsFree now stream p.subscription_id p rest c t.2 free) in
    subst (Resubscribed ((stream, p) ∷ rest) c)
      (sym (resubscribe_first now stream p rest c t (head_free stream p rest c free)))
      (ih.0, λ s. ih.1 s ∙ restored-add now stream s p rest c t.0 t.2)

tell_ready-subs :
    (now : ℕ) (subs : List SubscriptionParams) (c : Conn) → (tell_ready now subs c).0.subs ≡ c.subs
unfolding tell_ready
tell_ready-subs now [] c = refl
tell_ready-subs now (p ∷ subs) c = tell_ready-subs now subs _

-- The pass goes on with the same parameters, and its connection holds for each stream of the table
-- a subscription with the id that the broker gave, and no other.
abbrev pub Restores : Connection → Pass → Type 0
Restores c (ends c' e) = ⊥
Restores c (goes_on next events) =
    ((s : String) → lookup s next.conn.subs ≡ restored (lookup s c.subscriptions) none)
    × (next.subscriptions ≡ c.subscriptions)
    × (next.reconnecting ≡ false)

nothing-IsFree : (subs : Dict SubscriptionParams) (c : Conn) → c.subs ≡ [] → IsFree subs c
unfolding lookup
nothing-IsFree subs c e s there = rw e refl

resume-Restores :
    (now : ℕ) (c : Connection) (conn : Conn)
    → IsTable c.subscriptions
    → conn.subs ≡ []
    → Restores c (resume now c (conn, ok tt))
unfolding resume lookup
resume-Restores now c conn t e =
    let again =
      resubscribe_lem now c.subscriptions conn t (nothing-IsFree c.subscriptions conn e) in
    let subs = subscription_snapshot c.subscriptions in
    let left = (resubscribe now subs conn).0 in
    let counted : Conn = record left { stats = record_reconnect left.stats } in
    rw (Restores, again.0)
      (
        λ s.
            ap (λ m. lookup s m) (tell_ready-subs now subs counted)
            ∙ again.1 s
            ∙ ap (λ m. restored (lookup s c.subscriptions) (lookup s m)) e,
        refl,
        refl,
      )

fresh_lem :
    (c : Connection) (fresh : Conn)
    → new_internal_connection c.config c.conn.stats c.conn.gaps ≡ ok fresh
    → (fresh.has_ws ≡ false) × (fresh.subs ≡ [])
unfolding new_internal_connection
fresh_lem c fresh made = ground arith

-- A connection that is open.
abbrev open_up : ℕ → Conn → Conn
open_up now c = record c { has_ws = true; stats = record_connected now c.stats }

connect_lem :
    (now : ℕ) (d : Dial) (deleted : String → Result (Unit {0})) (fresh : Conn) (token : String)
    → fresh.has_ws ≡ false
    → d.token ≡ ok token
    → d.dialled ≡ ok tt
    → d.opened ≡ ok tt
    → connect now d deleted fresh ≡ (open_up now fresh, ok tt)
unfolding connect
connect_lem now d deleted fresh token shut got dialled opened = ground arith

error_handler_pass-resume :
    (now : ℕ) (d : Dial) (deleted : String → Result (Unit {0})) (e : Option Failure)
    (c : Connection) (fresh next : Conn)
    → c.conn.consume_timeout ≡ true
    → new_internal_connection c.config c.conn.stats c.conn.gaps ≡ ok fresh
    → connect now d deleted fresh ≡ (next, ok tt)
    → error_handler_pass now d deleted e c ≡ resume now c (next, ok tt)
unfolding error_handler_pass
error_handler_pass-resume now d deleted e c fresh next timeout made opened =
    simp (timeout, made, opened)

-- After a consume timeout, if each stream stands once in the table of parameters, with an id, and
-- the new connection can be made, dialled and opened, the error handler goes on, whatever the
-- error was: it keeps the table, its connection holds for each stream of the table a subscription
-- with the id that the broker gave before, and no other, and it is marked as no longer
-- reconnecting.
pub error_handler_pass-Restores :
    (now : ℕ) (d : Dial) (deleted : String → Result (Unit {0})) (e : Option Failure)
    (c : Connection) (fresh : Conn) (token : String)
    → IsTable c.subscriptions
    → c.conn.consume_timeout ≡ true
    → new_internal_connection c.config c.conn.stats c.conn.gaps ≡ ok fresh
    → d.token ≡ ok token
    → d.dialled ≡ ok tt
    → d.opened ≡ ok tt
    → Restores c (error_handler_pass now d deleted e c)
error_handler_pass-Restores now d deleted e c fresh token t timeout made got dialled opened =
    let new = fresh_lem c fresh made in
    let next = open_up now fresh in
    subst (Restores c)
      (sym (
        error_handler_pass-resume now d deleted e c fresh next timeout made
          (connect_lem now d deleted fresh token new.0 got dialled opened)))
      (resume-Restores now c next t new.1)
