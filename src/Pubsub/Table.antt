-- ===== src/Pubsub/Table.antt =====
-- The table of subscriptions under subscription and closure.
use cloud_sdk_go.Base.{
  ℕ, ◌≡◌, refl, ◌∙◌, ◌⊎◌, inl, inr, String, Bool, true, false, not, Option, none, some, [], ◌∷◌,
  arith, Dict, lookup, lookup-insert, lookup-erase, eq_iff, eq_refl, str_eq, is_empty, Bool-cases,
  if◌then◌else◌, Failure, Result, ok, err,
}
use cloud_sdk_go.Query.Types.{replied}
use cloud_sdk_go.Pubsub.Conn.{
  Conn, Subscription, delete_subscription, add_subscription, subscribe, unsubscribe,
  unsubscribe_without_lock, unsubscribe_all, close_notify,
}

-- A subscription in the table is removed, and no error is returned, whatever status the broker's
-- reply to its deletion has, if a token is there.
pub unsubscribe_any_status :
    (token stream : String) (status : ℕ) (c : Conn) (sub : Subscription)
    → lookup stream c.subs ≡ some sub
    → let (c', result) =
        unsubscribe (λ id. delete_subscription (ok token) (replied status tt)) stream c in
      (result ≡ ok tt) × (lookup stream c'.subs ≡ none)
unfolding delete_subscription unsubscribe
unsubscribe_any_status token stream status c sub h =
    ground (arith, lookup-erase stream stream c.subs, eq_refl stream)

module _ (deleted : String → Result (Unit {0})) where
  -- What closing leaves of a subscription.
  abbrev pub remains : Bool → Subscription → Option Subscription
  remains false sub = none
  remains true sub = elim (deleted sub.id) [ ok _ ↦ none | err _ ↦ some sub ]

  abbrev pub remains? : Bool → Option Subscription → Option Subscription
  remains? b none = none
  remains? b (some sub) = remains b sub

  unsubscribe-lookup :
      (s stream : String) (b : Bool) (c : Conn)
      → lookup s (unsubscribe_without_lock deleted stream b c).0.subs
        ≡ (if str_eq stream s then remains? b (lookup s c.subs) else lookup s c.subs)
  unfolding unsubscribe_without_lock
  unsubscribe-lookup s stream false c =
      ground (arith, eq_iff stream s, lookup-erase s stream c.subs)
  unsubscribe-lookup s stream true c = grind (arith, eq_iff stream s, lookup-erase)

  remains?-idem : (b : Bool) (o : Option Subscription) → remains? b (remains? b o) ≡ remains? b o
  remains?-idem false o = ground arith
  remains?-idem true none = refl
  remains?-idem true (some sub) = ground arith

  abbrev has : String → Dict Subscription → Bool
  has s [] = false
  has s ((j, sub) ∷ rest) = let later = has s rest in if str_eq j s then true else later

  has-lookup : (s : String) (d : Dict Subscription) → has s d ≡ false → lookup s d ≡ none
  unfolding lookup
  has-lookup s [] h = refl
  has-lookup s ((j, sub) ∷ rest) h = ground (arith, has-lookup s rest)

  unsubscribe_all-lookup :
      (s : String) (b : Bool) (d : Dict Subscription) (c : Conn)
      → lookup s (unsubscribe_all deleted b d c).subs
        ≡ (if has s d then remains? b (lookup s c.subs) else lookup s c.subs)
  unfolding unsubscribe_all
  unsubscribe_all-lookup s b [] c = refl
  unsubscribe_all-lookup s b ((j, sub) ∷ rest) c =
      let c' = (unsubscribe_without_lock deleted j b c).0 in
      rw (unsubscribe_all-lookup s b rest c', unsubscribe-lookup s j b c)
        (split (str_eq j s) (has s rest) b (lookup s c.subs))
    where
      split :
          (same later : Bool) (b : Bool) (o : Option Subscription)
          → (if later
              then remains? b (if same then remains? b o else o)
              else (if same then remains? b o else o))
            ≡ (if (if same then true else later) then remains? b o else o)
      split true true b o = remains?-idem b o
      split true false b o = refl
      split false true b o = refl
      split false false b o = refl

  unsubscribe-closed :
      (stream : String) (b : Bool) (c : Conn)
      → (unsubscribe_without_lock deleted stream b c).0.closed ≡ c.closed
  unfolding unsubscribe_without_lock
  unsubscribe-closed stream b c = ground arith

  unsubscribe_all-closed :
      (b : Bool) (d : Dict Subscription) (c : Conn)
      → (unsubscribe_all deleted b d c).closed ≡ c.closed
  unfolding unsubscribe_all unsubscribe_without_lock
  unsubscribe_all-closed b [] c = refl
  unsubscribe_all-closed b ((j, sub) ∷ rest) c =
      unsubscribe_all-closed b rest (unsubscribe_without_lock deleted j b c).0
      ∙ unsubscribe-closed j b c

  settle_has :
      (h b : Bool) (o : Option Subscription)
      → (h ≡ false → o ≡ none)
      → (if h then remains? b o else o) ≡ remains? b o
  settle_has true b o n = refl
  settle_has false b o n = rw (n refl) refl

  -- When an open connection is closed with an error or nil, the connection is closed and the
  -- error is passed on; after a consume timeout every subscription is removed, whatever the
  -- broker would answer to a deletion, and otherwise exactly those are removed that the broker
  -- deletes.
  pub close_notify-lookup :
      (e : Option Failure) (c : Conn) (s : String)
      → c.closed ≡ false
      → let after = close_notify deleted e c in
        (after.closed ≡ true)
        × (after.error ≡ some e)
        × (lookup s after.subs ≡ remains? (not c.consume_timeout) (lookup s c.subs))
  unfolding close_notify
  close_notify-lookup e c s h =
      let shut : Conn = record c { closed = true } in
      let b = not c.consume_timeout in
      rw h (
        unsubscribe_all-closed b c.subs shut,
        refl,
        unsubscribe_all-lookup s b c.subs shut
            ∙ settle_has (has s c.subs) b (lookup s c.subs) (has-lookup s c.subs),
      )

close_closed :
    (deleted : String → Result (Unit {0})) (e : Option Failure) (c : Conn)
    → c.closed ≡ true
    → close_notify deleted e c ≡ c
unfolding close_notify
close_closed deleted e c h = rw h refl

pub close-closed :
    (deleted : String → Result (Unit {0})) (e : Option Failure) (c : Conn)
    → (close_notify deleted e c).closed ≡ true
unfolding close_notify
close-closed deleted e c = elim (Bool-cases c.closed) [
  | inl h ↦ rw h refl
  | inr h ↦
      rw h
        (unsubscribe_all-closed deleted (not c.consume_timeout) c.subs (record c { closed = true }))
]

-- A second closing changes nothing, whatever its error and the broker's answers are.
pub close_notify_once :
    (deleted deleted' : String → Result (Unit {0})) (e e' : Option Failure) (c : Conn)
    → close_notify deleted' e' (close_notify deleted e c) ≡ close_notify deleted e c
close_notify_once deleted deleted' e e' c =
    close_closed deleted' e' (close_notify deleted e c) (close-closed deleted e c)

added-lookup :
    (now : ℕ) (stream id other : String) (c : Conn)
    → lookup other (add_subscription now stream id c).subs ≡ (
        if str_eq stream other
        then some (record { id = id; stream = stream })
        else lookup other c.subs)
unfolding add_subscription
added-lookup now stream id other c =
    lookup-insert other stream (record { id = id; stream = stream }) c.subs

-- A subscription that succeeds with an id was for a stream that had none; the id is the one given
-- if one was and else the one that the broker created, the table now holds it for the stream, and
-- is unchanged for every other stream.
pub subscribe-adds :
    (now : ℕ) (stream given : String) (created : Result String) (c : Conn) (id other : String)
    → (subscribe now stream given created c).1 ≡ ok id
    → let c' = (subscribe now stream given created c).0 in
      (lookup stream c.subs ≡ none)
      × (lookup stream c'.subs ≡ some (record { id = id; stream = stream }))
      × ((is_empty given ≡ false × id ≡ given) ⊎ (is_empty given ≡ true × created ≡ ok id))
      × (lookup other c'.subs ≡ (
          if str_eq stream other
          then some (record { id = id; stream = stream })
          else lookup other c.subs))
unfolding subscribe
subscribe-adds now stream given created c id other h =
    ground (
      arith,
      eq_refl stream,
      added-lookup now stream id stream c,
      added-lookup now stream id other c,
    )

-- A subscription that fails changes nothing.
pub subscribe-fails :
    (now : ℕ) (stream given : String) (created : Result String) (c : Conn) (e : Failure)
    → (subscribe now stream given created c).1 ≡ err e
    → (subscribe now stream given created c).0 ≡ c
unfolding subscribe
subscribe-fails now stream given created c e h = ground arith
