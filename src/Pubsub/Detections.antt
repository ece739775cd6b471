-- ===== src/Pubsub/Detections.antt =====
-- What the end of a subscriber is seen by: the application, the tracker, the error handler.
use cloud_sdk_go.Base.{
  ℕ, ◌+◌, ◌≡◌, refl, ap, String, Bool, true, false, ◌||◌, Option, none, some, List, [], ◌∷◌, ◌++◌,
  map, arith, lookup, if◌then◌else◌, Result, eq_refl, lookup-insert, ℤ, sym, ◌∙◌,
}
use cloud_sdk_go.Gap.Tracker.{
  detected, recovered, GapReason, GapTracker, GapEvent, unless_nil, is_active, detect,
  broker_response,
}
use cloud_sdk_go.Pubsub.Conn.{Conn}
use cloud_sdk_go.Stats.Defs.{since_last_broker_response, record_broker_response}
use cloud_sdk_go.Pubsub.Consume.{
  dispatch_consume_result, End, stopped, gap, broken, Round, Step, consumer, Callback, requests,
  records, hands_over,
}
use cloud_sdk_go.Pubsub.Subscriber.{
  perform, perform_all, subscriber, subscriber_ends, Effect, notifies, calls, reports, disconnects,
  with_tracker, subscriber_end,
}

-- How many detections an application is told of.
abbrev pub detections : List Effect → ℕ
detections [] = 0
detections (notifies e ∷ es) = elim e.state [
  | detected ↦ detections es + 1
  | recovered ↦ detections es
]
detections (calls c ∷ es) = detections es
detections (reports f ∷ es) = detections es
detections (disconnects ∷ es) = detections es

abbrev pub disconnections : List Effect → ℕ
disconnections [] = 0
disconnections (notifies e ∷ es) = disconnections es
disconnections (calls c ∷ es) = disconnections es
disconnections (reports f ∷ es) = disconnections es
disconnections (disconnects ∷ es) = disconnections es + 1

abbrev pub ends_in_gap : Option End → Bool
ends_in_gap none = false
ends_in_gap (some stopped) = false
ends_in_gap (some (broken e)) = false
ends_in_gap (some (gap reason)) = true

abbrev pub one_if : Bool → ℕ
one_if b = if b then 1 else 0

-- What is seen of effects on a connection whose timeout flag was `flag`, when a gap is confirmed
-- or not.
pub record Sees (stream : String) (flag confirmed : Bool) (after : Conn × List Effect)
    : Type 0 where
  pub told : detections after.1 ≡ one_if confirmed
  pub closings : disconnections after.1 ≡ one_if confirmed
  pub marked : after.0.consume_timeout ≡ (flag || confirmed)

detections-append : (xs ys : List Effect) → detections (xs ++ ys) ≡ detections xs + detections ys
detections-append [] ys = omega arith
detections-append (notifies e ∷ xs) ys = ground (arith, detections-append xs ys)
detections-append (calls c ∷ xs) ys = detections-append xs ys
detections-append (reports f ∷ xs) ys = detections-append xs ys
detections-append (disconnects ∷ xs) ys = detections-append xs ys

disconnections-append :
    (xs ys : List Effect) → disconnections (xs ++ ys) ≡ disconnections xs + disconnections ys
disconnections-append [] ys = omega arith
disconnections-append (notifies e ∷ xs) ys = disconnections-append xs ys
disconnections-append (calls c ∷ xs) ys = disconnections-append xs ys
disconnections-append (reports f ∷ xs) ys = disconnections-append xs ys
disconnections-append (disconnects ∷ xs) ys = omega (arith, disconnections-append xs ys)

calls_quiet :
    (cs : List Callback) → (detections (map calls cs) ≡ 0) × (disconnections (map calls cs) ≡ 0)
calls_quiet [] = (refl, refl)
calls_quiet (c ∷ cs) = calls_quiet cs

-- The tracker, with no open gap of the stream.
abbrev IsQuiet : String → GapTracker → Type 0
IsQuiet stream t = is_active (lookup stream t.streams) ≡ false

broker_response-quiet :
    (now : ℕ) (stream : String) (t : GapTracker)
    → IsQuiet stream t
    → broker_response now stream t ≡ (t, [])
unfolding broker_response
broker_response-quiet now stream t q = ground arith

detect-quiet :
    (now : ℕ) (region stream : String) (reason : GapReason) (d : ℤ) (t : GapTracker)
    → IsQuiet stream t
    → let (t', events) = detect now region stream reason d t in
      (is_active (lookup stream t'.streams) ≡ true)
      × (detections (map notifies events) ≡ 1)
      × (disconnections (map notifies events) ≡ 0)
unfolding detect
detect-quiet now region stream reason d t q = grind (arith, eq_refl stream, lookup-insert)

detect-open :
    (now : ℕ) (region stream : String) (reason : GapReason) (d : ℤ) (t : GapTracker)
    → is_active (lookup stream t.streams) ≡ true
    → detect now region stream reason d t ≡ (t, [])
unfolding detect
detect-open now region stream reason d t e = simp e refl

with_tracker-some :
    (f : GapTracker → GapTracker × List GapEvent) (c : Conn) (t : GapTracker)
    → c.gaps ≡ some t
    → with_tracker f c ≡ (record c { gaps = some (f t).0 }, map notifies (f t).1)
with_tracker-some f c t g = simp g refl

unless_nil_quiet :
    (f : GapTracker → GapTracker × List GapEvent) (gaps : Option GapTracker) (t : GapTracker)
    → gaps ≡ some t
    → f t ≡ (t, [])
    → (unless_nil f gaps).0 ≡ some t
unless_nil_quiet f gaps t g e = rw (g, e) refl

or_false : (b : Bool) → b ≡ (b || false)
or_false b = ground arith

-- The second detection is silent.
confirmed-Sees :
    (now later : ℕ) (stream : String) (reason : GapReason) (c : Conn) (t : GapTracker)
    → IsQuiet stream t
    → c.gaps ≡ some t
    → Sees stream c.consume_timeout true (subscriber_end now later stream (gap reason) c)
unfolding subscriber_end
confirmed-Sees now later stream reason c t q g =
    let first =
      detect-quiet now c.config.domain stream reason (since_last_broker_response now stream c.stats)
        t q in
    let t' =
      (detect now c.config.domain stream reason (since_last_broker_response now stream c.stats)
        t).0 in
    let events =
      (detect now c.config.domain stream reason (since_last_broker_response now stream c.stats)
        t).1 in
    let second =
      detect-open later c.config.domain stream reason
        (since_last_broker_response later stream c.stats) t' first.0 in
    rw (g, second)
      (record {
        told = omega (
          arith,
          first.1,
          detections-append (map notifies events) [],
          detections-append (map notifies events ++ []) (disconnects ∷ []),
        );
        closings = omega (
          arith,
          first.2,
          disconnections-append (map notifies events) [],
          disconnections-append (map notifies events ++ []) (disconnects ∷ []),
        );
        marked = ground arith;
      })

end-Sees :
    (now later : ℕ) (stream : String) (end : Option End) (c : Conn) (t : GapTracker)
    → IsQuiet stream t
    → c.gaps ≡ some t
    → Sees stream c.consume_timeout (ends_in_gap end) (subscriber_ends now later stream end c)
unfolding subscriber_end
end-Sees now later stream none c t q g = record {
  told = refl;
  closings = refl;
  marked = or_false c.consume_timeout;
}
end-Sees now later stream (some stopped) c t q g = record {
  told = refl;
  closings = refl;
  marked = or_false c.consume_timeout;
}
end-Sees now later stream (some (broken e)) c t q g = record {
  told = refl;
  closings = refl;
  marked = or_false c.consume_timeout;
}
end-Sees now later stream (some (gap reason)) c t q g =
    confirmed-Sees now later stream reason c t q g

module _ (decode : String → Result String) (stream : String) (t : GapTracker) where
  perform-Sees :
      (now : ℕ) (step : Step) (c : Conn)
      → IsQuiet stream t
      → c.gaps ≡ some t
      → let after = perform decode stream now step c in
        Sees stream c.consume_timeout false after × (after.0.gaps ≡ some t)
  unfolding perform
  perform-Sees now (requests ctx) c q g =
      (record { told = refl; closings = refl; marked = or_false c.consume_timeout }, g)
  perform-Sees now (records ctx messages) c q g =
      let c' : Conn = record c { stats = record_broker_response now stream ctx messages c.stats } in
      rw
        (
          with_tracker-some (broker_response now stream) c' t g,
          broker_response-quiet now stream t q,
        )
        (
          record { told = refl; closings = refl; marked = or_false c.consume_timeout },
          unless_nil_quiet (broker_response now stream) c.gaps t g
              (broker_response-quiet now stream t q),
        )
  perform-Sees now (hands_over result) c q g =
      let quiet =
        calls_quiet (dispatch_consume_result now decode stream result.messages c.stats).1 in
      (record { told = quiet.0; closings = quiet.1; marked = or_false c.consume_timeout }, g)

  perform_all-Sees :
      (clock : ℕ → ℕ) (n : ℕ) (steps : List Step) (c : Conn)
      → IsQuiet stream t
      → c.gaps ≡ some t
      → let after = perform_all decode stream clock n steps c in
        Sees stream c.consume_timeout false after × (after.0.gaps ≡ some t)
  unfolding perform_all
  perform_all-Sees clock n [] c q g =
      (record { told = refl; closings = refl; marked = or_false c.consume_timeout }, g)
  perform_all-Sees clock n (step ∷ steps) c q g =
      let one = perform decode stream (clock n) step c in
      let first = perform-Sees (clock n) step c q g in
      let more = perform_all decode stream clock (n + 1) steps one.0 in
      let rest = perform_all-Sees clock (n + 1) steps one.0 q first.1 in
      (
        record {
          told = omega (arith, detections-append one.1 more.1, first.0.told, rest.0.told);
          closings =
              omega (arith, disconnections-append one.1 more.1, first.0.closings, rest.0.closings);
          marked =
              rest.0.marked
              ∙ ap (λ b. b || false) (first.0.marked ∙ sym (or_false c.consume_timeout));
        },
        rest.1,
      )

  -- In a whole run of a subscriber whose tracker has no open gap of its stream: the application is
  -- told of a gap once if the consumer ends with one and else never, the connection is then
  -- disconnected once and else never, and it is marked as timed out if it was before or the
  -- consumer ends with a gap.
  pub subscriber-Sees :
      (clock : ℕ → ℕ) (now later : ℕ) (rounds : List Round) (c : Conn)
      → is_active (lookup stream t.streams) ≡ false
      → c.gaps ≡ some t
      → Sees stream c.consume_timeout
          (ends_in_gap (consumer stream "" rounds).1)
          (subscriber decode stream clock now later rounds c)
  unfolding subscriber
  subscriber-Sees clock now later rounds c q g =
      let (steps, end) = consumer stream "" rounds in
      let done = perform_all decode stream clock 0 steps c in
      let first = perform_all-Sees clock 0 steps c q g in
      let last = subscriber_ends now later stream end done.0 in
      let rest = end-Sees now later stream end done.0 t q first.1 in
      record {
        told = omega (arith, detections-append done.1 last.1, first.0.told, rest.told);
        closings =
            omega (arith, disconnections-append done.1 last.1, first.0.closings, rest.closings);
        marked =
            rest.marked
            ∙ ap (λ b. b || ends_in_gap end) (first.0.marked ∙ sym (or_false c.consume_timeout));
      }
